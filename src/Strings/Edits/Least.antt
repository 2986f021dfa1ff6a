-- ===== src/Strings/Edits/Least.antt =====
-- Edit scripts, and the recurrence for the length of the shortest.
use mathlib.Core.Path.{subst}
use mathlib.Core.List.{append-nil}
use batyr.Prelude.{
  ℕ, zero, suc, ◌+◌, ◌≤◌, ◌≡◌, refl, sym, ◌∙◌, ◌⊎◌, inl, inr, [], ◌∷◌, ◌++◌, length, Text, arith,
}
use batyr.Strings.{edit_cost}

-- `s` becomes `t` by `n` replacements, removals and insertions of single bytes.
pub data Edit : Text → Text → ℕ → Type 0 where
  finish : Edit [] [] zero
  keep : {s t : Text} {n c d : ℕ} → c ≡ d → Edit s t n → Edit (c ∷ s) (d ∷ t) n
  replace : {s t : Text} {n c d : ℕ} → Edit s t n → Edit (c ∷ s) (d ∷ t) (suc n)
  remove : {s t : Text} {n c : ℕ} → Edit s t n → Edit (c ∷ s) t (suc n)
  insert : {s t : Text} {n d : ℕ} → Edit s t n → Edit s (d ∷ t) (suc n)

unfoldable pub distance : Text → Text → ℕ
distance [] t = length t
distance (c ∷ s) [] = length (c ∷ s)
distance (c ∷ s) (d ∷ t) = edit_cost c d (distance (c ∷ s) t) (distance s (d ∷ t)) (distance s t)

edit_cost_comm : (c d a b e : ℕ) → edit_cost c d a b e ≡ edit_cost d c b a e
edit_cost_comm c d a b e = ground arith

distance_comm : (s t : Text) → distance s t ≡ distance t s
unfolding distance
distance_comm [] [] = refl
distance_comm [] (d ∷ t) = refl
distance_comm (c ∷ s) [] = refl
distance_comm (c ∷ s) (d ∷ t) =
    rw (distance_comm (c ∷ s) t, distance_comm s (d ∷ t), distance_comm s t)
      (edit_cost_comm c d (distance t (c ∷ s)) (distance (d ∷ t) s) (distance t s))

-- One more byte on the left costs at most one edit, if the same holds of leaving one out on the
-- right.
distance-cons-le :
    (c : ℕ) (s t : Text)
    → ((d : ℕ) (t' : Text) → distance s t' ≤ distance s (d ∷ t') + 1)
    → distance (c ∷ s) t ≤ distance s t + 1
unfolding distance
distance-cons-le c [] [] h = omega arith
distance-cons-le c (b ∷ s) [] h = omega arith
distance-cons-le c s (d ∷ t) h = ground (arith, h d t)

distance-le-cons : (s : Text) (d : ℕ) (t : Text) → distance s t ≤ distance s (d ∷ t) + 1
unfolding distance
distance-le-cons [] d t = omega arith
distance-le-cons (c ∷ s) d t =
    ground (arith, distance-cons-le c s t (distance-le-cons s), distance-le-cons s d t)

distance-cons_left : (c : ℕ) (s t : Text) → distance (c ∷ s) t ≤ distance s t + 1
distance-cons_left c s t = distance-cons-le c s t (distance-le-cons s)

distance-cons_right : (d : ℕ) (s t : Text) → distance s (d ∷ t) ≤ distance s t + 1
distance-cons_right d s t =
    rw (distance_comm s (d ∷ t), distance_comm s t) (distance-cons_left d t s)

distance-cons_both : (c d : ℕ) (s t : Text) → distance (c ∷ s) (d ∷ t) ≤ distance s t + 1
unfolding distance
distance-cons_both c d s t = ground arith

distance-cons_same : (c d : ℕ) (s t : Text) → c ≡ d → distance (c ∷ s) (d ∷ t) ≡ distance s t
unfolding distance
distance-cons_same c d s t e = ground arith

-- No script is shorter.
pub distance-least : {s t : Text} {n : ℕ} → Edit s t n → distance s t ≤ n
distance-least finish = unfold distance in omega arith
distance-least (keep {s} {t} {n} {c} {d} e r) = rw (distance-cons_same c d s t e) (distance-least r)
distance-least (replace {s} {t} {n} {c} {d} r) =
    omega (arith, distance-least r, distance-cons_both c d s t)
distance-least (remove {s} {t} {n} {c} r) =
    omega (arith, distance-least r, distance-cons_left c s t)
distance-least (insert {s} {t} {n} {d} r) =
    omega (arith, distance-least r, distance-cons_right d s t)

-- The choice that the recurrence makes.
edit_cost-cases :
    (c d a b e : ℕ)
    → ((c ≡ d) × (edit_cost c d a b e ≡ e))
      ⊎ ((edit_cost c d a b e ≡ suc a)
          ⊎ ((edit_cost c d a b e ≡ suc b) ⊎ (edit_cost c d a b e ≡ suc e)))
edit_cost-cases c d a b e = ground arith

Edit-insert_all : (t : Text) → Edit [] t (length t)
Edit-insert_all [] = finish
Edit-insert_all (d ∷ t) = insert (Edit-insert_all t)

Edit-remove_all : (s : Text) → Edit s [] (length s)
Edit-remove_all [] = finish
Edit-remove_all (c ∷ s) = remove (Edit-remove_all s)

Edit-at : {s t : Text} {m n : ℕ} → n ≡ m → Edit s t m → Edit s t n
Edit-at {s} {t} e r = subst (Edit s t) (sym e) r

-- The recurrence is the length of a script.
pub distance-Edit : (s t : Text) → Edit s t (distance s t)
unfolding distance
distance-Edit [] t = Edit-insert_all t
distance-Edit (c ∷ s) [] = Edit-remove_all (c ∷ s)
distance-Edit (c ∷ s) (d ∷ t) =
    elim (edit_cost-cases c d (distance (c ∷ s) t) (distance s (d ∷ t)) (distance s t)) [
      | inl (same, e) ↦ Edit-at e (keep same (distance-Edit s t))
      | inr (inl e) ↦ Edit-at e (insert (distance-Edit (c ∷ s) t))
      | inr (inr (inl e)) ↦ Edit-at e (remove (distance-Edit s (d ∷ t)))
      | inr (inr (inr e)) ↦ Edit-at e (replace (distance-Edit s t))
    ]

-- `s` read backwards, in front of `acc`.
unfoldable pub onto : Text → Text → Text
onto acc [] = acc
onto acc (c ∷ s) = onto (c ∷ acc) s

onto-onto : (s a b : Text) → onto a (onto b s) ≡ onto (s ++ a) b
unfolding onto
onto-onto [] a b = refl
onto-onto (c ∷ s) a b = onto-onto s a (c ∷ b)

onto-nil_twice : (s : Text) → onto [] (onto [] s) ≡ s
unfolding onto
onto-nil_twice s = onto-onto s [] [] ∙ append-nil s

-- A script works on texts read backwards, behind what another script has done.
pub Edit-onto :
    {s t u v : Text} {n m : ℕ} → Edit s t n → Edit u v m → Edit (onto u s) (onto v t) (n + m)
unfolding onto
Edit-onto finish q = Edit-at (omega arith) q
Edit-onto (keep e r) q = Edit-onto r (keep e q)
Edit-onto (replace r) q = Edit-at (omega arith) (Edit-onto r (replace q))
Edit-onto (remove r) q = Edit-at (omega arith) (Edit-onto r (remove q))
Edit-onto (insert r) q = Edit-at (omega arith) (Edit-onto r (insert q))

pub Edit-unreverse : (s t : Text) {n : ℕ} → Edit (onto [] s) (onto [] t) n → Edit s t n
Edit-unreverse s t {n} r = Edit-at (omega arith) (
    subst (λ x. Edit x t (n + 0)) (onto-nil_twice s)
      (subst (λ x. Edit (onto [] (onto [] s)) x (n + 0)) (onto-nil_twice t) (Edit-onto r finish)))
