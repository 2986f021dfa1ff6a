-- ===== src/Strings/Replace.antt =====
-- `replaceAll` with a single byte to replace, as its callers use it.
use mathlib.Core.List.{append_assoc}
use batyr.Prelude.{
  ℕ, zero, suc, ◌<◌, ◌≡◌, refl, sym, ap, ◌∙◌, ◌⊎◌, inl, inr, [], ◌∷◌, ◌++◌, none, some, length,
  length-append, take-length-append, drop-length-append, Text, ◌==◌, if◌then◌else◌, Bool-cases,
  ==_iff, arith,
}
use batyr.Strings.{find, replace_loop, replace_all}
use batyr.Strings.Split.{Lacks}

-- The text with every `c` replaced by `to`, byte by byte.
unfoldable pub substitute : ℕ → Text → Text → Text
substitute c to [] = []
substitute c to (d ∷ s) = if d == c then to ++ substitute c to s else d ∷ substitute c to s

-- `find` of one byte: not there, or behind a part without it.
find_cases :
    (s : Text) (c : ℕ)
    → (Lacks c s × (find s (c ∷ []) ≡ none))
      ⊎ ((before : Text) × (after : Text) × (s ≡ before ++ c ∷ after)
          × Lacks c before
          × (find s (c ∷ []) ≡ some (length before)))
unfolding find
find_cases [] c = inl (tt, refl)
find_cases (d ∷ s) c = elim (Bool-cases (d == c)) [
  | inl at ↦ inr ([], s, ap (λ x. x ∷ s) ((==_iff d c).0 at), tt, rw at)
  | inr other ↦ elim (find_cases s c) [
    | inl (l, e) ↦ inl ((other, l), rw (other, e))
    | inr (before, after, splits, l, e) ↦
        inr (d ∷ before, after, ap (◌∷◌ d) splits, (other, l), rw (other, e))
  ]
]

substitute-Lacks :
    (s rest : Text) (c : ℕ) (to : Text)
    → Lacks c s
    → substitute c to (s ++ rest) ≡ s ++ substitute c to rest
unfolding substitute
substitute-Lacks [] rest c to l = refl
substitute-Lacks (d ∷ s) rest c to l = rw (l.0, substitute-Lacks s rest c to l.1)

substitute_untouched : (s : Text) (c : ℕ) (to : Text) → Lacks c s → substitute c to s ≡ s
unfolding substitute
substitute_untouched [] c to l = refl
substitute_untouched (d ∷ s) c to l = rw (l.0, substitute_untouched s c to l.1)

substitute_split :
    (before after : Text) (c : ℕ) (to : Text)
    → Lacks c before
    → substitute c to (before ++ c ∷ after) ≡ before ++ (to ++ substitute c to after)
unfolding substitute
substitute_split before after c to l =
    substitute-Lacks before (c ∷ after) c to l ∙ rw ((==_iff c c).1 refl)

replace_loop-substitute :
    (fuel : ℕ) (done rest : Text) (c : ℕ) (to : Text)
    → length rest < fuel
    → replace_loop fuel done rest (c ∷ []) to ≡ some (done ++ substitute c to rest)
unfolding replace_loop
replace_loop-substitute zero done rest c to h = elim h [ ]
replace_loop-substitute (suc fuel) done rest c to h = elim (find_cases rest c) [
  | inl (l, e) ↦
      rw (e, replace_loop) (ap (λ x. some (done ++ x)) (sym (substitute_untouched rest c to l)))
  | inr (before, after, splits, l, e) ↦
      let shorter : length after < fuel =
        omega (arith, ap length splits, length-append before (c ∷ after)) in
      rw (e, replace_loop)
        (rw (splits, take-length-append before (c ∷ after), drop-length-append before (c ∷ after))
          (replace_loop-substitute fuel (done ++ (before ++ to)) after c to shorter
            ∙ rw (substitute_split before after c to l, append_assoc, append_assoc)))
]

-- With a single byte to replace, `replaceAll` ends and replaces each of its occurrences, also
-- where the replacement holds that byte itself.
pub replace_all-substitute :
    (s : Text) (c : ℕ) (to : Text) → replace_all s (c ∷ []) to ≡ some (substitute c to s)
unfolding replace_all
replace_all-substitute s c to = replace_loop-substitute (suc (length s)) [] s c to (omega arith)
