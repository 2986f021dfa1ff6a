-- ===== src/Strings/Split.antt =====
-- `split` and `join` undo each other.
use mathlib.Core.List.{append-nil, append_assoc}
use batyr.Prelude.{
  ℕ, inl, inr, ◌≡◌, refl, sym, ap, ◌∙◌, false, List, [], ◌∷◌, ◌++◌, All, Text, ◌==◌, Bool-cases,
  ==_iff,
}
use batyr.Strings.{split_loop, split, join}

-- `join` of pieces of which the last goes on.
join-snoc :
    (es : List Text) (e : Text) (sep rest : Text)
    → join (es ++ e ∷ []) sep ++ rest ≡ join (es ++ (e ++ rest) ∷ []) sep
unfolding join
join-snoc [] e sep rest = refl
join-snoc (x ∷ []) e sep rest = simp append_assoc
join-snoc (x ∷ y ∷ es) e sep rest = simp (append_assoc, join-snoc (y ∷ es) e sep rest)

join-new :
    (es : List Text) (e : Text) (sep rest : Text)
    → join (es ++ e ∷ rest ∷ []) sep ≡ join (es ++ (e ++ (sep ++ rest)) ∷ []) sep
unfolding join
join-new [] e sep rest = refl
join-new (x ∷ []) e sep rest = refl
join-new (x ∷ y ∷ es) e sep rest = simp (join-new (y ∷ es) e sep rest)

join-split_loop :
    (s piece : Text) (es : List Text) (c : ℕ)
    → join (split_loop c piece es s) (c ∷ []) ≡ join (es ++ (piece ++ s) ∷ []) (c ∷ [])
unfolding split_loop
join-split_loop [] piece es c = rw append-nil
join-split_loop (d ∷ s) piece es c = elim (Bool-cases (d == c)) [
  | inl at ↦
      rw (at, join-split_loop s [] (es ++ piece ∷ []) c, append_assoc, join-new es piece (c ∷ []) s)
        (rw ((==_iff d c).0 at))
  | inr inside ↦ rw (inside, join-split_loop s (piece ++ d ∷ []) es c, append_assoc)
]

-- Joining with the separator what was split at it gives the text back.
pub join-split : (s : Text) (c : ℕ) → join (split s c) (c ∷ []) ≡ s
unfolding split join
join-split s c = join-split_loop s [] [] c

-- The byte does not stand in the text.
abbrev pub Lacks : ℕ → Text → Type 0
Lacks c = All (λ d. (d == c) ≡ false)

split_loop-Lacks :
    (p piece : Text) (es : List Text) (c : ℕ) (rest : Text)
    → Lacks c p
    → split_loop c piece es (p ++ rest) ≡ split_loop c (piece ++ p) es rest
unfolding split_loop
split_loop-Lacks [] piece es c rest l = rw append-nil
split_loop-Lacks (d ∷ p) piece es c rest l =
    rw (l.0, split_loop-Lacks p (piece ++ d ∷ []) es c rest l.1, append_assoc)

split_loop-join :
    (x : Text) (xs es : List Text) (c : ℕ)
    → Lacks c x
    → All (Lacks c) xs
    → split_loop c [] es (join (x ∷ xs) (c ∷ [])) ≡ es ++ x ∷ xs
unfolding split_loop join
split_loop-join x [] es c l ls =
    ap (split_loop c [] es) (sym (append-nil x)) ∙ split_loop-Lacks x [] es c [] l
split_loop-join x (y ∷ ys) es c l ls =
    split_loop-Lacks x [] es c (c ∷ join (y ∷ ys) (c ∷ [])) l
    ∙ rw ((==_iff c c).1 refl) (split_loop-join y ys (es ++ x ∷ []) c ls.0 ls.1)
    ∙ append_assoc es (x ∷ []) (y ∷ ys)

-- Splitting what was joined gives the elements back, if there is at least one and none of them
-- holds the separator.
pub split-join :
    (x : Text) (xs : List Text) (c : ℕ)
    → Lacks c x
    → All (Lacks c) xs
    → split (join (x ∷ xs) (c ∷ [])) c ≡ x ∷ xs
unfolding split
split-join x xs c l ls = split_loop-join x xs [] c l ls
