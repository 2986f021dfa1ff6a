-- ===== src/Strings/Edits.antt =====
-- `levenshteinDistance` against edit scripts. Each round of its loops fills one row of the table
-- of the distances between prefixes.
pub mod Least
use native.Mathlib.Numerals.{add-one}
use batyr.Prelude.{
  ℕ, zero, suc, ◌+◌, ◌≤◌, ◌≡◌, refl, sym, ap, ◌∙◌, ◌⊎◌, inl, inr, Bool, true, false, List, [], ◌∷◌,
  ◌++◌, length, Text, ◌==◌, ltb, if◌then◌else◌, Bool-cases, arith,
}
use batyr.Strings.{min_of, edit_row, edit_rows, count_from, last_or, levenshtein_distance}
pub use Least.{Edit, finish, keep, replace, remove, insert}
use Least.{distance, onto, distance-Edit, distance-least, Edit-onto, Edit-unreverse}

-- The row of the table for `p`, from the column after `q` on. Prefixes are read backwards.
abbrev row_of : Text → Text → Text → List ℕ
row_of p q [] = []
row_of p q (d ∷ s) = distance p (d ∷ q) ∷ row_of p (d ∷ q) s

edit_row-row_of :
    (c : ℕ) (p q s : Text)
    → edit_row c (distance (c ∷ p) q) (distance p q) (row_of p q s) s ≡ row_of (c ∷ p) q s
unfolding edit_row distance
edit_row-row_of c p q [] = refl
edit_row-row_of c p q (d ∷ s) = rw (edit_row-row_of c p (d ∷ q) s)

distance-nil : (p : Text) → distance p [] ≡ length p
unfolding distance
distance-nil [] = refl
distance-nil (c ∷ p) = refl

first_row :
    (c : ℕ) (p s : Text)
    → edit_row c (suc (length p)) (length p) (row_of p [] s) s ≡ row_of (c ∷ p) [] s
first_row c p s = rw (distance-nil p, distance-nil (c ∷ p)) at (edit_row-row_of c p [] s)

edit_rows-row_of :
    (s1 s2 p : Text) → edit_rows (length p) s1 s2 (row_of p [] s2) ≡ row_of (onto p s1) [] s2
unfolding edit_rows onto
edit_rows-row_of [] s2 p = refl
edit_rows-row_of (c ∷ s1) s2 p = rw (add-one, first_row c p s2) (edit_rows-row_of s1 s2 (c ∷ p))

count_from-row_of : (q s : Text) → count_from (length q + 1) s ≡ row_of [] q s
unfolding count_from distance
count_from-row_of q [] = refl
count_from-row_of q (d ∷ s) = rw (add-one, count_from-row_of (d ∷ q) s)

last_or-row_of :
    (k : ℕ) (p q s : Text) (d : ℕ) → last_or k (row_of p q (d ∷ s)) ≡ distance p (onto (d ∷ q) s)
unfolding onto
last_or-row_of k p q [] d = refl
last_or-row_of k p q (e ∷ s) d = last_or-row_of k p (d ∷ q) s e

distance-empty : (s : Text) → distance [] s ≡ length s
unfolding distance
distance-empty s = refl

length-onto : (b s : Text) → length (onto b s) ≡ length s + length b
unfolding onto
length-onto b [] = omega arith
length-onto b (c ∷ s) = omega (arith, length-onto (c ∷ b) s)

levenshtein_distance-distance :
    (s1 s2 : Text) → levenshtein_distance s1 s2 ≡ distance (onto [] s1) (onto [] s2)
unfolding levenshtein_distance onto
levenshtein_distance-distance [] s2 =
    sym (distance-empty (onto [] s2) ∙ length-onto [] s2 ∙ omega arith)
levenshtein_distance-distance (c ∷ s1) [] =
    sym (distance-nil (onto (c ∷ []) s1) ∙ length-onto (c ∷ []) s1 ∙ omega arith)
levenshtein_distance-distance (c ∷ s1) (d ∷ s2) =
    ap (λ row. last_or 0 (edit_rows 0 (c ∷ s1) (d ∷ s2) row)) (count_from-row_of [] (d ∷ s2))
    ∙ ap (last_or 0) (edit_rows-row_of (c ∷ s1) (d ∷ s2) [])
    ∙ last_or-row_of 0 (onto [] (c ∷ s1)) [] s2 d

-- Some script of single-byte replacements, removals and insertions that turns the first text into
-- the second has the length that the function returns, and no script is shorter.
pub levenshtein_distance-least :
    (s1 s2 : Text) {n : ℕ}
    → Edit s1 s2 n
    → Edit s1 s2 (levenshtein_distance s1 s2) × (levenshtein_distance s1 s2 ≤ n)
levenshtein_distance-least s1 s2 r =
    let e = levenshtein_distance-distance s1 s2 in
    (
      rw e (Edit-unreverse s1 s2 (distance-Edit (onto [] s1) (onto [] s2))),
      omega (arith, e, distance-least (Edit-onto r finish)),
    )
