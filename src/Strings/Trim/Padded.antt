-- ===== src/Strings/Trim/Padded.antt =====
-- `trim` takes away what a text was padded with.
use mathlib.Core.List.{append_assoc}
use batyr.Prelude.{
  ℕ, ◌+◌, ◌<◌, ◌≡◌, refl, sym, ap, ◌∙◌, false, [], ◌∷◌, ◌++◌, some, length, Text, has_char,
  length-append, arith,
}
use batyr.Strings.{size_mod, find_first_not_of, find_last_not_of, trim}
use batyr.Strings.Trim.{OnlyOf, find_last-append, trim_between, OnlyOf-find_last}

-- A text that begins and ends with a byte that is not among the characters.
pub record IsClean (characters r : Text) : Type 0 where
  pub head : ℕ
  pub rest : Text
  pub begins : r ≡ head ∷ rest
  pub head_kept : has_char characters head ≡ false
  pub front : Text
  pub last : ℕ
  pub ends : r ≡ front ++ last ∷ []
  pub last_kept : has_char characters last ≡ false

find_first_padded :
    (characters before : Text) (c : ℕ) (after : Text)
    → OnlyOf characters before
    → has_char characters c ≡ false
    → find_first_not_of (before ++ c ∷ after) characters ≡ some (length before)
unfolding find_first_not_of
find_first_padded characters [] c after o kept = rw kept refl
find_first_padded characters (b ∷ before) c after o kept =
    rw (o.0, find_first_padded characters before c after o.1 kept) refl

find_last_here :
    (characters : Text) (c : ℕ) (behind : Text)
    → OnlyOf characters behind
    → has_char characters c ≡ false
    → find_last_not_of (c ∷ behind) characters ≡ some 0
unfolding find_last_not_of
find_last_here characters c behind o kept = rw (OnlyOf-find_last behind characters o, kept) refl

pub trim_padded :
    (characters before r behind : Text)
    → length (before ++ (r ++ behind)) < size_mod
    → OnlyOf characters before
    → OnlyOf characters behind
    → IsClean characters r
    → trim (before ++ (r ++ behind)) characters ≡ r
trim_padded characters before r behind short ob oh clean =
    let s = before ++ (r ++ behind) in
    let by_head : s ≡ before ++ clean.head ∷ (clean.rest ++ behind) =
      ap (λ t. before ++ (t ++ behind)) clean.begins in
    let by_last : s ≡ before ++ (clean.front ++ clean.last ∷ behind) =
      ap (λ t. before ++ (t ++ behind)) clean.ends ∙ simp append_assoc refl in
    let first : find_first_not_of s characters ≡ some (length before) =
      rw by_head (
        find_first_padded characters before clean.head (clean.rest ++ behind) ob clean.head_kept) in
    let last : find_last_not_of s characters ≡ some (length before + length clean.front) =
      ap (λ t. find_last_not_of t characters)
        (by_last ∙ sym (append_assoc before clean.front (clean.last ∷ behind)))
      ∙ find_last-append (before ++ clean.front) (clean.last ∷ behind) characters 0
          (find_last_here characters clean.last behind oh clean.last_kept)
      ∙ ap some (omega (arith, length-append before clean.front)) in
    trim_between s characters before clean.front behind clean.last short by_last first last
    ∙ sym clean.ends
