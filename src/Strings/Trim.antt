-- ===== src/Strings/Trim.antt =====
-- What `trim` cuts off, and what it leaves when there is nothing else.
pub mod Padded
use mathlib.Core.List.{append_assoc}
use batyr.Prelude.{
  ℕ, suc, ◌+◌, ◌-◌, ◌%◌, ◌<◌, ◌≡◌, refl, ap, ◌∙◌, ◌⊎◌, inl, inr, true, false, [], ◌∷◌, ◌++◌, none,
  some, length, take, All, length-append, drop-length-append, Text, has_char, Bool-cases, arith,
}
use batyr.Strings.{size_mod, find_first_not_of, find_last_not_of, trim}

-- All bytes of the text are among the characters.
abbrev pub OnlyOf : Text → Text → Type 0
OnlyOf characters = All (λ c. has_char characters c ≡ true)

-- `s` splits at its first byte that is not among the characters.
pub record SplitsFirst (characters s : Text) : Type 0 where
  pub before : Text
  pub byte : ℕ
  pub after : Text
  pub splits : s ≡ before ++ byte ∷ after
  pub only : OnlyOf characters before
  pub kept : has_char characters byte ≡ false
  pub found : find_first_not_of s characters ≡ some (length before)

find_first_cases :
    (s characters : Text)
    → (OnlyOf characters s × (find_first_not_of s characters ≡ none)) ⊎ SplitsFirst characters s
unfolding find_first_not_of
find_first_cases [] characters = inl (tt, refl)
find_first_cases (c ∷ cs) characters = elim (Bool-cases (has_char characters c)) [
  | inr k ↦ inr (record {
    before = [];
    byte = c;
    after = cs;
    splits = refl;
    only = tt;
    kept = k;
    found = rw k;
  })
  | inl k ↦ elim (find_first_cases cs characters) [
    | inl (o, e) ↦ inl ((k, o), rw (k, e))
    | inr f ↦ inr (record {
      before = c ∷ f.before;
      byte = f.byte;
      after = f.after;
      splits = ap (◌∷◌ c) f.splits;
      only = (k, f.only);
      kept = f.kept;
      found = rw (k, f.found);
    })
  ]
]

-- `s` splits at its last byte that is not among the characters.
record SplitsLast (characters s : Text) : Type 0 where
  front : Text
  byte : ℕ
  behind : Text
  splits : s ≡ front ++ byte ∷ behind
  only : OnlyOf characters behind
  kept : has_char characters byte ≡ false
  found : find_last_not_of s characters ≡ some (length front)

find_last_cases :
    (s characters : Text)
    → (OnlyOf characters s × (find_last_not_of s characters ≡ none)) ⊎ SplitsLast characters s
unfolding find_last_not_of
find_last_cases [] characters = inl (tt, refl)
find_last_cases (c ∷ cs) characters = elim (find_last_cases cs characters) [
  | inr l ↦ inr (record {
    front = c ∷ l.front;
    byte = l.byte;
    behind = l.behind;
    splits = ap (◌∷◌ c) l.splits;
    only = l.only;
    kept = l.kept;
    found = rw l.found;
  })
  | inl (o, e) ↦ elim (Bool-cases (has_char characters c)) [
    | inl k ↦ inl ((k, o), rw (e, k))
    | inr k ↦ inr (record {
      front = [];
      byte = c;
      behind = cs;
      splits = refl;
      only = o;
      kept = k;
      found = rw (e, k);
    })
  ]
]

find_last-append :
    (xs ys characters : Text) (i : ℕ)
    → find_last_not_of ys characters ≡ some i
    → find_last_not_of (xs ++ ys) characters ≡ some (length xs + i)
unfolding find_last_not_of
find_last-append [] ys characters i e = ground (arith, e)
find_last-append (x ∷ xs) ys characters i e =
    rw (find_last-append xs ys characters i e) (ap some (omega arith))

-- `r` is `s` without the characters at both ends: it begins and ends with a byte that stays.
pub record TrimsTo (characters s r : Text) : Type 0 where
  pub before : Text
  pub behind : Text
  pub splits : s ≡ before ++ (r ++ behind)
  pub only_before : OnlyOf characters before
  pub only_behind : OnlyOf characters behind
  pub head : ℕ
  pub rest : Text
  pub begins : r ≡ head ∷ rest
  pub head_kept : has_char characters head ≡ false
  pub front : Text
  pub last : ℕ
  pub ends : r ≡ front ++ last ∷ []
  pub last_kept : has_char characters last ≡ false

head-front :
    (front : Text) (c : ℕ) (behind : Text) {b : ℕ} {rest : Text}
    → b ∷ rest ≡ front ++ c ∷ behind
    → (r : Text) × (front ++ c ∷ [] ≡ b ∷ r)
head-front [] c behind e = ([], ground arith)
head-front (x ∷ xs) c behind e = (xs ++ c ∷ [], ground arith)

take-front :
    (front : Text) (c : ℕ) (behind : Text)
    → take (suc (length front)) (front ++ c ∷ behind) ≡ front ++ c ∷ []
take-front [] c behind = refl
take-front (x ∷ xs) c behind = ap (◌∷◌ x) (take-front xs c behind)

-- The two positions that `trim` computes select what stands between them.
trim_between :
    (s characters before front behind : Text) (c : ℕ)
    → length s < size_mod
    → s ≡ before ++ (front ++ c ∷ behind)
    → find_first_not_of s characters ≡ some (length before)
    → find_last_not_of s characters ≡ some (length before + length front)
    → trim s characters ≡ front ++ c ∷ []
unfolding trim
trim_between s characters before front behind c short e first last =
    let count : (length before + length front + size_mod - length before + 1) % size_mod
        ≡ suc (length front) =
      omega (
        arith,
        ap length e,
        length-append before (front ++ c ∷ behind),
        length-append front (c ∷ behind),
      ) in
    rw (first, last, count, e, drop-length-append before (front ++ c ∷ behind))
      (take-front front c behind)

TrimsTo-trim :
    (s characters : Text)
    → length s < size_mod
    → SplitsFirst characters s
    → TrimsTo characters s (trim s characters)
TrimsTo-trim s characters short f = elim (find_last_cases (f.byte ∷ f.after) characters) [
  | inl (only, _) ↦ cc (only.0, f.kept)
  | inr l ↦
      let last = find_last-append f.before (f.byte ∷ f.after) characters _ l.found in
      let e : s ≡ f.before ++ (l.front ++ l.byte ∷ l.behind) =
        f.splits ∙ ap (◌++◌ f.before) l.splits in
      let (rest, begins) = head-front l.front l.byte l.behind l.splits in
      let t : trim s characters ≡ l.front ++ l.byte ∷ [] =
        trim_between s characters f.before l.front l.behind l.byte short e f.found
          (rw f.splits last) in
      record {
        before = f.before;
        behind = l.behind;
        splits = rw (t, append_assoc) e;
        only_before = f.only;
        only_behind = l.only;
        head = f.byte;
        rest = rest;
        begins = t ∙ begins;
        head_kept = f.kept;
        front = l.front;
        last = l.byte;
        ends = t;
        last_kept = l.kept;
      }
]

OnlyOf-find_last :
    (s characters : Text) → OnlyOf characters s → find_last_not_of s characters ≡ none
unfolding find_last_not_of
OnlyOf-find_last [] characters o = refl
OnlyOf-find_last (c ∷ cs) characters o = rw (OnlyOf-find_last cs characters o.1, o.0)

take-length : (s : Text) → take (length s) s ≡ s
take-length [] = refl
take-length (c ∷ cs) = ap (◌∷◌ c) (take-length cs)

trim_only :
    (s characters : Text)
    → length s < size_mod
    → find_first_not_of s characters ≡ none
    → find_last_not_of s characters ≡ none
    → trim s characters ≡ s
unfolding trim
trim_only s characters short first last =
    let count : ((length s + size_mod - 1) % size_mod + size_mod - 0 + 1) % size_mod ≡ length s =
      omega arith in
    rw (first, last, count) (take-length s)

-- A text with a byte that is not among the characters loses exactly the characters at its two
-- ends. A text that consists of the characters alone (also the empty one) comes back unchanged.
pub trim_cases :
    (s characters : Text)
    → length s < size_mod
    → (OnlyOf characters s × (trim s characters ≡ s)) ⊎ TrimsTo characters s (trim s characters)
trim_cases s characters short = elim (find_first_cases s characters) [
  | inr f ↦ inr (TrimsTo-trim s characters short f)
  | inl (only, none_first) ↦
      inl (only, trim_only s characters short none_first (OnlyOf-find_last s characters only))
]
