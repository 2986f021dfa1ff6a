-- ===== src/Strings.antt =====
-- common/stringutils.cpp: trim, join, split, tolower, levenshteinDistance and replaceAll. Positions
-- are `size_t`: their arithmetic wraps at 2 ^ 64, and `none` stands for `std::string::npos`.
pub mod Trim
pub mod Split
pub mod Replace
pub mod Edits
use batyr.Prelude.{
  ℕ, zero, suc, ◌+◌, ◌-◌, ◌%◌, ◌^◌, Bool, true, false, not, ◌&&◌, ◌||◌, List, [], ◌∷◌, ◌++◌, map,
  Option, none, some, length, take, drop, Text, has_char, ◌==◌, ltb, leb, if◌then◌else◌,
}

abbrev pub size_mod : ℕ
size_mod = 2 ^ 64

abbrev pub shift_pos : Option ℕ → Option ℕ
shift_pos none = none
shift_pos (some i) = some (suc i)

-- `s.find_first_not_of(characters)`.
unfoldable pub find_first_not_of : Text → Text → Option ℕ
find_first_not_of [] characters = none
find_first_not_of (c ∷ cs) characters =
    if has_char characters c then shift_pos (find_first_not_of cs characters) else some 0

-- `s.find_last_not_of(characters)`.
unfoldable pub find_last_not_of : Text → Text → Option ℕ
find_last_not_of [] characters = none
find_last_not_of (c ∷ cs) characters = elim (find_last_not_of cs characters) [
  | some i ↦ some (suc i)
  | none ↦ if has_char characters c then none else some 0
]

-- `s.substr(pos, n)` for a position within the string.
abbrev pub substr : Text → ℕ → ℕ → Text
substr s pos n = take n (drop pos s)

abbrev or_else : Option ℕ → ℕ → ℕ
or_else none d = d
or_else (some i) d = i

unfoldable pub trim : Text → Text → Text
trim s characters =
    let sec_start = or_else (find_first_not_of s characters) 0 in
    let sec_end = or_else (find_last_not_of s characters) ((length s + size_mod - 1) % size_mod) in
    substr s sec_start ((sec_end + size_mod - sec_start + 1) % size_mod)

-- The default argument of `trim`.
abbrev pub blanks : Text
blanks = b' ' ∷ b'\t' ∷ b'\r' ∷ b'\n' ∷ []

unfoldable pub join : List Text → Text → Text
join [] separator = []
join (e ∷ []) separator = e
join (e ∷ f ∷ es) separator = e ++ (separator ++ join (f ∷ es) separator)

-- The loop of `split`: the piece from `beg` to `cur`, the elements so far and what is left.
split_loop : ℕ → Text → List Text → Text → List Text
split_loop seperator piece elements [] = elements ++ piece ∷ []
split_loop seperator piece elements (c ∷ cs) =
    let at_seperator = split_loop seperator [] (elements ++ piece ∷ []) cs in
    let inside = split_loop seperator (piece ++ c ∷ []) elements cs in
    if c == seperator then at_seperator else inside

unfoldable pub split : Text → ℕ → List Text
unfolding split_loop
split joined seperator = split_loop seperator [] [] joined

-- `::tolower` in the C locale.
unfoldable pub lower : ℕ → ℕ
lower c = if leb b'A' c && leb c b'Z' then c + 32 else c

unfoldable pub tolower : Text → Text
unfolding lower
tolower s = map lower s

abbrev pub min_of : ℕ → ℕ → ℕ
min_of a b = if ltb a b then a else b

-- What the inner loop writes to `costs[j + 1]`.
abbrev pub edit_cost : ℕ → ℕ → ℕ → ℕ → ℕ → ℕ
edit_cost c d left upper corner = if c == d then corner else min_of left (min_of upper corner) + 1

-- The inner loop of `levenshteinDistance` for the byte `c` of `s1`: `left` is `costs[j]`, already
-- written in this round, and `row` holds `costs[j + 1]` and what follows it.
edit_row : ℕ → ℕ → ℕ → List ℕ → Text → List ℕ
edit_row c left corner [] s2 = []
edit_row c left corner (upper ∷ row) [] = upper ∷ row
edit_row c left corner (upper ∷ row) (d ∷ s2) =
    let cost = edit_cost c d left upper corner in cost ∷ edit_row c cost upper row s2

-- The outer loop, from the byte at `i` on: `row` is `costs[1..n]`; `costs[0]` is set to `i + 1`
-- when a round begins.
edit_rows : ℕ → Text → Text → List ℕ → List ℕ
edit_rows i [] s2 row = row
edit_rows i (c ∷ s1) s2 row = edit_rows (i + 1) s1 s2 (edit_row c (i + 1) i row s2)

-- `k`, `k + 1`, … for each byte: the initial costs.
count_from : ℕ → Text → List ℕ
count_from k [] = []
count_from k (c ∷ cs) = k ∷ count_from (k + 1) cs

abbrev last_or : ℕ → List ℕ → ℕ
last_or d [] = d
last_or d (x ∷ xs) = last_or x xs

unfoldable pub levenshtein_distance : Text → Text → ℕ
unfolding edit_row edit_rows count_from
levenshtein_distance [] s2 = length s2
levenshtein_distance (c ∷ s1) [] = length (c ∷ s1)
levenshtein_distance (c ∷ s1) (d ∷ s2) =
    last_or 0 (edit_rows 0 (c ∷ s1) (d ∷ s2) (count_from 1 (d ∷ s2)))

unfoldable pub starts_with : Text → Text → Bool
starts_with s [] = true
starts_with [] (p ∷ ps) = false
starts_with (c ∷ cs) (p ∷ ps) = c == p && starts_with cs ps

-- `subject.find(from)`, for a `from` that is not empty.
unfoldable pub find : Text → Text → Option ℕ
unfolding starts_with
find [] from = none
find (c ∷ cs) from = if starts_with (c ∷ cs) from then some 0 else shift_pos (find cs from)

-- The loop of `replaceAll`: `done` is the subject up to `start_pos`, `rest` what follows it.
-- `none` means that the fuel ran out.
replace_loop : ℕ → Text → Text → Text → Text → Option Text
replace_loop zero done rest from to = none
replace_loop (suc fuel) done rest from to = elim (find rest from) [
  | none ↦ some (done ++ rest)
  | some i ↦
      replace_loop fuel (done ++ (take i rest ++ to)) (drop (length from) (drop i rest)) from to
]

unfoldable pub replace_all : Text → Text → Text → Option Text
unfolding replace_loop
replace_all subject [] to = some subject
replace_all subject (f ∷ from) to = replace_loop (suc (length subject)) [] subject (f ∷ from) to
