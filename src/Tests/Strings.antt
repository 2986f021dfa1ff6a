-- ===== src/Tests/Strings.antt =====
-- Tests for common/stringutils.cpp.
use batyr.Prelude.{◌≡◌, refl, [], ◌∷◌, ◌≤◌, ◌⊎◌, some, codes, has_char, arith}
use batyr.Strings.{
  trim, blanks, find_first_not_of, find_last_not_of, join, split, tolower, levenshtein_distance,
  replace_all, find,
}
use batyr.Strings.Trim.{OnlyOf, TrimsTo, trim_cases}
use batyr.Strings.Split.{join-split, split-join}
use batyr.Strings.Replace.{substitute, replace_all-substitute}
use batyr.Strings.Edits.{levenshtein_distance-least}
use batyr.Strings.Edits.Least.{Edit, keep, replace, finish}

trim_both : trim (codes "  a b\t") blanks ≡ codes "a b"
unfolding trim find_first_not_of find_last_not_of has_char
trim_both = refl

trim_empty : trim [] blanks ≡ []
unfolding trim find_first_not_of find_last_not_of
trim_empty = refl

-- Only blanks: the text comes back as it was.
trim_blank : trim (codes "  ") blanks ≡ codes "  "
unfolding trim find_first_not_of find_last_not_of has_char
trim_blank = refl

split_fields : split (codes "a,,b") b',' ≡ codes "a" ∷ [] ∷ codes "b" ∷ []
unfolding split
split_fields = refl

kitten : levenshtein_distance (codes "kitten") (codes "sitting") ≡ 3
unfolding levenshtein_distance
kitten = refl

replace_quotes :
    replace_all (codes "a\"b\"") (codes "\"") (codes "\\\"") ≡ some (codes "a\\\"b\\\"")
unfolding replace_all find
replace_quotes = refl

tolower_mixed : tolower (codes "Ab-Z") ≡ codes "ab-z"
unfolding tolower
tolower_mixed = refl

trim_cases_example :
    (OnlyOf blanks (codes " a ") × (trim (codes " a ") blanks ≡ codes " a "))
    ⊎ TrimsTo blanks (codes " a ") (trim (codes " a ") blanks)
trim_cases_example = trim_cases (codes " a ") blanks (omega arith)

join-split_example : join (split (codes "a,,b") b',') (b',' ∷ []) ≡ codes "a,,b"
join-split_example = join-split (codes "a,,b") b','

split-join_example :
    split (join (codes "a" ∷ [] ∷ codes "b" ∷ []) (b',' ∷ [])) b','
    ≡ codes "a" ∷ [] ∷ codes "b" ∷ []
split-join_example =
    split-join (codes "a") ([] ∷ codes "b" ∷ []) b',' (refl, tt) (tt, ((refl, tt), tt))

replace_all-substitute_example :
    replace_all (codes "a\"b\"") (b'"' ∷ []) (codes "\\\"")
    ≡ some (substitute b'"' (codes "\\\"") (codes "a\"b\""))
replace_all-substitute_example = replace_all-substitute (codes "a\"b\"") b'"' (codes "\\\"")

levenshtein_distance-least_example :
    Edit (codes "ab") (codes "ac") (levenshtein_distance (codes "ab") (codes "ac"))
    × (levenshtein_distance (codes "ab") (codes "ac") ≤ 1)
levenshtein_distance-least_example =
    levenshtein_distance-least (codes "ab") (codes "ac") (keep refl (replace finish))
