-- ===== src/Http/Routes.antt =====
-- Which requests reach the handler of a job.
use mathlib.Core.List.{append_assoc}
use batyr.Prelude.{
  ℕ, suc, ◌+◌, ◌-◌, ◌≡◌, refl, ap, ◌∙◌, inl, inr, true, false, List, [], ◌∷◌, ◌++◌, Option, none,
  some, Text, codes, text_eq, has_char, All, All-append, drop, length, is_empty, length-append,
  take-length-append, drop-length-append, ltb, ◌==◌, ==_iff, Bool-cases, arith,
}
use batyr.Strings.{find_first_not_of, shift_pos}
use batyr.Http.{
  index_of, or_length, between, normalize_uri, get_job, routed, out_of_range, hex_digits, job_path,
  find_resource, route_job, route_other, route, create_request_handler,
}

-- A text whose characters are all among the given ones.
abbrev pub IsOf : Text → Text → Type 0
IsOf characters s = All (λ c. has_char characters c ≡ true) s

-- The parameters of a request, if there are any.
pub data IsQuery : Text → Type 0 where
  no_query : IsQuery []
  query : (s : Text) → IsQuery (b'?' ∷ s)

-- A text without a question mark.
abbrev pub NoQuery : Text → Type 0
NoQuery s = All (λ c. (c == b'?') ≡ false) s

not_among :
    (set : Text) (c d : ℕ) → has_char set d ≡ true → has_char set c ≡ false → (d == c) ≡ false
not_among set c d h k = elim (Bool-cases (d == c)) [
  | inl e ↦ cc (h, k, ap (has_char set) ((==_iff d c).0 e))
  | inr e ↦ e
]

IsOf-NoQuery : (set s : Text) → has_char set b'?' ≡ false → IsOf set s → NoQuery s
IsOf-NoQuery set [] k h = tt
IsOf-NoQuery set (c ∷ s) k h = (not_among set b'?' c h.0 k, IsOf-NoQuery set s k h.1)

find_first_not_of-none : (set s : Text) → IsOf set s → find_first_not_of s set ≡ none
unfolding find_first_not_of
find_first_not_of-none set [] h = refl
find_first_not_of-none set (c ∷ s) h = rw (h.0, find_first_not_of-none set s h.1) refl

find_first_not_of-append :
    (set s : Text) (c : ℕ) (r : Text)
    → IsOf set s
    → has_char set c ≡ false
    → find_first_not_of (s ++ c ∷ r) set ≡ some (length s)
unfolding find_first_not_of
find_first_not_of-append set [] c r h k = rw k refl
find_first_not_of-append set (d ∷ s) c r h k =
    rw (h.0, find_first_not_of-append set s c r h.1 k) refl

or_length-shift :
    (c : ℕ) (s : Text) (o : Option ℕ) → or_length (c ∷ s) (shift_pos o) ≡ suc (or_length s o)
or_length-shift c s none = refl
or_length-shift c s (some i) = refl

-- The parameters begin behind a text without a question mark.
query_start :
    (s : Text) {q : Text}
    → NoQuery s
    → IsQuery q
    → or_length (s ++ q) (index_of b'?' (s ++ q)) ≡ length s
unfolding index_of
query_start [] h no_query = refl
query_start [] h (query s) = refl
query_start (c ∷ s) {q} h k =
    rw h.0 (or_length-shift c (s ++ q) (index_of b'?' (s ++ q)) ∙ ap suc (query_start s h.1 k))

between-append : (p s q : Text) → between (p ++ (s ++ q)) (length p) (length p + length s) ≡ s
between-append p s q =
    let d : ltb (length p + length s) (length p) ≡ false = ground arith in
    let n : length p + length s - length p ≡ length s = omega arith in
    rw (d, n, drop-length-append p (s ++ q), take-length-append s q) refl

-- An URI is the separators in front, an endpoint and the parameters: `normalize_uri` gives the
-- endpoint, if that begins with no separator and holds no question mark.
pub normalize_uri-endpoint :
    (p : Text) (c : ℕ) (r : Text) {q : Text}
    → IsOf (codes "./") p
    → has_char (codes "./") c ≡ false
    → NoQuery (c ∷ r)
    → IsQuery q
    → normalize_uri (p ++ ((c ∷ r) ++ q)) ≡ c ∷ r
unfolding normalize_uri has_char
normalize_uri-endpoint p c r {q} hp hc hr hq =
    let e : is_empty (p ++ ((c ∷ r) ++ q)) ≡ false = nonempty p in
    let starts = find_first_not_of-append (codes "./") p c (r ++ q) hp hc in
    let none_before =
      All-append (λ d. (d == b'?') ≡ false) p (c ∷ r) (IsOf-NoQuery (codes "./") p refl hp) hr in
    let ends = rw (append_assoc p (c ∷ r) q) at (query_start (p ++ c ∷ r) none_before hq) in
    rw (e, starts, ends, length-append p (c ∷ r)) (between-append p (c ∷ r) q)
  where
    nonempty : (p : Text) → is_empty (p ++ ((c ∷ r) ++ q)) ≡ false
    nonempty [] = refl
    nonempty (d ∷ p) = refl

-- The normal form of a request for a path of the jobs.
job_endpoint :
    (p rest : Text) {q : Text}
    → IsOf (codes "./") p
    → NoQuery rest
    → IsQuery q
    → normalize_uri (p ++ ((job_path ++ rest) ++ q)) ≡ job_path ++ rest
unfolding has_char
job_endpoint p rest hp hr hq =
    normalize_uri-endpoint p b'a' (drop 1 job_path ++ rest) hp refl
      (All-append (λ c. (c == b'?') ≡ false) job_path rest
        (refl, (refl, (refl, (refl, (refl, (refl, (refl, (refl, (refl, (refl, (refl, tt)))))))))))
        hr)
      hq

suc_not_zero : (n : ℕ) → (suc n == 0) ≡ false
suc_not_zero n = ground arith

route-job :
    (resources : List Text) (rest : Text)
    → route resources (job_path ++ rest)
      ≡ route_job
          (find_resource (job_path ++ rest) resources)
          rest
          (find_first_not_of rest hex_digits)
unfolding route route_other find_first_not_of text_eq batyr.Strings.starts_with
route-job resources rest = refl

-- A request for "api/v1/job/", an id of one or more hexadecimal digits and ".json", with any
-- separators in front and any parameters behind, goes to the handler of the job with that id.
pub create_request_handler-job :
    (resources : List Text) (p : Text) (c : ℕ) (id : Text) {q : Text}
    → IsOf (codes "./") p
    → IsOf hex_digits (c ∷ id)
    → IsQuery q
    → create_request_handler resources (p ++ ((job_path ++ ((c ∷ id) ++ codes ".json")) ++ q))
      ≡ routed (get_job (c ∷ id))
unfolding create_request_handler route_job has_char text_eq
create_request_handler-job resources p c id hp hid hq =
    let plain =
      All-append (λ d. (d == b'?') ≡ false) (c ∷ id) (codes ".json")
        (IsOf-NoQuery hex_digits (c ∷ id) refl hid) (refl, (refl, (refl, (refl, (refl, tt))))) in
    let found = find_first_not_of-append hex_digits (c ∷ id) b'.' (codes "json") hid refl in
    rw
      (
        job_endpoint p ((c ∷ id) ++ codes ".json") hp plain hq,
        route-job resources ((c ∷ id) ++ codes ".json"),
        found,
        drop-length-append (c ∷ id) (codes ".json"),
        take-length-append (c ∷ id) (codes ".json"),
        suc_not_zero (length id),
      )
      refl

-- A request for "api/v1/job/" and nothing but hexadecimal digits behind it, even none, ends in the
-- exception of `std::string::compare`, and not in the handler of unknown endpoints.
pub create_request_handler-unfinished :
    (resources : List Text) (p id : Text) {q : Text}
    → IsOf (codes "./") p
    → IsOf hex_digits id
    → IsQuery q
    → create_request_handler resources (p ++ ((job_path ++ id) ++ q)) ≡ out_of_range
unfolding create_request_handler route_job has_char text_eq
create_request_handler-unfinished resources p id hp hid hq =
    rw
      (
        job_endpoint p id hp (IsOf-NoQuery hex_digits id refl hid) hq,
        route-job resources id,
        find_first_not_of-none hex_digits id hid,
      )
      refl
