-- ===== src/Job/RoundTrip.antt =====
-- What `toJsonValue` writes, `fromString` reads back.
use mathlib.Core.List.{append_assoc, append-nil}
use batyr.Prelude.{
  ℕ, ◌+◌, ◌≡◌, ◌≢◌, refl, ap, ◌∙◌, inl, inr, true, false, List, [], ◌∷◌, ◌++◌, map, none, some,
  Text, codes, text_eq, text_lt, All, is_empty, if◌then◌else◌, Bool-cases,
}
use batyr.Strings.{trim, blanks}
use batyr.Json.{string, array, find_member}
use batyr.Job.{Job, pull, remove_by_attributes, NullableValue, null_value, AttributeSet, is_done}
use batyr.Job.Attributes.{NoNul, c_str_same, Above, IsAscending, Printable, assign-last}
use batyr.Job.WellFormed.{IsReadable}
use batyr.Job.Request.{ok, read_attributes, read_sets, from_members}
use batyr.Job.Document.{set_members, set_elements, to_members}

find_layer_name :
    (j : Job) → find_member (codes "layerName") (to_members j) ≡ some (string j.layer_name)
unfolding find_member to_members text_eq
find_layer_name j = elim (Bool-cases (is_done j)) [ inl d ↦ rw d | inr d ↦ rw d ]

find_filter_pull :
    (j : Job) → j.type ≡ pull → find_member (codes "filter") (to_members j) ≡ some (string j.filter)
unfolding find_member to_members text_eq
find_filter_pull j e = elim (Bool-cases (is_done j)) [ inl d ↦ rw (d, e) | inr d ↦ rw (d, e) ]

find_filter_remove :
    (j : Job) → j.type ≡ remove_by_attributes → find_member (codes "filter") (to_members j) ≡ none
unfolding find_member to_members text_eq is_done
find_filter_remove j e = elim (Bool-cases (is_done j)) [ inl d ↦ rw (d, e) | inr d ↦ rw (d, e) ]

find_sets_pull :
    (j : Job) → j.type ≡ pull → find_member (codes "attributeSets") (to_members j) ≡ none
unfolding find_member to_members text_eq
find_sets_pull j e = elim (Bool-cases (is_done j)) [ inl d ↦ rw (d, e) | inr d ↦ rw (d, e) ]

find_sets_remove :
    (j : Job)
    → j.type ≡ remove_by_attributes
    → find_member (codes "attributeSets") (to_members j)
      ≡ some (array (set_elements j.attribute_sets))
unfolding find_member to_members text_eq
find_sets_remove j e = elim (Bool-cases (is_done j)) [ inl d ↦ rw (d, e) | inr d ↦ rw (d, e) ]

-- A null keeps no value in a document.
abbrev pub forget : NullableValue → NullableValue
forget v = if v.is_null then null_value else v

abbrev pub forget_all : AttributeSet → AttributeSet
forget_all = map (λ e. (e.0, forget e.1))

abbrev written : Text → NullableValue
written t = record { is_null = false; value = t }

grow :
    (k : Text) (v w : NullableValue) (s acc : AttributeSet)
    → Above k s
    → All (λ a. Above a.0 ((k, v) ∷ s)) acc
    → All (λ a. Above a.0 s) (acc ++ (k, w) ∷ [])
grow k v w s [] u a = (u, tt)
grow k v w s (x ∷ acc) u a = (a.0.1, grow k v w s acc u a.1)

below :
    (k : Text) (v : NullableValue) (s acc : AttributeSet)
    → All (λ a. Above a.0 ((k, v) ∷ s)) acc
    → All (λ a. text_lt a.0 k ≡ true) acc
below k v s [] a = tt
below k v s (x ∷ acc) a = (a.0.0, below k v s acc a.1)

read_attributes-set_members :
    (s acc : AttributeSet)
    → IsAscending s
    → All Printable s
    → All (λ a. Above a.0 s) acc
    → read_attributes (set_members s) acc ≡ ok (acc ++ forget_all s)
unfolding read_attributes set_members
read_attributes-set_members [] acc w p a = rw append-nil
read_attributes-set_members ((k, v) ∷ s) acc w p a =
    let under = below k v s acc a in
    let next = λ (x : NullableValue).
      read_attributes-set_members s (acc ++ (k, x) ∷ []) w.1 p.1 (grow k v x s acc w.0 a) in
    let shift = λ (x : NullableValue). append_assoc acc ((k, x) ∷ []) (forget_all s) in
    elim (Bool-cases v.is_null) [
      | inl n ↦
          rw (n, c_str_same k p.0.0, c_str_same k p.0.0, assign-last k _ acc under)
            (next null_value ∙ ap ok (shift null_value))
      | inr n ↦
          rw (n, c_str_same k p.0.0, c_str_same k p.0.0, assign-last k _ acc under)
            (rw (c_str_same v.value p.0.1)
              (next (written v.value) ∙ ap ok (shift (written v.value))))
    ]

keep_set :
    (s : AttributeSet) (sets : List AttributeSet)
    → s ≢ []
    → (if is_empty (forget_all s) then sets else sets ++ forget_all s ∷ [])
      ≡ sets ++ forget_all s ∷ []
keep_set [] sets n = absurd (n refl)
keep_set (e ∷ s) sets n = refl

read_sets-set_elements :
    (sets : List AttributeSet) (i : ℕ) (acc : List AttributeSet)
    → IsReadable sets
    → read_sets i (set_elements sets) acc ≡ ok (acc ++ map forget_all sets)
unfolding read_sets set_elements
read_sets-set_elements [] i acc w = rw append-nil
read_sets-set_elements (s ∷ sets) i acc w = rw (
  read_attributes-set_members s [] w.0.1.ascending w.0.1.printable tt,
  keep_set s acc w.0.0,
  read_sets-set_elements sets (i + 1) (acc ++ forget_all s ∷ []) w.1,
  append_assoc,
)

-- The description of a job to remove features is a request: read into a new job it gives the
-- layer name and the attribute sets back, up to values that a null hides.
pub from_members-to_members_remove :
    (j b : Job)
    → j.type ≡ remove_by_attributes
    → b.attribute_sets ≡ []
    → NoNul j.layer_name
    → IsReadable j.attribute_sets
    → from_members (to_members j) b
      ≡ ok
          (record b { layer_name = j.layer_name; attribute_sets = map forget_all j.attribute_sets })
unfolding from_members
from_members-to_members_remove j b t new l w = rw (
  find_layer_name j,
  find_filter_remove j t,
  find_sets_remove j t,
  c_str_same j.layer_name l,
  new,
  read_sets-set_elements j.attribute_sets 0 [] w,
)

-- The description of a job to pull features is a request: read into another job it gives the
-- layer name back, and the filter trimmed of blanks.
pub from_members-to_members-pull :
    (j b : Job)
    → j.type ≡ pull
    → NoNul j.layer_name
    → NoNul j.filter
    → from_members (to_members j) b
      ≡ ok (record b { layer_name = j.layer_name; filter = trim j.filter blanks })
unfolding from_members
from_members-to_members-pull j b t l f = rw (
  find_layer_name j,
  find_filter_pull j t,
  find_sets_pull j t,
  c_str_same j.layer_name l,
  c_str_same j.filter f,
)
