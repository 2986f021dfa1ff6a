-- ===== src/Job/WellFormed.antt =====
-- What a job looks like that `fromString` has read.
use mathlib.Core.Path.{subst}
use batyr.Prelude.{
  ℕ, ◌+◌, ◌≡◌, ◌≢◌, refl, true, false, List, [], ◌∷◌, ◌++◌, Option, none, some, Text, codes, All,
  is_empty, if◌then◌else◌, All-append,
}
use batyr.Json.{
  Json, null, string, array, object, Elements, no_elements, element, Members, no_members, member,
  find_member, c_str,
}
use batyr.Job.{Job, AttributeSet}
use batyr.Job.Attributes.{
  NoNul, c_str-NoNul, IsAscending, Printable, assign-IsAscending, assign-Printable,
}
use batyr.Job.Request.{
  Result, ok, invalid_argument, ◌>>=◌, assign, read_attributes, read_sets, read_layer_name,
  read_filter, read_attribute_sets, from_members,
}

-- Both parts of a chain that reads something have read something.
chain_parts :
    {A B : Type 0} (first : Result A) (next : A → Result B) {last : B}
    → (first >>= next) ≡ ok last
    → (value : A) × (first ≡ ok value) × (next value ≡ ok last)
chain_parts (invalid_argument m) next reads = cc
chain_parts (ok value) next reads = (value, refl, reads)

ok-injective : {A : Type 0} {a b : A} → ok a ≡ ok b → a ≡ b
ok-injective e = cc

-- Keys ascend strictly, and no text holds a NUL.
pub record IsMap (s : AttributeSet) : Type 0 where
  pub ascending : IsAscending s
  pub printable : All Printable s

-- The sets of a job: none is empty.
abbrev pub IsReadable : List AttributeSet → Type 0
IsReadable = All (λ s. (s ≢ []) × IsMap s)

assign_null-IsMap :
    (name : Text) (s : AttributeSet)
    → IsMap s
    → IsMap (assign (c_str name) (λ v. record v { is_null = true }) s)
assign_null-IsMap name s w = record {
  ascending = assign-IsAscending (c_str name) _ s w.ascending;
  printable = assign-Printable (c_str name) _ s (c_str-NoNul name) (λ v n. n) w.printable;
}

assign_string-IsMap :
    (name t : Text) (s : AttributeSet)
    → IsMap s
    → IsMap (assign (c_str name) (λ v. record { is_null = false; value = c_str t }) s)
assign_string-IsMap name t s w = record {
  ascending = assign-IsAscending (c_str name) _ s w.ascending;
  printable =
      assign-Printable (c_str name) _ s (c_str-NoNul name) (λ v n. c_str-NoNul t) w.printable;
}

read_attributes-IsMap :
    (m : Members) (s : AttributeSet) {t : AttributeSet}
    → IsMap s
    → read_attributes m s ≡ ok t
    → IsMap t
unfolding read_attributes
read_attributes-IsMap no_members s w e = subst IsMap (ok-injective e) w
read_attributes-IsMap (member name null rest) s w e =
    read_attributes-IsMap rest _ (assign_null-IsMap name s w) e
read_attributes-IsMap (member name (string t) rest) s w e =
    read_attributes-IsMap rest _ (assign_string-IsMap name t s w) e
read_attributes-IsMap (member name _ rest) s w e = cc

keep_set-IsReadable :
    (s : AttributeSet) (sets : List AttributeSet)
    → IsMap s
    → IsReadable sets
    → IsReadable (if is_empty s then sets else sets ++ s ∷ [])
keep_set-IsReadable [] sets w r = r
keep_set-IsReadable (x ∷ s) sets w r = All-append _ sets _ r (((λ e. cc), w), tt)

read_sets-IsReadable :
    (es : Elements) (i : ℕ) (sets : List AttributeSet) {r : List AttributeSet}
    → IsReadable sets
    → read_sets i es sets ≡ ok r
    → IsReadable r
unfolding read_sets
read_sets-IsReadable no_elements i sets w e = subst IsReadable (ok-injective e) w
read_sets-IsReadable (element (object m) rest) i sets w e =
    let (s, read, more) = chain_parts (read_attributes m []) _ e in
    read_sets-IsReadable rest (i + 1) _
      (keep_set-IsReadable s sets
        (read_attributes-IsMap m [] (record { ascending = tt; printable = tt }) read) w)
      more
read_sets-IsReadable (element _ rest) i sets w e = cc

read_layer_name-NoNul : (v : Option Json) {t : Text} → read_layer_name v ≡ ok t → NoNul t
unfolding read_layer_name
read_layer_name-NoNul none e = cc
read_layer_name-NoNul (some (string s)) e = subst NoNul (ok-injective e) (c_str-NoNul s)
read_layer_name-NoNul (some _) e = cc

read_attribute_sets-IsReadable :
    (v : Option Json) (old : List AttributeSet) {r : List AttributeSet}
    → IsReadable old
    → read_attribute_sets old v ≡ ok r
    → IsReadable r
unfolding read_attribute_sets
read_attribute_sets-IsReadable none old w e = subst IsReadable (ok-injective e) w
read_attribute_sets-IsReadable (some (array es)) old w e = read_sets-IsReadable es 0 old w e
read_attribute_sets-IsReadable (some _) old w e = cc

-- What `fromString` changes, and what it leaves.
pub record ReadFrom (doc : Members) (b j : Job) : Type 0 where
  pub layer_name : read_layer_name (find_member (codes "layerName") doc) ≡ ok j.layer_name
  pub filter : read_filter b.filter (find_member (codes "filter") doc) ≡ ok j.filter
  pub attribute_sets :
      read_attribute_sets b.attribute_sets (find_member (codes "attributeSets") doc)
      ≡ ok j.attribute_sets
  pub rest :
      j
      ≡ record b { layer_name = j.layer_name; filter = j.filter; attribute_sets = j.attribute_sets }

pub from_members-ReadFrom :
    (doc : Members) (b j : Job) → from_members doc b ≡ ok j → ReadFrom doc b j
unfolding from_members
from_members-ReadFrom doc b j e =
    let (l, el, e1) = chain_parts (read_layer_name (find_member (codes "layerName") doc)) _ e in
    let (f, ef, e2) = chain_parts (read_filter b.filter (find_member (codes "filter") doc)) _ e1 in
    let (a, ea, e3) =
      chain_parts (read_attribute_sets b.attribute_sets (find_member (codes "attributeSets") doc)) _
        e2 in
    subst (ReadFrom doc b) (ok-injective e3)
      (record { layer_name = el; filter = ef; attribute_sets = ea; rest = refl })

-- A job that was read has a layer name without NUL, and its attribute sets are maps: none is
-- empty, the keys of each ascend strictly, and no key and no value holds a NUL. All else but the
-- filter is as it was.
pub from_members-IsReadable :
    (doc : Members) (b j : Job)
    → IsReadable b.attribute_sets
    → from_members doc b ≡ ok j
    → NoNul j.layer_name
      × IsReadable j.attribute_sets
      × (j ≡ record b {
        layer_name = j.layer_name;
        filter = j.filter;
        attribute_sets = j.attribute_sets;
      })
from_members-IsReadable doc b j w e =
    let r = from_members-ReadFrom doc b j e in
    (
      read_layer_name-NoNul (find_member (codes "layerName") doc) r.layer_name,
      read_attribute_sets-IsReadable (find_member (codes "attributeSets") doc) b.attribute_sets w
          r.attribute_sets,
      r.rest,
    )
