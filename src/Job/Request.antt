-- ===== src/Job/Request.antt =====
-- `Job::fromString`: a job read from the body of a request.
use batyr.Prelude.{
  ℕ, ◌+◌, true, false, List, [], ◌∷◌, ◌++◌, Option, none, some, Text, codes, text_eq, text_lt,
  is_empty, if◌then◌else◌,
}
use batyr.Json.{
  Json, null, string, array, object, Elements, no_elements, element, Members, no_members, member,
  find_member, c_str, to_string,
}
use batyr.Strings.{trim, blanks}
use batyr.Job.{Job, NullableValue, null_value, AttributeSet}

-- The exceptions of `fromString`, by their text.
pub data Result (A : Type 0) : Type 0 where
  invalid_argument : Text → Result A
  ok : A → Result A

infixl 5 ◌>>=◌
abbrev pub ◌>>=◌ : {A B : Type 0} → Result A → (A → Result B) → Result B
invalid_argument m >>= next = invalid_argument m
ok value >>= next = next value

-- `attributeSet[name]`, which is then changed by `f`: a new entry starts as null.
unfoldable pub assign : Text → (NullableValue → NullableValue) → AttributeSet → AttributeSet
assign k f [] = (k, f null_value) ∷ []
assign k f ((j, v) ∷ rest) =
    if text_eq j k
    then (j, f v) ∷ rest
    else if text_lt k j
    then (k, f null_value) ∷ (j, v) ∷ rest
    else (j, v) ∷ assign k f rest

abbrev not_a_value : Text
not_a_value = codes "Attibute values must be strings or null"

-- The loop over the members of one element of `attributeSets`.
unfoldable pub read_attributes : Members → AttributeSet → Result AttributeSet
unfolding assign
read_attributes no_members set = ok set
read_attributes (member name null rest) set =
    read_attributes rest (assign (c_str name) (λ v. record v { is_null = true }) set)
read_attributes (member name (string s) rest) set =
    read_attributes rest
      (assign (c_str name) (λ v. record { is_null = false; value = c_str s }) set)
read_attributes (member name _ rest) set = invalid_argument not_a_value

abbrev not_an_object : ℕ → Text
not_an_object i =
    codes "Element number " ++ (to_string i ++ codes " in key attributeSets must be an object")

-- The loop over `attributeSets`, at index `i`: an empty set is left out.
unfoldable pub read_sets : ℕ → Elements → List AttributeSet → Result (List AttributeSet)
unfolding read_attributes
read_sets i no_elements sets = ok sets
read_sets i (element (object members) rest) sets = do
  set ← read_attributes members []
  read_sets (i + 1) rest (if is_empty set then sets else sets ++ set ∷ [])
read_sets i (element _ rest) sets = invalid_argument (not_an_object i)

unfoldable pub read_layer_name : Option Json → Result Text
read_layer_name none = invalid_argument (codes "Missing key layerName in JSON object")
read_layer_name (some (string s)) = ok (c_str s)
read_layer_name (some _) = invalid_argument (codes "Key layerName should be a string")

-- A key that is missing leaves the field as it was.
unfoldable pub read_filter : Text → Option Json → Result Text
read_filter old none = ok old
read_filter old (some (string s)) = ok (trim (c_str s) blanks)
read_filter old (some _) = invalid_argument (codes "Key filter should be a string")

unfoldable pub read_attribute_sets : List AttributeSet → Option Json → Result (List AttributeSet)
unfolding read_sets
read_attribute_sets old none = ok old
read_attribute_sets old (some (array sets)) = read_sets 0 sets old
read_attribute_sets old (some _) = invalid_argument (codes "Key attributeSets should be an array")

-- The members of the document, in the order of the checks.
unfoldable pub from_members : Members → Job → Result Job
unfolding read_layer_name read_filter read_attribute_sets
from_members doc j = do
  layer_name ← read_layer_name (find_member (codes "layerName") doc)
  filter ← read_filter j.filter (find_member (codes "filter") doc)
  attribute_sets ← read_attribute_sets j.attribute_sets (find_member (codes "attributeSets") doc)
  ok (record j { layer_name = layer_name; filter = filter; attribute_sets = attribute_sets })

unfoldable pub from_document : Option Json → Job → Result Job
unfolding from_members
from_document none j = invalid_argument (codes "Invalid JSON data")
from_document (some (object members)) j = from_members members j
from_document (some _) j = invalid_argument (codes "JSON data should be an object")

-- `parse` is rapidjson's parser, which gets the data up to its first NUL; `none` is a parse error.
unfoldable pub from_string : (Text → Option Json) → Text → Job → Result Job
unfolding from_document
from_string parse text j = from_document (parse (c_str text)) j
