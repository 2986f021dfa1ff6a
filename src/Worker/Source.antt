-- ===== src/Worker/Source.antt =====
-- The first part of `Worker::pull`: the filter, and the layer of the data source.
use batyr.Prelude.{
  ℕ, ◌+◌, Bool, true, false, not, ◌&&◌, List, [], ◌∷◌, ◌++◌, Option, none, some, Text, codes, cat,
  text_eq, is_empty, ltb, if◌then◌else◌,
}
use batyr.Json.{to_string}
use batyr.Strings.{levenshtein_distance}
use batyr.Config.{Layer}
use batyr.Worker.{OgrLayer, Dataset}

-- The filter of the layer and the filter of the job, joined if both are given.
unfoldable pub filter_string : Text → Text → Text
filter_string layer_filter job_filter =
    let both = not (is_empty layer_filter) && not (is_empty job_filter) in
    (if both then codes "(" else [])
    ++ (layer_filter
        ++ ((if both then codes ") and (" else [])
            ++ (job_filter ++ (if both then codes ")" else []))))

-- The variables of the search for a layer of a similar name.
pub record Search : Type 0 where
  pub layer_exists : Bool
  pub not_openable : ℕ
  pub closest_match : Text
  pub closest_distance : ℕ

abbrev search_start : Search
search_start = record {
  layer_exists = false;
  not_openable = 0;
  closest_match = [];
  closest_distance = 5000;
}

abbrev closer : Text → Text → Search → Search
closer wanted name s =
    if ltb (levenshtein_distance wanted name) s.closest_distance
    then record s { closest_distance = levenshtein_distance wanted name; closest_match = name }
    else s

unfoldable pub search_layers : Text → List (Option Text) → Search → Search
search_layers wanted [] s = s
search_layers wanted (none ∷ rest) s =
    search_layers wanted rest (record s { not_openable = s.not_openable + 1 })
search_layers wanted (some name ∷ rest) s =
    let next = search_layers wanted rest (closer wanted name s) in
    if text_eq wanted name then record s { layer_exists = true } else next

abbrev missing_hints : Search → Text
missing_hints s = cat (
    codes "does not exist."
    ∷ (if ltb s.closest_distance 12
        then cat
            (codes " HINT: The source has a layer named \"" ∷ s.closest_match ∷ codes "\"." ∷ [])
        else [])
    ∷ (if ltb 0 s.not_openable
        then cat (
            codes " HINT: "
            ∷ to_string s.not_openable
            ∷ codes " layer(s) could not be opened."
            ∷ [])
        else [])
    ∷ [])

unfoldable pub missing_layer_message : Layer → Search → Text
missing_layer_message l s = cat (
    codes "source_layer \""
    ∷ l.source_layer
    ∷ codes "\" for configured layer \""
    ∷ l.name
    ∷ codes "\" "
    ∷ (if s.layer_exists then codes "exists, but could not be opened." else missing_hints s)
    ∷ [])

-- What the source gives, or the message of the `WorkerError`.
pub data Opened (A : Type 0) : Type 0 where
  opened : A → Opened A
  failed_to_open : Text → Opened A

find_ogr_layer : Layer → Dataset → Option OgrLayer → Opened OgrLayer
unfolding search_layers missing_layer_message
find_ogr_layer l d (some o) = opened o
find_ogr_layer l d none =
    failed_to_open
      (missing_layer_message l (search_layers l.source_layer d.layer_names search_start))

abbrev reason_text : Option Text → Text
reason_text none = codes "."
reason_text (some reason) = codes ": " ++ reason

abbrev filter_message : Layer → Text → Option Text → Text
filter_message l filter reason = cat (
    codes "The given filter for layer \""
    ∷ l.name
    ∷ codes "\" is invalid"
    ∷ reason_text reason
    ∷ codes " The applied filter was [ "
    ∷ filter
    ∷ codes " ]"
    ∷ [])

-- The result of `SetAttributeFilter`, where there is a filter.
apply_filter : Layer → Text → OgrLayer → Option (Option Text) → Opened OgrLayer
apply_filter l filter o none = opened o
apply_filter l filter o (some reason) = failed_to_open (filter_message l filter reason)

check_geometries : OgrLayer → Opened OgrLayer
check_geometries o =
    if ltb 1 o.geometry_fields
    then failed_to_open (
        cat (
          codes "The source provides "
          ∷ to_string o.geometry_fields
          ∷ codes
              "geometry fields. Currently only sources with no or only one geometry field are supported"
          ∷ []))
    else opened o

infixl 5 ◌>>=◌
abbrev pub ◌>>=◌ : {A B : Type 0} → Opened A → (A → Opened B) → Opened B
opened a >>= f = f a
failed_to_open m >>= f = failed_to_open m

or_not_opened : Layer → Option Dataset → Opened Dataset
or_not_opened l none =
    failed_to_open (cat (codes "Could not open dataset for layer \"" ∷ l.name ∷ codes "\"" ∷ []))
or_not_opened l (some d) = opened d

-- From the opening of the dataset to the layer that is ready to be read.
unfoldable pub open_source : Layer → Text → Option Dataset → Opened OgrLayer
unfolding or_not_opened find_ogr_layer apply_filter check_geometries
open_source l filter dataset = do
  d ← or_not_opened l dataset
  o ← find_ogr_layer l d (d.layer_by_name l.source_layer)
  o' ← if is_empty filter then opened o else apply_filter l filter o (o.set_filter filter)
  check_geometries o'

-- `allow_feature_deletion` of this pull.
unfoldable pub deletion_allowed : Layer → Text → Bool
deletion_allowed l filter = if is_empty filter then l.allow_feature_deletion else false
