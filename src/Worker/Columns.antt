-- ===== src/Worker/Columns.antt =====
-- The columns of a pull: which of them the source fills, and which are the primary key.
pub mod Keys
use batyr.Prelude.{
  ℕ, zero, suc, ◌+◌, Bool, true, false, not, ◌&&◌, ◌||◌, List, [], ◌∷◌, ◌++◌, Option, none, some,
  Text, codes, cat, text_eq, is_empty, if◌then◌else◌,
}
use batyr.Strings.{join, tolower}
use batyr.Config.{Layer}
use batyr.Db.Fields.{Field, FieldMap, find_field}
use batyr.Worker.{OgrFieldType, oft_integer, OgrLayer}

pub record OgrField : Type 0 where
  pub index : ℕ
  pub type : OgrFieldType

abbrev pub OgrFieldMap : Type 0
OgrFieldMap = List (Text × OgrField)

unfoldable pub find_ogr : Text → OgrFieldMap → Option OgrField
find_ogr name [] = none
find_ogr name ((k, f) ∷ m) = if text_eq k name then some f else find_ogr name m

-- The loop that collects the columns of the dataset, at index `i`. The entry in front hides an
-- older one of the same name, as an assignment to `ogrFields[fieldName]` does.
unfoldable pub collect_ogr : ℕ → List (Text × OgrFieldType) → OgrFieldMap → OgrFieldMap
collect_ogr i [] m = m
collect_ogr i ((name, t) ∷ rest) m =
    collect_ogr (i + 1) rest ((tolower name, record { index = i; type = t }) ∷ m)

abbrev pub found {ℓ} : {A : Type ℓ} → Option A → Bool
found none = false
found (some a) = true

-- `ogrFields.find(name) != ogrFields.end() || GetFIDColumn() == name`.
unfoldable pub provides : OgrFieldMap → Text → Text → Bool
provides fields fid name = found (find_ogr name fields) || text_eq fid name

-- `ogrFields[name]`, which makes a field with index 0 and type `OFTInteger` where there is none.
unfoldable pub ogr_field : OgrFieldMap → Text → OgrField
ogr_field fields name = elim (find_ogr name fields) [
  | none ↦ record { index = 0; type = oft_integer }
  | some f ↦ f
]

pub record Columns : Type 0 where
  pub primary_key : List Text
  pub geometry : Text
  pub insert : List Text
  pub update : List Text

abbrev pub no_columns : Columns
no_columns = record { primary_key = []; geometry = []; insert = []; update = [] }

-- A value, or the message of a `WorkerError`.
pub data Checked (A : Type 0) : Type 0 where
  valid : A → Checked A
  invalid : Text → Checked A

infixl 5 ◌>>=◌
abbrev pub ◌>>=◌ : {A B : Type 0} → Checked A → (A → Checked B) → Checked B
valid a >>= f = f a
invalid m >>= f = invalid m

abbrev is_geometry : Field → Bool
is_geometry f = text_eq f.pg_type_name (codes "geometry")

unfoldable pub add_key : Field → Columns → Columns
add_key f c =
    if f.is_primary_key
    then record c { primary_key = c.primary_key ++ f.name ∷ [] }
    else record c { update = c.update ++ f.name ∷ [] }

unfoldable pub add_geometry : Text → Field → Columns → Checked Columns
add_geometry layer_name f c =
    if is_geometry f
    then if not (is_empty c.geometry)
      then invalid (
          cat (
            codes "Layer \""
            ∷ layer_name
            ∷ codes "\" has multiple geometry columns. Currently only one is supported"
            ∷ []))
      else valid (record c { geometry = f.name; insert = c.insert ++ f.name ∷ [] })
    else valid c

unfoldable pub add_provided : OgrFieldMap → Text → Field → Columns → Columns
add_provided fields fid f c =
    if provides fields fid f.name then record c { insert = c.insert ++ f.name ∷ [] } else c

-- The loop over `tableFields`.
unfoldable pub sort_columns : Text → OgrFieldMap → Text → FieldMap → Columns → Checked Columns
unfolding add_key add_geometry add_provided
sort_columns layer_name fields fid [] c = valid c
sort_columns layer_name fields fid ((k, f) ∷ rest) c = do
  c' ← add_geometry layer_name f (add_key f c)
  sort_columns layer_name fields fid rest (add_provided fields fid f c')

-- The configured columns that the table does not have; the first is reported.
unfoldable pub check_configured : Text → FieldMap → List Text → Checked (List Text)
check_configured layer_name table [] = valid []
check_configured layer_name table (k ∷ ks) =
    let rest = check_configured layer_name table ks >>= (λ ks'. valid (k ∷ ks')) in
    if found (find_field k table)
    then rest
    else invalid (
        cat (
          codes "The configured primary key column \""
          ∷ k
          ∷ codes "\" does not exist in the table of layer \""
          ∷ layer_name
          ∷ codes "\""
          ∷ []))

-- The primary key of the table, or that of the configuration if it names one.
unfoldable pub override_key : Text → FieldMap → List Text → Columns → Checked Columns
unfolding check_configured
override_key layer_name table [] c = valid c
override_key layer_name table (k ∷ ks) c = do
  key ← check_configured layer_name table (k ∷ ks)
  valid (record c { primary_key = key })

unfoldable pub missing_keys : OgrFieldMap → Text → List Text → List Text
missing_keys fields fid [] = []
missing_keys fields fid (k ∷ ks) =
    if provides fields fid k then missing_keys fields fid ks else k ∷ missing_keys fields fid ks

abbrev missing_message : Text → List Text → Text
missing_message layer_name missing = cat (
    codes "The source for layer \""
    ∷ layer_name
    ∷ codes "\" is missing the following fields required by the primary key: "
    ∷ join missing (codes ", ")
    ∷ [])

-- The checks on the primary key.
unfoldable pub check_key : Text → OgrFieldMap → Text → Columns → Checked Columns
unfolding missing_keys
check_key layer_name fields fid c =
    let missing = missing_keys fields fid c.primary_key in
    if is_empty c.primary_key
    then invalid (cat (codes "Got no primarykey for layer \"" ∷ layer_name ∷ codes "\"" ∷ []))
    else if is_empty missing
    then valid c
    else invalid (missing_message layer_name missing)

unfoldable pub resolve_columns : Text → List Text → OgrFieldMap → Text → FieldMap → Checked Columns
unfolding sort_columns override_key check_key
resolve_columns layer_name configured fields fid table = do
  c ← sort_columns layer_name fields fid table no_columns
  c' ← override_key layer_name table configured c
  check_key layer_name fields fid c'
