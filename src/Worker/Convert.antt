-- ===== src/Worker/Convert.antt =====
-- `getPostgresType`, `convertToString` and `convertFidToString`, built with GDAL 2.
use batyr.Prelude.{
  ℕ, zero, suc, ◌-◌, Bool, true, false, not, ◌&&◌, ◌||◌, [], ◌∷◌, ◌++◌, Option, none, some, Text,
  codes, cat, text_eq, is_empty, length, ℤ, pos, negsuc, if◌then◌else◌,
}
use batyr.Json.{to_string}
use batyr.Job.{NullableValue, null_value}
use batyr.Worker.{
  OgrFieldType, oft_integer, oft_integer_list, oft_real, oft_real_list, oft_string, oft_string_list,
  oft_binary, oft_date, oft_time, oft_date_time, oft_integer64, oft_integer64_list, oft_other,
  DateTime, Feature,
}

-- A value, or the message of a `WorkerError`.
pub data Converted (A : Type 0) : Type 0 where
  converted : A → Converted A
  unsupported : Text → Converted A

abbrev pub value_of : Text → NullableValue
value_of s = record { is_null = false; value = s }

abbrev pub to_string_int : ℤ → Text
to_string_int (pos n) = to_string n
to_string_int (negsuc n) = b'-' ∷ to_string (suc n)

zeros : ℕ → Text
zeros zero = []
zeros (suc n) = b'0' ∷ zeros n

-- `%0wd` of `snprintf`.
unfoldable pub pad : ℕ → ℤ → Text
unfolding zeros
pad w (pos n) = zeros (w - length (to_string n)) ++ to_string n
pad w (negsuc n) = b'-' ∷ (zeros (w - 1 - length (to_string (suc n))) ++ to_string (suc n))

date_text : DateTime → Text
unfolding pad
date_text d = cat (pad 4 d.year ∷ codes "-" ∷ pad 2 d.month ∷ codes "-" ∷ pad 2 d.day ∷ [])

time_text : DateTime → Text
unfolding pad
time_text d =
    cat (pad 2 d.hour ∷ codes ":" ∷ pad 2 d.minute ∷ codes ":" ∷ pad 9 d.second ∷ codes ".0" ∷ [])

unset_or : Bool → Text → NullableValue
unset_or true s = value_of s
unset_or false s = null_value

date_or_null : (DateTime → Text) → Option DateTime → NullableValue
date_or_null show none = null_value
date_or_null show (some d) = value_of (show d)

abbrev is_time_type : Text → Bool
is_time_type t =
    text_eq t (codes "timestamp")
    || text_eq t (codes "timestampz")
    || text_eq t (codes "time")
    || text_eq t (codes "date")

-- An empty text is no value of a time type.
unfoldable pub sanitize : Text → NullableValue → NullableValue
sanitize pg_type v =
    if not v.is_null && is_empty v.value && is_time_type pg_type
    then record v { is_null = true }
    else v

-- `type_number` is GDAL's number of a type, which the messages name.
module _ (type_number : OgrFieldType → ℕ) where
  unfoldable pub get_postgres_type : OgrFieldType → Converted Text
  get_postgres_type oft_string = converted (codes "text")
  get_postgres_type oft_integer = converted (codes "integer")
  get_postgres_type oft_real = converted (codes "double precision")
  get_postgres_type oft_date = converted (codes "date")
  get_postgres_type oft_time = converted (codes "time")
  get_postgres_type oft_date_time = converted (codes "timestamp")
  get_postgres_type oft_integer_list = converted (codes "integer[]")
  get_postgres_type oft_real_list = converted (codes "double precision[]")
  get_postgres_type oft_string_list = converted (codes "text[]")
  get_postgres_type oft_binary = converted (codes "bytea")
  get_postgres_type oft_integer64 = converted (codes "integer")
  get_postgres_type oft_integer64_list = converted (codes "integer[]")
  get_postgres_type (oft_other n) = unsupported (
      codes "No supported PostgreSQL type for OGR field type: "
      ++ to_string (type_number (oft_other n)))

  abbrev not_convertible : OgrFieldType → Text
  not_convertible t =
      codes "Unsupported OGR field type to convert to string: " ++ to_string (type_number t)

  -- The switch of `convertToString`. The case of the lists has no `break`: the text that it builds
  -- is not modelled, since the case of `OFTBinary` follows and throws whatever the text is.
  unfoldable pub raw_value : Feature → ℕ → OgrFieldType → Converted NullableValue
  unfolding unset_or date_or_null date_text time_text
  raw_value f i oft_string = converted (unset_or (f.is_field_set i) (f.as_string i))
  raw_value f i oft_integer =
      converted (unset_or (f.is_field_set i) (to_string_int (f.as_integer i)))
  raw_value f i oft_integer64 =
      converted (unset_or (f.is_field_set i) (to_string_int (f.as_integer i)))
  raw_value f i oft_real = converted (unset_or (f.is_field_set i) (f.as_double i))
  raw_value f i oft_date = converted (date_or_null date_text (f.as_date_time i))
  raw_value f i oft_time = converted (date_or_null time_text (f.as_date_time i))
  raw_value f i oft_date_time =
      converted
        (date_or_null (λ d. cat (date_text d ∷ codes "T" ∷ time_text d ∷ [])) (f.as_date_time i))
  raw_value f i oft_integer64_list =
      unsupported
        (codes "None of the implemented list types matched. This point should not be reacheable")
  raw_value f i t = unsupported (not_convertible t)

  sanitized : Text → Converted NullableValue → Converted NullableValue
  unfolding sanitize
  sanitized pg_type (converted v) = converted (sanitize pg_type v)
  sanitized pg_type (unsupported m) = unsupported m

  unfoldable pub convert_to_string : Feature → ℕ → OgrFieldType → Text → Converted NullableValue
  unfolding raw_value sanitized
  convert_to_string f i t pg_type = sanitized pg_type (raw_value f i t)

-- `convertFidToString`.
unfoldable pub convert_fid : Feature → NullableValue
convert_fid f = value_of (to_string_int f.fid)
