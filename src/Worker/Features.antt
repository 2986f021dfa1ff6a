-- ===== src/Worker/Features.antt =====
-- The loop of `Worker::pull` over the features of the source.
pub mod Ignored
use batyr.Prelude.{
  ℕ, zero, suc, ◌+◌, Bool, true, false, List, [], ◌∷◌, ◌++◌, Option, none, some, Text, codes,
  text_eq, ◌==◌, if◌then◌else◌,
}
use batyr.Json.{to_string}
use batyr.Job.{NullableValue, null_value}
use batyr.Db.{Exception, db_error, worker_error, DbError, is_data_exception, Postgres}
use batyr.Db.Transaction.{
  Tx, M, Outcome, returns, throws, ◌>>=◌, ◌>>◌, pure, throw, exec, exec_prepared,
}
use batyr.Db.Fields.{Field, FieldMap, find_field}
use batyr.Worker.{
  OgrFieldType, GeometryExport, no_geometry, no_buffer, not_exported, no_hex, exported, Feature,
}
use batyr.Worker.Convert.{
  Converted, converted, unsupported, value_of, convert_to_string, convert_fid,
}
use batyr.Worker.Columns.{OgrFieldMap, OgrField, ogr_field}

-- `tableFields[column].pgTypeName`.
unfoldable pub type_name : FieldMap → Text → Text
type_name table column = elim (find_field column table) [ none ↦ [] | some f ↦ f.pg_type_name ]

-- The text of a geometry; a failure names the number of the feature.
unfoldable pub geometry_value : ℕ → GeometryExport → Converted NullableValue
geometry_value n no_geometry = converted null_value
geometry_value n no_buffer = unsupported (codes "Unable to allocate memory to export geometry")
geometry_value n not_exported =
    unsupported (codes "Could not export the geometry from feature #" ++ to_string n)
geometry_value n no_hex = unsupported (codes "Unable to allocate memory to convert geometry to hex")
geometry_value n (exported size hex) = converted (if size == 0 then null_value else value_of hex)

-- What the loop takes from the job, the table and the source.
pub record Plan : Type 0 where
  pub table : FieldMap
  pub fields : OgrFieldMap
  pub fid : Text
  pub insert : List Text
  pub statement : Text
  pub ignore_failures : Bool

-- The numbers of features that were read and that were left out.
pub record Counts : Type 0 where
  pub pulled : ℕ
  pub ignored : ℕ

module _ (type_number : OgrFieldType → ℕ) where
  unfoldable pub column_value : Plan → ℕ → Feature → Text → Converted NullableValue
  unfolding geometry_value
  column_value p n f column =
      let field = ogr_field p.fields column in
      if text_eq (type_name p.table column) (codes "geometry")
      then geometry_value n f.geometry
      else if text_eq p.fid column
      then converted (convert_fid f)
      else convert_to_string type_number f field.index field.type (type_name p.table column)

  abbrev cons_value :
      Converted NullableValue → Converted (List NullableValue) → Converted (List NullableValue)
  cons_value (unsupported m) vs = unsupported m
  cons_value (converted v) (unsupported m) = unsupported m
  cons_value (converted v) (converted vs) = converted (v ∷ vs)

  unfoldable pub feature_values : Plan → ℕ → Feature → List Text → Converted (List NullableValue)
  unfolding column_value
  feature_values p n f [] = converted []
  feature_values p n f (c ∷ cs) = cons_value (column_value p n f c) (feature_values p n f cs)

abbrev pub counted : Bool → Counts → Counts
counted true c = record { pulled = c.pulled + 1; ignored = c.ignored + 1 }
counted false c = record { pulled = c.pulled + 1; ignored = c.ignored }

module _ (pg : Postgres) where
  open pg use {State}

  abbrev pub or_throw : {A : Type 0} → Converted A → M State A
  or_throw (converted a) = pure a
  or_throw (unsupported m) = throw (worker_error m)

  -- The body of the `try`.
  unfoldable pub try_insert : Text → List NullableValue → M State (Unit {0})
  unfolding exec exec_prepared
  try_insert statement values = do
    exec pg (codes "savepoint insertfeature;")
    exec_prepared pg statement values
    exec pg (codes "release savepoint insertfeature;")
    pure tt

  -- The body of the `catch`, with whether a feature was left out.
  unfoldable pub on_failure : DbError → M State Bool
  unfolding exec
  on_failure e =
      if is_data_exception e
      then (do exec pg (codes "rollback to savepoint insertfeature;"); pure true)
      else throw (db_error e)

  unfoldable pub caught : Outcome (Tx State) (Unit {0}) → Outcome (Tx State) Bool
  unfolding on_failure
  caught (returns _ t) = returns false t
  caught (throws (db_error e) t) = on_failure e t
  caught (throws e t) = throws e t

  -- One feature: whether it was left out.
  unfoldable pub insert_feature : Plan → List NullableValue → M State Bool
  unfolding try_insert caught exec_prepared
  insert_feature p values =
      if p.ignore_failures
      then (λ t. caught (try_insert p.statement values t))
      else (do exec_prepared pg p.statement values; pure false)

  unfoldable pub insert_features :
      (OgrFieldType → ℕ) → Plan → List Feature → Counts → M State Counts
  unfolding insert_feature feature_values
  insert_features tn p [] c = pure c
  insert_features tn p (f ∷ fs) c = do
    values ← or_throw (feature_values tn p c.pulled f p.insert)
    left_out ← insert_feature p values
    insert_features tn p fs (counted left_out c)
