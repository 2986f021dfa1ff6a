-- ===== src/Worker/Removal.antt =====
-- `Worker::removeByAttributes`.
pub mod Values
use batyr.Prelude.{
  ℕ, suc, ◌+◌, ◌≡◌, refl, sym, ap, ◌∙◌, Bool, true, false, List, [], ◌∷◌, ◌++◌, Option, none, some,
  Text, codes, cat, map, length, is_empty, if◌then◌else◌,
}
use batyr.Json.{to_string}
use batyr.Config.{Layer}
use batyr.Job.{
  Job, NullableValue, AttributeSet, failed, finished, set_status, set_message, set_statistics,
}
use batyr.Db.{Exception, worker_error, Rows, Postgres}
use batyr.Db.Transaction.{
  Tx, M, Outcome, returns, throws, ◌>>=◌, ◌>>◌, pure, throw, exec, exec_params, pg_params, begin,
  destroy,
}
use batyr.Db.Quiet.{>>=-eq-returns}
use batyr.Db.Quoting.{quote_and_join_ident}
use batyr.Db.Fields.{Field, FieldMap, find_field, get_table_fields}
use batyr.Worker.Pull.{Pulled, count_of}

-- The text that a part of the condition adds to the statement, and `attrValues` after it.
pub record Condition : Type 0 where
  pub sql : Text
  pub values : List NullableValue

module _ (pg : Postgres) where
  open pg use {State}

  field_or_throw : Text → Text → Option Field → M State Field
  field_or_throw layer_name name none = throw (
      worker_error
        (cat (codes "Layer \"" ∷ layer_name ∷ codes "\" has no field \"" ∷ name ∷ codes "\"" ∷ [])))
  field_or_throw layer_name name (some f) = pure f

  -- The loop over the attributes of a set, with what stands in front of the next one.
  unfoldable pub attribute_conditions :
      Text → Layer → FieldMap → Text → AttributeSet → List NullableValue → M State Condition
  unfolding field_or_throw
  attribute_conditions layer_name l table sep [] vs = pure (record { sql = []; values = vs })
  attribute_conditions layer_name l table sep ((name, v) ∷ rest) vs = do
    f ← field_or_throw layer_name name (find_field name table)
    q ← quote_and_join_ident pg l.target_table_name name
    c ← attribute_conditions layer_name l table (codes " and ") rest (vs ++ v ∷ [])
    pure (record {
      sql = cat (
          sep
          ∷ q
          ∷ codes " is not distinct from $"
          ∷ to_string (length vs + 1)
          ∷ codes "::"
          ∷ f.pg_type_name
          ∷ c.sql
          ∷ []);
      values = c.values;
    })

  -- The loop over the attribute sets, of which the empty ones are skipped.
  unfoldable pub set_conditions :
      Text → Layer → FieldMap → List AttributeSet → List NullableValue → M State Condition
  unfolding attribute_conditions
  set_conditions layer_name l table [] vs = pure (record { sql = []; values = vs })
  set_conditions layer_name l table ([] ∷ sets) vs = set_conditions layer_name l table sets vs
  set_conditions layer_name l table ((a ∷ set) ∷ sets) vs = do
    c ← attribute_conditions layer_name l table [] (a ∷ set) vs
    d ← set_conditions layer_name l table sets c.values
    pure (record {
      sql = cat (
          (if is_empty vs then [] else codes " or ")
          ∷ codes " ( "
          ∷ c.sql
          ∷ codes " ) "
          ∷ d.sql
          ∷ []);
      values = d.values;
    })

  -- Without a value nothing is deleted: the statement would have no condition.
  unfoldable pub delete_matching : Text → Condition → M State ℕ
  unfolding exec_params
  delete_matching start c = if is_empty c.values then pure 0 else (do
    res ← exec_params pg (start ++ c.sql) (pg_params c.values)
    pure (count_of res.cmd_tuples))

  unfoldable pub delete_by_attributes : Layer → Job → M State ℕ
  unfolding exec get_table_fields set_conditions delete_matching
  delete_by_attributes l job = do
    exec pg (codes "set DateStyle to SQL, YMD")
    table ← get_table_fields pg l.target_table_schema l.target_table_name
    target ← quote_and_join_ident pg l.target_table_schema l.target_table_name
    c ← set_conditions job.layer_name l table job.attribute_sets []
    delete_matching (cat (codes "delete from " ∷ target ∷ codes " where " ∷ [])) c

  unfoldable pub removal_ended : ℕ → Job → Outcome (Tx State) ℕ → Pulled State
  removal_ended now job (returns n t) = record {
    job = set_statistics 0 0 0 n 0 (set_status finished now job);
    exception = none;
    transaction = some (destroy pg t);
  }
  removal_ended now job (throws e t) = record {
    job = job;
    exception = some e;
    transaction = some (destroy pg t);
  }

  unfoldable pub removal_begun : ℕ → Layer → Job → Outcome (Tx State) Rows → Pulled State
  unfolding removal_ended delete_by_attributes
  removal_begun now l job (returns _ t) = removal_ended now job (delete_by_attributes l job t)
  removal_begun now l job (throws e t) = record {
    job = job;
    exception = some e;
    transaction = none;
  }

  unfoldable pub remove_by_attributes : ℕ → Layer → Job → State → Pulled State
  unfolding removal_begun
  remove_by_attributes now l job s =
      if l.allow_feature_deletion then removal_begun now l job (begin pg s) else record {
        job =
            set_message
              (cat (
                codes "Layer \""
                ∷ job.layer_name
                ∷ codes "\" does not allow deletion of features."
                ∷ []))
              (set_status failed now job);
        exception = none;
        transaction = none;
      }
