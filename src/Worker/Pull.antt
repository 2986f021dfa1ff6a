-- ===== src/Worker/Pull.antt =====
-- `Worker::pull` as a whole.
pub mod Ending
use batyr.Prelude.{
  ℕ, Bool, true, false, List, [], ◌∷◌, ◌++◌, Option, none, some, Text, codes, is_empty, ℤ, pos,
  pos_part, if◌then◌else◌,
}
use batyr.Numbers.{atoi}
use batyr.Config.{Layer, BulkDeleteMethod, bulk_delete, bulk_truncate}
use batyr.Job.{Job, finished, set_status, set_statistics}
use batyr.Db.{Exception, worker_error, Rows, Postgres}
use batyr.Db.Transaction.{
  Tx, M, Outcome, returns, throws, ◌>>=◌, ◌>>◌, pure, throw, exec, prepare, begin, Ended, destroy,
}
use batyr.Db.Fields.{
  FieldMap, VersionTuple, column, undefined_srid, no_srid_found, get_table_fields, get_version,
  get_geometry_column_srid, create_temp_table,
}
use batyr.Worker.{OgrFieldType, Dataset, OgrLayer}
use batyr.Worker.Source.{
  Opened, opened, failed_to_open, filter_string, open_source, deletion_allowed,
}
use batyr.Worker.Columns.{
  OgrFieldMap, Columns, Checked, valid, invalid, collect_ogr, resolve_columns,
}
use batyr.Worker.Features.{Plan, Counts, insert_features}
use batyr.Worker.Statements.{
  Piece, sql_text, insert_query_values, insert_query, count_sql, truncate_sql, delete_all_sql,
  insert_all_sql, insert_missing_sql, delete_removed_sql, update_sql,
}

-- What the loop over the features is prepared with.
pub record Setup : Type 0 where
  pub version : VersionTuple
  pub columns : Columns
  pub plan : Plan

-- What the first part of the transaction leaves to the second.
pub record Loaded : Type 0 where
  pub version : VersionTuple
  pub table : FieldMap
  pub columns : Columns
  pub counts : Counts

pub record Changes : Type 0 where
  pub created : ℕ
  pub updated : ℕ
  pub deleted : ℕ

-- How a pull ends: the job, the exception that leaves the function, and the transaction after its
-- destructor, where there was one.
pub record Pulled (S : Type 0) : Type 0 where
  pub job : Job
  pub exception : Option Exception
  pub transaction : Option (Ended S)

-- `std::atoi` of a count, which is never negative.
abbrev pub count_of : Text → ℕ
count_of s = pos_part (atoi s)

abbrev first_value : List (List Text) → Text
first_value [] = []
first_value (row ∷ rest) = column 0 row

abbrev first_key : List Text → Text
first_key [] = []
first_key (k ∷ ks) = k

module _ (pg : Postgres) where
  open pg use {State}

  abbrev checked : {A : Type 0} → Checked A → M State A
  checked (valid a) = pure a
  checked (invalid m) = throw (worker_error m)

  -- A statement that is built and sent, with the number of rows that it changed.
  unfoldable pub run_counted : List Piece → M State ℕ
  unfolding exec sql_text
  run_counted ps = do s ← sql_text pg ps; res ← exec pg s; pure (count_of res.cmd_tuples)

  srid_of : Layer → Text → M State ℤ
  unfolding get_geometry_column_srid
  srid_of l geometry =
      if is_empty geometry
      then pure no_srid_found
      else get_geometry_column_srid pg l.target_table_schema l.target_table_name geometry

  -- Up to the prepared statement.
  unfoldable pub setup : (OgrFieldType → ℕ) → Layer → Job → OgrLayer → M State Setup
  unfolding exec get_version create_temp_table get_table_fields srid_of insert_query_values
      insert_query sql_text prepare resolve_columns collect_ogr
  setup tn l job o = do
    let fields = collect_ogr 0 o.fields []
    let temp = codes "batyr_" ++ job.id
    let statement = codes "batyr_insert" ++ job.id
    exec pg (codes "set DateStyle to SQL, YMD")
    version ← get_version pg
    create_temp_table pg l.target_table_schema l.target_table_name temp
    table ← get_table_fields pg l.target_table_schema l.target_table_name
    columns ←
        checked (resolve_columns job.layer_name l.primary_key_columns fields o.fid_column table)
    srid ← srid_of l columns.geometry
    values ← insert_query_values pg tn table fields srid (undefined_srid version) 1 columns.insert
    sql ← sql_text pg (insert_query temp columns.insert values)
    prepare pg statement sql
    pure (record {
      version = version;
      columns = columns;
      plan = record {
        table = table;
        fields = fields;
        fid = o.fid_column;
        insert = columns.insert;
        statement = statement;
        ignore_failures = l.ignore_failures;
      };
    })

  -- Up to the last feature of the source.
  unfoldable pub load : (OgrFieldType → ℕ) → Layer → Job → OgrLayer → M State Loaded
  unfolding setup insert_features
  load tn l job o = do
    x ← setup tn l job o
    counts ←
        insert_features pg tn x.plan (o.features (filter_string l.filter job.filter))
          (record { pulled = 0; ignored = 0 })
    pure
        (record { version = x.version; table = x.plan.table; columns = x.columns; counts = counts })

  -- The rows are counted before they are truncated.
  unfoldable pub empty_target : Layer → BulkDeleteMethod → List Text → M State ℕ
  unfolding exec run_counted sql_text count_sql truncate_sql delete_all_sql
  empty_target l bulk_truncate key = do
    count ← sql_text pg (count_sql l (first_key key))
    res ← exec pg count
    sql ← sql_text pg (truncate_sql l)
    exec pg sql
    pure (count_of (first_value res.tuples))
  empty_target l bulk_delete key = run_counted (delete_all_sql l)

  unfoldable pub bulk : Layer → Text → Loaded → M State Changes
  unfolding empty_target run_counted insert_all_sql
  bulk l temp x = do
    deleted ← empty_target l l.bulk_delete_method x.columns.primary_key
    created ← run_counted (insert_all_sql l temp x.columns.insert)
    pure (record { created = created; updated = 0; deleted = deleted })

  unfoldable pub delete_removed : Bool → Layer → Text → List Text → M State ℕ
  unfolding run_counted delete_removed_sql
  delete_removed true l temp key = run_counted (delete_removed_sql l temp key)
  delete_removed false l temp key = pure 0

  unfoldable pub synchronize : Bool → Layer → Text → Loaded → M State Changes
  unfolding run_counted update_sql insert_missing_sql delete_removed
  synchronize allowed l temp x = do
    updated ←
        run_counted (update_sql l temp x.version x.table x.columns.update x.columns.primary_key)
    created ← run_counted (insert_missing_sql l temp x.columns.insert x.columns.primary_key)
    deleted ← delete_removed allowed l temp x.columns.primary_key
    pure (record { created = created; updated = updated; deleted = deleted })

  unfoldable pub change_target : Bool → Layer → Text → Loaded → M State Changes
  unfolding bulk synchronize
  change_target allowed l temp x =
      if l.bulk_mode then bulk l temp x else synchronize allowed l temp x

  -- The end of the block: the job, and the destructor of the transaction.
  unfoldable pub conclude : ℕ → Job → Loaded → Outcome (Tx State) Changes → Pulled State
  unfolding destroy
  conclude now job x (returns c t) = record {
    job =
        set_statistics x.counts.pulled c.created c.updated c.deleted x.counts.ignored
          (set_status finished now job);
    exception = none;
    transaction = some (destroy pg t);
  }
  conclude now job x (throws e t) = record {
    job = job;
    exception = some e;
    transaction = some (destroy pg t);
  }

  unfoldable pub after_load : ℕ → Bool → Layer → Job → Outcome (Tx State) Loaded → Pulled State
  unfolding conclude change_target
  after_load now allowed l job (returns x t) =
      conclude now (set_statistics x.counts.pulled 0 0 0 x.counts.ignored job) x
        (change_target allowed l (codes "batyr_" ++ job.id) x t)
  after_load now allowed l job (throws e t) = record {
    job = job;
    exception = some e;
    transaction = some (destroy pg t);
  }

  -- An exception of the constructor leaves no transaction behind.
  unfoldable pub with_transaction :
      (OgrFieldType → ℕ)
      → ℕ
      → Bool
      → Layer
      → Job
      → OgrLayer
      → Outcome (Tx State) Rows
      → Pulled State
  unfolding load after_load
  with_transaction tn now allowed l job o (returns _ t) =
      after_load now allowed l job (load tn l job o t)
  with_transaction tn now allowed l job o (throws e t) = record {
    job = job;
    exception = some e;
    transaction = none;
  }

  unfoldable pub pull_from :
      (OgrFieldType → ℕ) → ℕ → Bool → Layer → Job → State → Opened OgrLayer → Pulled State
  unfolding with_transaction begin
  pull_from tn now allowed l job s (opened o) = with_transaction tn now allowed l job o (begin pg s)
  pull_from tn now allowed l job s (failed_to_open m) = record {
    job = job;
    exception = some (worker_error m);
    transaction = none;
  }

  -- `pull` at the given time, with the layer of the job, the data source that GDAL opens, and the
  -- state of the connection. `getTransaction` never returns a null pointer.
  unfoldable pub pull : (OgrFieldType → ℕ) → ℕ → Layer → Option Dataset → Job → State → Pulled State
  unfolding pull_from open_source deletion_allowed
  pull tn now l dataset job s =
      let filter = filter_string l.filter job.filter in
      pull_from tn now (deletion_allowed l filter) l job s (open_source l filter dataset)
