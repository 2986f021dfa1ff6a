-- ===== src/Tests/Worker.antt =====
-- The properties of server/worker.cpp at a pull that leaves a feature out.
use batyr.Prelude.{
  ◌≡◌, refl, ℕ, ◌++◌, [], ◌∷◌, List, All, Option, none, some, true, false, Text, codes, text_eq,
  is_empty, length, ltb, pos, if◌then◌else◌,
}
use batyr.Config.{Layer, new_layer, Configuration, information}
use batyr.Job.{
  Job, NullableValue, AttributeSet, pull, remove_by_attributes, new_job, null_value, no_statistics,
}
use batyr.Db.{DbError}
use batyr.Db.Transaction.{Tx, returns}
use batyr.Db.Fields.{Field, FieldMap, find_field}
use batyr.Tests.Db.{database}
use batyr.Worker.{OgrFieldType, oft_integer, no_geometry, Feature, OgrLayer, Dataset}
use batyr.Worker.Source.{opened, open_source, filter_string}
use batyr.Worker.Convert.{converted, unsupported, get_postgres_type, convert_to_string}
use batyr.Worker.Columns.{OgrFieldMap, OgrField, Columns, valid, provides, resolve_columns}
use batyr.Worker.Columns.Keys.{contains, resolve_columns-keys}
use batyr.Worker.Features.{Plan, Counts, insert_features}
use batyr.Worker.Features.Ignored.{insert_features-rollback}
use batyr.Worker.Pull.{Pulled}
use batyr.Worker.Pull.Ending.{IsConcluded, pull-IsConcluded}
use batyr.Worker.Removal.{Condition, set_conditions}
use batyr.Worker.Removal.Values.{all_values, set_conditions-values}

abbrev type_number : OgrFieldType → ℕ
type_number t = 0

abbrev layer : Layer
layer = record (new_layer (codes "l")) {
  source_layer = codes "s";
  target_table_schema = codes "public";
  target_table_name = codes "t";
  ignore_failures = true;
}

abbrev configuration : Configuration
configuration = record {
  layers = (codes "l", layer) ∷ [];
  http_port = 8090;
  num_worker_threads = 1;
  max_age_done_jobs = 3600;
  db_connection_string = [];
  loglevel = information;
  logfile = [];
  use_persistent_connections = true;
  access_control_allow_origin = [];
}

abbrev feature : Feature
feature = record {
  fid = pos 1;
  geometry = no_geometry;
  is_field_set = λ i. true;
  as_string = λ i. codes "x";
  as_integer = λ i. pos 4;
  as_double = λ i. codes "1.5";
  as_date_time = λ i. none;
}

abbrev source : OgrLayer
source = record {
  fields = (codes "ID", oft_integer) ∷ [];
  fid_column = [];
  geometry_fields = 0;
  set_filter = λ f. none;
  features = λ f. feature ∷ [];
}

abbrev dataset : Dataset
dataset = record { layer_by_name = λ name. some source; layer_names = [] }

abbrev job : Job
job = record (new_job pull (codes "a-1") 0) { layer_name = codes "l" }

ends : (batyr.Worker.Pull.pull database type_number 7 layer (some dataset) job 0).exception ≡ none
unfolding batyr.Worker.Pull.pull filter_string new_job text_eq batyr.Prelude.text_lt
    batyr.Worker.Source.open_source batyr.Db.Transaction.exec batyr.Db.Transaction.exec_params
    batyr.Db.Transaction.begin batyr.Worker.Columns.resolve_columns batyr.Worker.Columns.collect_ogr
    batyr.Worker.Columns.find_ogr batyr.Worker.Columns.provides batyr.Worker.Columns.ogr_field
    batyr.Strings.tolower batyr.Db.Fields.find_field batyr.Db.Fields.put_field batyr.Numbers.atoi
    batyr.Strings.split batyr.Db.Fields.version_of_text batyr.Db.Fields.undefined_srid
    batyr.Worker.Convert.get_postgres_type batyr.Worker.Convert.convert_to_string
    batyr.Worker.Features.type_name batyr.Db.is_data_exception batyr.Db.Transaction.destroy
    batyr.Db.Quoting.quote_ident batyr.Db.Quoting.quote_and_join_ident batyr.Db.Quoting.quote_idents
    batyr.Json.to_string batyr.Job.remove_dashes
ends = refl

pull-IsConcluded_example :
    (o : OgrLayer) × (open_source layer (filter_string layer.filter job.filter) (some dataset)
      ≡ opened o)
    × IsConcluded database layer job o
        (batyr.Worker.Pull.pull database type_number 7 layer (some dataset) job 0)
pull-IsConcluded_example = pull-IsConcluded database type_number 7 layer (some dataset) job 0 ends

abbrev id_field : Field
id_field = record {
  name = codes "id";
  pg_type_name = codes "int4";
  pg_type_oid = pos 23;
  is_primary_key = true;
}

abbrev table : FieldMap
table = (codes "id", id_field) ∷ []

abbrev fields : OgrFieldMap
fields = (codes "id", record { index = 0; type = oft_integer }) ∷ []

abbrev columns : Columns
columns = record {
  primary_key = codes "id" ∷ [];
  geometry = [];
  insert = codes "id" ∷ [];
  update = [];
}

resolves : resolve_columns (codes "l") [] fields [] table ≡ valid columns
unfolding resolve_columns provides batyr.Worker.Columns.find_ogr find_field text_eq
resolves = refl

resolve_columns-keys_example :
    (is_empty columns.primary_key ≡ false)
    × All
        (λ k. (provides fields [] k ≡ true) × (contains k columns.insert ≡ true))
        columns.primary_key
resolve_columns-keys_example =
    resolve_columns-keys (codes "l") fields [] [] table columns (refl, tt) resolves

abbrev plan : Plan
plan = record {
  table = table;
  fields = fields;
  fid = [];
  insert = codes "id" ∷ [];
  statement = codes "s";
  ignore_failures = true;
}

abbrev start : Tx ℕ
start = record { session = 0; exit_sqls = []; rollback = false; sent = [] }

abbrev marked : Tx ℕ
marked = record {
  session = 0;
  exit_sqls = [];
  rollback = true;
  sent =
      codes "rollback to savepoint insertfeature;"
      ∷ codes "s"
      ∷ codes "savepoint insertfeature;"
      ∷ [];
}

leaves_out :
    insert_features database type_number plan
      (feature ∷ [])
      (record { pulled = 0; ignored = 0 })
      start
    ≡ returns (record { pulled = 1; ignored = 1 }) marked
unfolding insert_features batyr.Worker.Features.type_name find_field text_eq
    batyr.Worker.Columns.ogr_field batyr.Worker.Columns.find_ogr convert_to_string
    batyr.Worker.Convert.sanitize batyr.Db.is_data_exception batyr.Db.Transaction.exec
    batyr.Db.Transaction.exec_prepared batyr.Json.to_string
leaves_out = refl

insert_features-rollback_example : marked.rollback ≡ ltb 0 1
insert_features-rollback_example =
    insert_features-rollback database type_number plan (feature ∷ [])
      (record { pulled = 0; ignored = 0 }) (record { pulled = 1; ignored = 1 }) start marked refl
      leaves_out

abbrev sets : List AttributeSet
sets =
    []
    ∷ ((codes "id", record { is_null = false; value = codes "4" }) ∷ [])
    ∷ ((codes "id", null_value) ∷ [])
    ∷ []

abbrev condition : Condition
condition = record {
  sql =
      codes
        " ( \"t\".\"id\" is not distinct from $1::int4 )  or  ( \"t\".\"id\" is not distinct from $2::int4 ) ";
  values = record { is_null = false; value = codes "4" } ∷ null_value ∷ [];
}

conditions : set_conditions database (codes "l") layer table sets [] start ≡ returns condition start
unfolding set_conditions find_field text_eq batyr.Json.to_string
    batyr.Db.Quoting.quote_and_join_ident batyr.Db.Quoting.quote_idents batyr.Strings.join
conditions = refl

set_conditions-values_example : condition.values ≡ [] ++ all_values sets
set_conditions-values_example =
    set_conditions-values database (codes "l") layer table sets [] start start condition conditions
