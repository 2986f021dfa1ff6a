-- ===== src/Config.antt =====
-- server/configuration.h: what the configuration file says about the server and its layers.
pub mod Settings
pub mod Layers
pub mod Parse
pub mod Valid
pub mod Known
use batyr.Prelude.{
  ℕ, Bool, true, false, List, [], ◌∷◌, Option, none, some, Text, text_eq, if◌then◌else◌,
}

pub data BulkDeleteMethod : Type 0 where
  bulk_delete bulk_truncate : BulkDeleteMethod

pub record Layer : Type 0 where
  pub name : Text
  pub source : Text
  pub source_layer : Text
  pub description : Text
  pub target_table_name : Text
  pub target_table_schema : Text
  pub filter : Text
  pub allow_feature_deletion : Bool
  pub ignore_failures : Bool
  pub primary_key_columns : List Text
  pub enabled : Bool
  pub bulk_mode : Bool
  pub bulk_delete_method : BulkDeleteMethod

-- The constructor, with the name that `parse` gives at once.
abbrev pub new_layer : Text → Layer
new_layer name = record {
  name = name;
  source = [];
  source_layer = [];
  description = [];
  target_table_name = [];
  target_table_schema = [];
  filter = [];
  allow_feature_deletion = false;
  ignore_failures = false;
  primary_key_columns = [];
  enabled = true;
  bulk_mode = false;
  bulk_delete_method = bulk_delete;
}

-- `Poco::Message::Priority`, as far as the configuration names it.
pub data LogLevel : Type 0 where
  error warning information : LogLevel

pub record Configuration : Type 0 where
  pub layers : List (Text × Layer)
  pub http_port : ℕ
  pub num_worker_threads : ℕ
  pub max_age_done_jobs : ℕ
  pub db_connection_string : Text
  pub loglevel : LogLevel
  pub logfile : Text
  pub use_persistent_connections : Bool
  pub access_control_allow_origin : Text

-- `layers.at(name)`; `none` is the `ConfigurationError` that the layer was not found.
unfoldable pub find_layer : Text → List (Text × Layer) → Option Layer
find_layer name [] = none
find_layer name ((k, l) ∷ rest) = if text_eq k name then some l else find_layer name rest

unfoldable pub get_layer : Text → Configuration → Option Layer
unfolding find_layer
get_layer name c = find_layer name c.layers
