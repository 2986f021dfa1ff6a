-- ===== src/Config/Parse.antt =====
-- server/configuration.cpp: Configuration::Configuration, parse and getOrderedLayers.
use batyr.Prelude.{
  ℕ, Bool, true, List, [], ◌∷◌, ◌++◌, map, Option, none, some, Text, codes, cat, text_eq, text_lt,
  is_empty, if◌then◌else◌,
}
use batyr.Ini.{Level, Store, Parser, top, Result, null_pointer, runtime_error, done, ◌>>=◌}
use batyr.Config.{Layer, Configuration, information}
use batyr.Config.Settings.{http_setting, main_setting, logging_setting, for_each}
use batyr.Config.Layers.{layer_section}

-- The constructor's default values.
abbrev pub new_configuration : Configuration
new_configuration = record {
  layers = [];
  http_port = 9090;
  num_worker_threads = 2;
  max_age_done_jobs = 600;
  db_connection_string = [];
  loglevel = information;
  logfile = [];
  use_persistent_connections = true;
  access_control_allow_origin = [];
}

-- A section of the top level: its name, and the level with its contents.
unfoldable pub section : (ℕ → Level) → Text × ℕ → Configuration → Result Configuration
section levels (name, a) c =
    if text_eq name (codes "HTTP")
    then for_each (http_setting name) (levels a).values c
    else if text_eq name (codes "MAIN")
    then for_each (main_setting name) (levels a).values c
    else if text_eq name (codes "LAYERS")
    then for_each (layer_section levels) (levels a).sections c
    else if text_eq name (codes "LOGGING")
    then for_each (logging_setting name) (levels a).values c
    else runtime_error (cat (codes "Unknown section: \"" ∷ name ∷ codes "\"" ∷ []))

unfoldable pub check_dsn : Configuration → Result Configuration
check_dsn c =
    if is_empty c.db_connection_string
    then runtime_error (codes "Missing dsn configuration to connect to postgresql")
    else done c

-- The rest of `parse`, with what the parser has read.
unfoldable pub read_levels : Parser → Result Configuration
unfolding section check_dsn
read_levels p = do
  c ← for_each (section p.store.level) (p.store.level top).sections new_configuration
  check_dsn c

-- The constructor with the lines of the file, or with none where it cannot be opened. A
-- `std::runtime_error` is thrown anew with the same text.
unfoldable pub parse : Text → Option (List Text) → Result Configuration
unfolding read_levels
parse config_file none = runtime_error (codes "Could not open configfile at " ++ config_file)
parse config_file (some lines) = batyr.Ini.parse lines >>= read_levels

-- `getOrderedLayers`, with `std::sort` as a parameter.
unfoldable pub get_ordered_layers :
    ((Layer → Layer → Bool) → List Layer → List Layer) → Configuration → List Layer
get_ordered_layers sort c = sort (λ l1 l2. text_lt l1.name l2.name) (map (λ e. e.1) c.layers)
