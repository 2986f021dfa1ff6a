-- ===== src/Server.antt =====
-- server/server.cpp: the command line, the configuration, and what the program ends with. Poco calls
-- the handlers of the options in their order until one stops the processing, and then `main`.
pub mod Served
use batyr.Prelude.{
  Bool, true, false, List, [], ◌∷◌, Option, none, some, Text, is_empty, if◌then◌else◌,
}
use batyr.Ini.{Result, null_pointer, runtime_error, done}
use batyr.Config.{Configuration}
use batyr.Config.Parse.{parse}

-- `EXIT_OK`, `EXIT_USAGE` and `EXIT_SOFTWARE`.
pub data ExitCode : Type 0 where
  exit_ok exit_usage exit_software : ExitCode

-- The members of `Server`, and whether `stopOptionsProcessing` was called. `configuration` is `none`
-- where the pointer is null.
pub record Server : Type 0 where
  pub help_requested : Bool
  pub config_ok : Bool
  pub configuration : Option Configuration
  pub stopped : Bool

abbrev pub new_server : Server
new_server = record {
  help_requested = false;
  config_ok = false;
  configuration = none;
  stopped = false;
}

pub data CommandOption : Type 0 where
  help : CommandOption
  configfile : Text → CommandOption

unfoldable pub handle_help : Server → Server
handle_help s = record s { help_requested = true; stopped = true }

-- `none` is the use of a null pointer.
unfoldable pub handle_parsed : Server → Result Configuration → Option Server
handle_parsed s null_pointer = none
handle_parsed s (runtime_error m) = some (record s { config_ok = false; stopped = true })
handle_parsed s (done c) = some (record s { configuration = some c; config_ok = true })

-- `files` gives the lines of a file that can be opened.
unfoldable pub handle_configfile : (Text → Option (List Text)) → Text → Server → Option Server
unfolding handle_parsed
handle_configfile files name s = handle_parsed s (parse name (files name))

unfoldable pub handle_option : (Text → Option (List Text)) → CommandOption → Server → Option Server
unfolding handle_help handle_configfile
handle_option files help s = some (handle_help s)
handle_option files (configfile name) s = handle_configfile files name s

unfoldable pub then_options : (Server → Option Server) → Option Server → Option Server
then_options rest none = none
then_options rest (some s) = if s.stopped then some s else rest s

unfoldable pub handle_options :
    (Text → Option (List Text)) → List CommandOption → Server → Option Server
unfolding then_options handle_option
handle_options files [] s = some s
handle_options files (o ∷ options) s =
    then_options (handle_options files options) (handle_option files o s)

-- What the program ends with, and the configuration with which it has run the broker, if it has.
pub record Ended : Type 0 where
  pub code : ExitCode
  pub served : Option Configuration

-- `initLogging`; `can_open` tells whether the log file can be opened.
unfoldable pub init_logging : (Text → Bool) → Configuration → Bool
init_logging can_open c = if is_empty c.logfile then true else can_open c.logfile

-- The rest of `main`, with the members that it looks at. `run_broker` tells whether the broker and its
-- listener run and stop without an exception.
unfoldable pub serve : (Text → Bool) → (Configuration → Bool) → Option Configuration → Option Ended
unfolding init_logging
serve can_open run_broker none = none
serve can_open run_broker (some c) = some (
    if init_logging can_open c
    then record { code = if run_broker c then exit_ok else exit_software; served = some c }
    else record { code = exit_usage; served = none })

unfoldable pub main : (Text → Bool) → (Configuration → Bool) → Server → Option Ended
unfolding serve
main can_open run_broker s =
    if s.help_requested
    then some (record { code = exit_ok; served = none })
    else if s.config_ok
    then serve can_open run_broker s.configuration
    else some (record { code = exit_usage; served = none })

and_then : (Server → Option Ended) → Option Server → Option Ended
and_then k none = none
and_then k (some s) = k s

-- The program: the handlers of the options, and `main`.
unfoldable pub program :
    (Text → Option (List Text))
    → (Text → Bool)
    → (Configuration → Bool)
    → List CommandOption
    → Option Ended
unfolding main handle_options and_then
program files can_open run_broker options =
    and_then (main can_open run_broker) (handle_options files options new_server)
