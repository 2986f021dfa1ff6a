-- ===== src/Server/Served.antt =====
-- The program runs its broker with accepted configurations only.
use batyr.Prelude.{
  ◌≡◌, ◌≢◌, refl, Bool, true, false, List, [], ◌∷◌, Option, none, some, Text, if◌then◌else◌, if_lem,
}
use batyr.Ini.{Result, null_pointer, runtime_error, done}
use batyr.Ini.Ends.{Ends}
use batyr.Config.{Configuration}
use batyr.Config.Parse.{parse}
use batyr.Config.Valid.{IsAccepted, parse-IsAccepted}
use batyr.Server.{
  ExitCode, exit_ok, exit_usage, exit_software, Server, new_server, CommandOption, help, configfile,
  handle_help, handle_parsed, handle_configfile, handle_option, then_options, handle_options, Ended,
  init_logging, serve, main, and_then, program,
}

-- No null pointer was used, and P holds.
abbrev pub Safe : {A : Type 0} → (A → Type 0) → Option A → Type 0
Safe P none = ⊥
Safe P (some a) = P a

-- A configuration that there is was accepted.
abbrev AllAccepted : Option Configuration → Type 0
AllAccepted none = Unit
AllAccepted (some c) = IsAccepted c

-- `config_ok` says that there is a configuration.
abbrev HasConfiguration : Bool → Option Configuration → Type 0
HasConfiguration true none = ⊥
HasConfiguration true (some c) = Unit
HasConfiguration false o = Unit

abbrev IsReady : Server → Type 0
IsReady s = AllAccepted s.configuration × HasConfiguration s.config_ok s.configuration

handle_parsed-IsReady :
    (s : Server) (r : Result Configuration)
    → IsReady s
    → Ends IsAccepted r
    → Safe IsReady (handle_parsed s r)
unfolding handle_parsed
handle_parsed-IsReady s null_pointer ok e = e
handle_parsed-IsReady s (runtime_error m) ok e = (ok.0, tt)
handle_parsed-IsReady s (done c) ok e = (e, tt)

handle_option-IsReady :
    (files : Text → Option (List Text)) (o : CommandOption) (s : Server)
    → IsReady s
    → Safe IsReady (handle_option files o s)
unfolding handle_option handle_help handle_configfile
handle_option-IsReady files help s ok = ok
handle_option-IsReady files (configfile name) s ok =
    handle_parsed-IsReady s (parse name (files name)) ok (parse-IsAccepted name (files name))

then_options-IsReady :
    (rest : Server → Option Server) (s : Option Server)
    → ((t : Server) → IsReady t → Safe IsReady (rest t))
    → Safe IsReady s
    → Safe IsReady (then_options rest s)
unfolding then_options
then_options-IsReady rest none h ok = ok
then_options-IsReady rest (some s) h ok =
    if_lem (Safe IsReady) s.stopped (some s) (rest s) (λ e. ok) (λ e. h s ok)

handle_options-IsReady :
    (files : Text → Option (List Text)) (options : List CommandOption) (s : Server)
    → IsReady s
    → Safe IsReady (handle_options files options s)
unfolding handle_options
handle_options-IsReady files [] s ok = ok
handle_options-IsReady files (o ∷ options) s ok =
    then_options-IsReady (handle_options files options) (handle_option files o s)
      (handle_options-IsReady files options) (handle_option-IsReady files o s ok)

module _ (can_open : Text → Bool) (run_broker : Configuration → Bool) where
  -- The broker ran with an accepted configuration for which logging could be set up, and the code says
  -- whether an exception ended it; or it did not run, and the code is not the one for an exception.
  abbrev ServedAs : ExitCode → Option Configuration → Type 0
  ServedAs code none = code ≢ exit_software
  ServedAs code (some c) =
      IsAccepted c
      × (init_logging can_open c ≡ true)
      × (code ≡ (if run_broker c then exit_ok else exit_software))

  abbrev pub IsServed : Ended → Type 0
  IsServed e = ServedAs e.code e.served

  serve-IsServed :
      (c : Configuration) → IsAccepted c → Safe IsServed (serve can_open run_broker (some c))
  unfolding serve
  serve-IsServed c ok =
      if_lem IsServed (init_logging can_open c)
        (record { code = if run_broker c then exit_ok else exit_software; served = some c })
        (record { code = exit_usage; served = none }) (λ e. (ok, e, refl)) (λ e h. cc h)

  ready-IsServed :
      (o : Option Configuration)
      → AllAccepted o
      → HasConfiguration true o
      → Safe IsServed (serve can_open run_broker o)
  ready-IsServed none ok has = absurd has
  ready-IsServed (some c) ok has = serve-IsServed c ok

  main-IsServed : (s : Server) → IsReady s → Safe IsServed (main can_open run_broker s)
  unfolding main
  main-IsServed s ok =
      if_lem (Safe IsServed) s.help_requested _ _ (λ e h. cc h)
        (λ e.
          if_lem (Safe IsServed) s.config_ok _ _
            (λ set. ready-IsServed s.configuration ok.0 (rw set at ok.1)) (λ unset h. cc h))

  then-IsServed :
      (s : Option Server) → Safe IsReady s → Safe IsServed (and_then (main can_open run_broker) s)
  unfolding and_then
  then-IsServed none ok = ok
  then-IsServed (some s) ok = main-IsServed s ok

  -- Whatever options are given and whatever the files hold, the program uses no null pointer. The
  -- broker runs only with a configuration that `parse` has accepted and for which logging could be set
  -- up, and then the program ends with EXIT_OK, or with EXIT_SOFTWARE where an exception ended the
  -- broker; it never ends with EXIT_SOFTWARE otherwise.
  pub program-IsServed :
      (files : Text → Option (List Text)) (options : List CommandOption)
      → Safe IsServed (program files can_open run_broker options)
  unfolding program
  program-IsServed files options =
      then-IsServed (handle_options files options new_server)
        (handle_options-IsReady files options new_server (tt, tt))
