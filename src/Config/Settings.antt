-- ===== src/Config/Settings.antt =====
-- server/configuration.cpp: the values of single settings, and the sections that hold them.
use batyr.Prelude.{
  ℕ, suc, ◌-◌, ◌^◌, Bool, true, false, ◌||◌, List, [], ◌∷◌, ◌++◌, Option, none, some, Text, codes,
  cat, text_eq, ℤ, pos, negsuc, ltb_ℤ, if◌then◌else◌,
}
use batyr.Strings.{trim, tolower}
use batyr.Numbers.{stoi}
use batyr.Ini.{Result, runtime_error, done, ◌>>=◌}
use batyr.Config.{Configuration, LogLevel, error, warning, information}

-- `trimChars`.
abbrev pub trim_chars : Text
trim_chars = codes "'\"\r\n\t "

-- `throwUnknownSetting`.
unfoldable pub throw_unknown_setting : {A : Type 0} → Text → Text → Result A
throw_unknown_setting section_name setting_name = runtime_error (
    cat (
      codes "Unknown option \""
      ∷ setting_name
      ∷ codes "\" in section \""
      ∷ section_name
      ∷ codes "\""
      ∷ []))

-- `throwInvalidValue`.
unfoldable pub throw_invalid_value : {A : Type 0} → Text → Text → Text → Result A
throw_invalid_value section_name setting_name value = runtime_error (
    cat (
      codes "Invalid value for \""
      ∷ setting_name
      ∷ codes "\" in section \""
      ∷ section_name
      ∷ codes "\": \""
      ∷ value
      ∷ codes "\""
      ∷ []))

-- `valueToInt`; `none` stands for a false `ok`.
unfoldable pub value_to_int : Text → Option ℤ
value_to_int s = stoi (trim s trim_chars)

-- `valueToBool`; `none` stands for a false `ok`.
unfoldable pub bool_word : Text → Option Bool
bool_word s =
    if text_eq s (codes "true")
      || (text_eq s (codes "yes")
          || (text_eq s (codes "1") || (text_eq s (codes "y") || text_eq s (codes "t"))))
    then some true
    else if text_eq s (codes "false")
        || (text_eq s (codes "no")
            || (text_eq s (codes "0") || (text_eq s (codes "n") || text_eq s (codes "f"))))
    then some false
    else none

unfoldable pub value_to_bool : Text → Option Bool
unfolding bool_word
value_to_bool s = bool_word (tolower (trim s trim_chars))

unfoldable pub want_bool : Text → Option Bool → Result Bool
want_bool name none =
    runtime_error (name ++ codes " must be a boolean value (true,false,yes,no,1,0).")
want_bool name (some b) = done b

-- `GET_BOOLEAN_SETTING`.
unfoldable pub get_boolean_setting : Text → Text → Result Bool
unfolding want_bool
get_boolean_setting name value = want_bool name (value_to_bool value)

unfoldable pub want_int : Text → Text → Text → Option ℤ → Result ℤ
want_int section_name name value none = throw_invalid_value section_name name value
want_int section_name name value (some i) = done i

-- The conversion of an `int` to `unsigned int`.
abbrev pub to_unsigned : ℤ → ℕ
to_unsigned (pos n) = n
to_unsigned (negsuc n) = 2 ^ 32 - suc n

-- A loop over the entries of a map that changes a value.
unfoldable pub for_each : {A S : Type 0} → (A → S → Result S) → List A → S → Result S
for_each f [] s = done s
for_each f (a ∷ as_) s = f a s >>= for_each f as_

-- A setting of the section HTTP.
unfoldable pub http_setting : Text → Text × Text → Configuration → Result Configuration
unfolding want_int
http_setting section_name (key, value) c =
    if text_eq key (codes "port")
    then want_int section_name key value (value_to_int value)
      >>= (λ i. done (record c { http_port = to_unsigned i }))
    else if text_eq key (codes "access_control_allow_origin")
    then done (record c { access_control_allow_origin = trim value trim_chars })
    else throw_unknown_setting section_name key

unfoldable pub want_positive : Text → ℤ → Result ℕ
want_positive message i = if ltb_ℤ i (pos 1) then runtime_error message else done (to_unsigned i)

-- A setting of the section MAIN.
unfoldable pub main_setting : Text → Text × Text → Configuration → Result Configuration
unfolding want_int want_positive
main_setting section_name (key, value) c =
    if text_eq key (codes "num_worker_threads")
    then want_int section_name key value (value_to_int value) >>= (λ i.
      want_positive (codes "At least one worker thread is required.") i
      >>= (λ n. done (record c { num_worker_threads = n })))
    else if text_eq key (codes "max_age_done_jobs")
    then want_int section_name key value (value_to_int value) >>= (λ i.
      want_positive (codes "max_age_done_jobs must be a positive value.") i
      >>= (λ n. done (record c { max_age_done_jobs = n })))
    else if text_eq key (codes "dsn")
    then done (record c { db_connection_string = trim value trim_chars })
    else if text_eq key (codes "use_persistent_connections")
    then get_boolean_setting key value >>= (λ b. done (record c { use_persistent_connections = b }))
    else throw_unknown_setting section_name key

-- In a build without `_DEBUG`.
unfoldable pub level_word : Text → Text → Result LogLevel
level_word value s =
    if text_eq s (codes "error")
    then done error
    else if text_eq s (codes "warning")
    then done warning
    else if text_eq s (codes "information") || text_eq s (codes "debug")
    then done information
    else runtime_error (cat (codes "Unknown loglevel: \"" ∷ value ∷ codes "\"" ∷ []))

-- A setting of the section LOGGING.
unfoldable pub logging_setting : Text → Text × Text → Configuration → Result Configuration
unfolding level_word
logging_setting section_name (key, value) c =
    if text_eq key (codes "loglevel")
    then level_word value (tolower (trim value trim_chars))
      >>= (λ l. done (record c { loglevel = l }))
    else if text_eq key (codes "logfile")
    then done (record c { logfile = trim value trim_chars })
    else throw_unknown_setting section_name key
