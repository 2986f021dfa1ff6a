-- ===== src/Config/Valid.antt =====
-- server/configuration.cpp: what holds of every configuration that `parse` accepts.
pub mod Layers
pub mod Values
use batyr.Prelude.{
  ℕ, ◌^◌, ◌<◌, ◌≤◌, ◌≡◌, ◌≢◌, refl, ap, true, List, [], ◌∷◌, Option, none, some, Text, codes,
  text_eq, is_empty, ℤ, pos, negsuc, if_lem, All, Option-cases, inl, inr, arith,
}
use batyr.Strings.{trim, tolower}
use batyr.Numbers.{stoi, IsInt, stoi-IsInt}
use batyr.Maps.{insert, All-insert}
use batyr.Ini.{Level, Store, Parser, top, Result, null_pointer, runtime_error, done, ◌>>=◌}
use batyr.Ini.Tree.{IsParser}
use batyr.Ini.Ends.{Ends, Ends-bind, Ends-if}
use batyr.Ini.Levels.{parse-IsParser}
use batyr.Config.{Layer, new_layer, Configuration}
use batyr.Config.Settings.{
  trim_chars, throw_unknown_setting, throw_invalid_value, get_boolean_setting, want_bool,
  value_to_bool, want_int, value_to_int, to_unsigned, for_each, http_setting, want_positive,
  main_setting, level_word, logging_setting,
}
use batyr.Config.Layers.{
  bulk_word, layer_switch, layer_setting, check_layer_setting, check_layer, store_layer,
  layer_section,
}
use batyr.Config.Parse.{new_configuration, section, check_dsn, read_levels, parse}
use batyr.Config.Valid.Layers.{Ends-for_each, IsComplete, layer_setting_lem, check_layer_lem}
use batyr.Config.Valid.Values.{
  IsUsable, IsWithin, http_setting_lem, main_setting_lem, logging_setting_lem,
}

store_layer_lem :
    (c : Configuration) (l : Layer) → IsWithin c → IsComplete l → IsWithin (store_layer c l)
unfolding store_layer
store_layer_lem c l ok complete =
    if_lem IsWithin l.enabled (record c { layers = insert l.name l c.layers }) c
      (λ on. (
        ok.0,
        ok.1,
        ok.2,
        ok.3,
        ok.4,
        All-insert IsUsable l.name l c.layers ok.5
            (record { named = refl; is_enabled = on; complete = complete }),
      ))
      (λ off. ok)

layer_section_lem :
    (levels : ℕ → Level) (e : Text × ℕ) (c : Configuration)
    → IsWithin c
    → Ends IsWithin (layer_section levels e c)
unfolding layer_section
layer_section_lem levels (name, a) c ok =
    Ends-bind (λ l. l.name ≡ name) IsWithin
      (for_each (layer_setting name) (levels a).values (new_layer name)) _
      (Ends-for_each (λ l. l.name ≡ name) (layer_setting name) (layer_setting_lem name name)
        (levels a).values (new_layer name) refl)
      (λ l named.
        Ends-bind (λ m. (m.name ≡ name) × IsComplete m) IsWithin (check_layer l) _
          (check_layer_lem name l named) (λ m h. store_layer_lem c m ok h.1))

section_lem :
    (levels : ℕ → Level) (e : Text × ℕ) (c : Configuration)
    → IsWithin c
    → Ends IsWithin (section levels e c)
unfolding section
section_lem levels (name, a) c ok =
    Ends-if IsWithin (text_eq name (codes "HTTP")) _ _
      (λ h.
        Ends-for_each IsWithin (http_setting name) (http_setting_lem name) (levels a).values c ok)
      (λ h.
        Ends-if IsWithin (text_eq name (codes "MAIN")) _ _
          (λ h.
            Ends-for_each IsWithin (main_setting name) (main_setting_lem name) (levels a).values c
              ok)
          (λ h.
            Ends-if IsWithin (text_eq name (codes "LAYERS")) _ _
              (λ h.
                Ends-for_each IsWithin (layer_section levels) (layer_section_lem levels)
                  (levels a).sections c ok)
              (λ h.
                Ends-if IsWithin (text_eq name (codes "LOGGING")) _ _
                  (λ h.
                    Ends-for_each IsWithin (logging_setting name) (logging_setting_lem name)
                      (levels a).values c ok)
                  (λ h. tt))))

abbrev pub IsAccepted : Configuration → Type 0
IsAccepted c = IsWithin c × (c.db_connection_string ≢ [])

check_dsn_lem : (c : Configuration) → IsWithin c → Ends IsAccepted (check_dsn c)
unfolding check_dsn
check_dsn_lem c ok =
    Ends-if IsAccepted (is_empty c.db_connection_string) _ (done c) (λ e. tt)
      (λ given. (ok, λ e. cc (ap is_empty e, given)))

read_levels_lem : (p : Parser) → Ends IsAccepted (read_levels p)
unfolding read_levels
read_levels_lem p =
    Ends-bind IsWithin IsAccepted
      (for_each (section p.store.level) (p.store.level top).sections new_configuration) check_dsn
      (Ends-for_each IsWithin (section p.store.level) (section_lem p.store.level)
        (p.store.level top).sections new_configuration
        (omega arith, omega arith, omega arith, omega arith, omega arith, tt))
      check_dsn_lem

-- Whatever lines the configuration file has, `Configuration` is constructed or a
-- `ConfigurationError` is thrown, no null pointer is met. A configuration that is constructed has a
-- connection string, from 1 to 2^31 - 1 worker threads, a maximum age from 1 to 2^31 - 1, a port
-- below 2^32, and layers that are each enabled, stored under its own name, and have a source, a
-- source layer, a table name and a table schema that are not empty.
pub parse-IsAccepted :
    (config_file : Text) (lines : Option (List Text)) → Ends IsAccepted (parse config_file lines)
unfolding parse
parse-IsAccepted config_file none = tt
parse-IsAccepted config_file (some lines) =
    Ends-bind IsParser IsAccepted (batyr.Ini.parse lines) read_levels (parse-IsParser lines)
      (λ p ok. read_levels_lem p)
