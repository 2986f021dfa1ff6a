-- ===== src/Config/Valid/Values.antt =====
-- server/configuration.cpp: the numbers that are read are in their ranges.
use batyr.Prelude.{
  ℕ, ◌^◌, ◌<◌, ◌≤◌, ◌≡◌, true, Text, codes, text_eq, ℤ, pos, negsuc, All, Option-cases, inl, inr,
  arith,
}
use batyr.Strings.{trim, tolower}
use batyr.Numbers.{stoi, IsInt, stoi-IsInt}
use batyr.Ini.{Result, ◌>>=◌}
use batyr.Ini.Ends.{Ends, Ends-bind, Ends-if}
use batyr.Config.{Layer, Configuration}
use batyr.Config.Settings.{
  trim_chars, throw_unknown_setting, throw_invalid_value, get_boolean_setting, want_int,
  value_to_int, to_unsigned, http_setting, want_positive, main_setting, level_word, logging_setting,
}
use batyr.Config.Valid.Layers.{IsComplete, get_boolean_setting_lem}

-- A layer that a pull can use, under its name.
pub record IsUsable (e : Text × Layer) : Type 0 where
  pub named : e.0 ≡ e.1.name
  pub is_enabled : e.1.enabled ≡ true
  pub complete : IsComplete e.1

-- The numbers are in their ranges, and the layers can be used.
abbrev pub IsWithin : Configuration → Type 0
IsWithin c =
    (c.http_port < 2 ^ 32)
    × (1 ≤ c.num_worker_threads)
    × (c.num_worker_threads < 2 ^ 31)
    × (1 ≤ c.max_age_done_jobs)
    × (c.max_age_done_jobs < 2 ^ 31)
    × All IsUsable c.layers

to_unsigned_lem : (i : ℤ) → IsInt i → to_unsigned i < 2 ^ 32
to_unsigned_lem (pos n) h = omega arith
to_unsigned_lem (negsuc n) h = omega arith

want_positive_lem :
    (message : Text) (i : ℤ)
    → IsInt i
    → Ends (λ n. (1 ≤ n) × (n < 2 ^ 31)) (want_positive message i)
unfolding want_positive
want_positive_lem message (pos n) h = ground arith
want_positive_lem message (negsuc n) h = ground arith

want_int_lem :
    (section_name key value : Text)
    → Ends IsInt (want_int section_name key value (value_to_int value))
unfolding want_int value_to_int throw_invalid_value
want_int_lem section_name key value = elim (Option-cases (stoi (trim value trim_chars))) [
  | inl e ↦ rw e tt
  | inr (i, e) ↦ rw e (stoi-IsInt (trim value trim_chars) i e)
]

pub http_setting_lem :
    (section_name : Text) (e : Text × Text) (c : Configuration)
    → IsWithin c
    → Ends IsWithin (http_setting section_name e c)
unfolding http_setting throw_unknown_setting
http_setting_lem section_name (key, value) c ok =
    Ends-if IsWithin (text_eq key (codes "port")) _ _
      (λ h.
        Ends-bind IsInt IsWithin (want_int section_name key value (value_to_int value)) _
          (want_int_lem section_name key value)
          (λ i within. (to_unsigned_lem i within, ok.1, ok.2, ok.3, ok.4, ok.5)))
      (λ h.
        Ends-if IsWithin (text_eq key (codes "access_control_allow_origin")) _ _ (λ k. ok)
          (λ k. tt))

positive_lem :
    (section_name key value message : Text) (k : ℕ → Result Configuration)
    → ((n : ℕ) → (1 ≤ n) × (n < 2 ^ 31) → Ends IsWithin (k n))
    → Ends IsWithin (
        want_int section_name key value (value_to_int value)
        >>= (λ i. want_positive message i >>= k))
positive_lem section_name key value message k next =
    Ends-bind IsInt IsWithin (want_int section_name key value (value_to_int value)) _
      (want_int_lem section_name key value)
      (λ i within.
        Ends-bind (λ n. (1 ≤ n) × (n < 2 ^ 31)) IsWithin (want_positive message i) k
          (want_positive_lem message i within) next)

pub main_setting_lem :
    (section_name : Text) (e : Text × Text) (c : Configuration)
    → IsWithin c
    → Ends IsWithin (main_setting section_name e c)
unfolding main_setting throw_unknown_setting
main_setting_lem section_name (key, value) c ok =
    Ends-if IsWithin (text_eq key (codes "num_worker_threads")) _ _
      (λ h.
        positive_lem section_name key value (codes "At least one worker thread is required.") _
          (λ n range. (ok.0, range.0, range.1, ok.3, ok.4, ok.5)))
      (λ h.
        Ends-if IsWithin (text_eq key (codes "max_age_done_jobs")) _ _
          (λ k.
            positive_lem section_name key value
              (codes "max_age_done_jobs must be a positive value.") _
              (λ n range. (ok.0, ok.1, ok.2, range.0, range.1, ok.5)))
          (λ k.
            Ends-if IsWithin (text_eq key (codes "dsn")) _ _ (λ d. ok)
              (λ d.
                Ends-if IsWithin (text_eq key (codes "use_persistent_connections")) _ _
                  (λ u.
                    Ends-bind (λ b. Unit {0}) IsWithin (get_boolean_setting key value) _
                      (get_boolean_setting_lem key value) (λ b any. ok))
                  (λ u. tt))))

level_word_lem : (value s : Text) → Ends (λ l. Unit {0}) (level_word value s)
unfolding level_word
level_word_lem value s = ground arith

pub logging_setting_lem :
    (section_name : Text) (e : Text × Text) (c : Configuration)
    → IsWithin c
    → Ends IsWithin (logging_setting section_name e c)
unfolding logging_setting throw_unknown_setting
logging_setting_lem section_name (key, value) c ok =
    Ends-if IsWithin (text_eq key (codes "loglevel")) _ _
      (λ h.
        Ends-bind (λ l. Unit {0}) IsWithin (level_word value (tolower (trim value trim_chars))) _
          (level_word_lem value (tolower (trim value trim_chars))) (λ l any. ok))
      (λ h. Ends-if IsWithin (text_eq key (codes "logfile")) _ _ (λ k. ok) (λ k. tt))
