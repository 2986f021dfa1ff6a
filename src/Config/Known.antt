-- ===== src/Config/Known.antt =====
-- server/configuration.cpp: the sections and settings that the parser of the configuration looks at.
use batyr.Prelude.{
  ℕ, ◌≡◌, refl, Bool, true, false, ◌||◌, List, [], ◌∷◌, Text, codes, text_eq, text_eq_iff, if_lem,
  All, Bool-cases, inl, inr, arith,
}
use batyr.Ini.{Level, Parser, top, Result, null_pointer, runtime_error, done, ◌>>=◌}
use batyr.Config.{Layer, new_layer, Configuration}
use batyr.Config.Settings.{
  throw_unknown_setting, http_setting, main_setting, logging_setting, for_each,
}
use batyr.Config.Layers.{layer_switch, layer_setting, layer_section}
use batyr.Config.Parse.{new_configuration, section, check_dsn, read_levels}

-- One of the words.
abbrev pub among : List Text → Text → Bool
among [] s = false
among (w ∷ ws) s = text_eq s w || among ws s

abbrev IsKnown : List Text → Text × Text → Type 0
IsKnown words e = among words e.0 ≡ true

abbrev http_keys : List Text
http_keys = codes "port" ∷ codes "access_control_allow_origin" ∷ []

abbrev main_keys : List Text
main_keys =
    codes "num_worker_threads"
    ∷ codes "max_age_done_jobs"
    ∷ codes "dsn"
    ∷ codes "use_persistent_connections"
    ∷ []

abbrev logging_keys : List Text
logging_keys = codes "loglevel" ∷ codes "logfile" ∷ []

abbrev layer_keys : List Text
layer_keys =
    codes "description"
    ∷ codes "source"
    ∷ codes "source_layer"
    ∷ codes "target_table_schema"
    ∷ codes "target_table_name"
    ∷ codes "filter"
    ∷ codes "allow_feature_deletion"
    ∷ codes "ignore_failures"
    ∷ codes "enabled"
    ∷ codes "primary_key_columns"
    ∷ codes "bulk_mode"
    ∷ codes "bulk_delete_method"
    ∷ []

-- A section that the program knows. All settings directly in it are known, or, for LAYERS, all
-- settings directly in each of its sections.
pub data IsKnownSection (levels : ℕ → Level) (e : Text × ℕ) : Type 0 where
  http : e.0 ≡ codes "HTTP" → All (IsKnown http_keys) (levels e.1).values → IsKnownSection levels e
  main : e.0 ≡ codes "MAIN" → All (IsKnown main_keys) (levels e.1).values → IsKnownSection levels e
  layers :
      e.0 ≡ codes "LAYERS"
      → All (λ l. All (IsKnown layer_keys) (levels l.1).values) (levels e.1).sections
      → IsKnownSection levels e
  logging :
      e.0 ≡ codes "LOGGING"
      → All (IsKnown logging_keys) (levels e.1).values
      → IsKnownSection levels e

-- What the rounds that end well show of their entries holds of all where the loop ends well.
round-All :
    {A S : Type 0} (K : A → Type 0) (f : A → S → Result S)
    → ((a : A) (s t : S) → f a s ≡ done t → K a)
    → (a : A) (as_ : List A) (s r : S) (x : Result S) → f a s ≡ x
    → (x >>= for_each f as_) ≡ done r
    → ((t : S) → for_each f as_ t ≡ done r → All K as_)
    → All K (a ∷ as_)
round-All K f step a as_ s r null_pointer e h ih = absurd (cc h)
round-All K f step a as_ s r (runtime_error m) e h ih = absurd (cc h)
round-All K f step a as_ s r (done t) e h ih = (step a s t e, ih t h)

for_each-All :
    {A S : Type 0} (K : A → Type 0) (f : A → S → Result S)
    → ((a : A) (s t : S) → f a s ≡ done t → K a)
    → (as_ : List A) (s r : S) → for_each f as_ s ≡ done r
    → All K as_
unfolding for_each
for_each-All K f step [] s r e = tt
for_each-All K f step (a ∷ as_) s r e =
    round-All K f step a as_ s r (f a s) refl e (λ t h. for_each-All K f step as_ t r h)

http_setting-IsKnown :
    (section_name : Text) (e : Text × Text) (c t : Configuration)
    → http_setting section_name e c ≡ done t
    → IsKnown http_keys e
unfolding http_setting throw_unknown_setting
http_setting-IsKnown section_name (key, value) c t e = elim (Bool-cases (among http_keys key)) [
  | inl known ↦ known
  | inr new ↦ ground (arith, e, new)
]

main_setting-IsKnown :
    (section_name : Text) (e : Text × Text) (c t : Configuration)
    → main_setting section_name e c ≡ done t
    → IsKnown main_keys e
unfolding main_setting throw_unknown_setting
main_setting-IsKnown section_name (key, value) c t e = elim (Bool-cases (among main_keys key)) [
  | inl known ↦ known
  | inr new ↦ ground (arith, e, new)
]

logging_setting-IsKnown :
    (section_name : Text) (e : Text × Text) (c t : Configuration)
    → logging_setting section_name e c ≡ done t
    → IsKnown logging_keys e
unfolding logging_setting throw_unknown_setting
logging_setting-IsKnown section_name (key, value) c t e =
    elim (Bool-cases (among logging_keys key)) [
      | inl known ↦ known
      | inr new ↦ ground (arith, e, new)
    ]

layer_setting-IsKnown :
    (section_name : Text) (e : Text × Text) (l t : Layer)
    → layer_setting section_name e l ≡ done t
    → IsKnown layer_keys e
unfolding layer_setting layer_switch throw_unknown_setting
layer_setting-IsKnown section_name (key, value) l t e = elim (Bool-cases (among layer_keys key)) [
  | inl known ↦ known
  | inr new ↦ ground (arith, e, new)
]

-- The first part of a chain that ends well has ended well.
bind_done :
    {A B : Type 0} (r : Result A) (k : A → Result B) (b : B)
    → (r >>= k) ≡ done b
    → (a : A) × (r ≡ done a)
bind_done null_pointer k b e = absurd (cc e)
bind_done (runtime_error m) k b e = absurd (cc e)
bind_done (done a) k b e = (a, refl)

layer_section-IsKnown :
    (levels : ℕ → Level) (e : Text × ℕ) (c t : Configuration)
    → layer_section levels e c ≡ done t
    → All (IsKnown layer_keys) (levels e.1).values
unfolding layer_section
layer_section-IsKnown levels (name, a) c t e =
    let (l, read) =
      bind_done (for_each (layer_setting name) (levels a).values (new_layer name)) _ t e in
    for_each-All (IsKnown layer_keys) (layer_setting name) (layer_setting-IsKnown name)
      (levels a).values (new_layer name) l read

section-IsKnownSection :
    (levels : ℕ → Level) (e : Text × ℕ) (c t : Configuration)
    → section levels e c ≡ done t
    → IsKnownSection levels e
unfolding section
section-IsKnownSection levels (name, a) c t =
    let P = λ (r : Result Configuration). r ≡ done t → IsKnownSection levels (name, a) in
    let is = λ (w : Text). text_eq_iff name w in
    if_lem P (text_eq name (codes "HTTP")) _ _
      (λ h e. IsKnownSection.http ((is (codes "HTTP")).0 h) (
        for_each-All (IsKnown http_keys) (http_setting name) (http_setting-IsKnown name)
          (levels a).values c t e))
      (λ h.
        if_lem P (text_eq name (codes "MAIN")) _ _
          (λ h e. IsKnownSection.main ((is (codes "MAIN")).0 h) (
            for_each-All (IsKnown main_keys) (main_setting name) (main_setting-IsKnown name)
              (levels a).values c t e))
          (λ h.
            if_lem P (text_eq name (codes "LAYERS")) _ _
              (λ h e. IsKnownSection.layers ((is (codes "LAYERS")).0 h) (
                for_each-All (λ l. All (IsKnown layer_keys) (levels l.1).values)
                  (layer_section levels) (layer_section-IsKnown levels) (levels a).sections c t e))
              (λ h.
                if_lem P (text_eq name (codes "LOGGING")) _ _
                  (λ h e. IsKnownSection.logging ((is (codes "LOGGING")).0 h) (
                    for_each-All (IsKnown logging_keys) (logging_setting name)
                      (logging_setting-IsKnown name) (levels a).values c t e))
                  (λ h e. absurd (cc e)))))

-- Where the levels of a file become a configuration, every section of the top level is HTTP, MAIN,
-- LAYERS or LOGGING; every setting directly in HTTP, MAIN or LOGGING is one of those that the program
-- knows for that section, and every setting directly in a section of LAYERS is one that it knows for a
-- layer. Nothing is said of settings of the top level, of settings directly in LAYERS and of sections
-- that are nested deeper.
pub read_levels-IsKnownSection :
    (p : Parser) (c : Configuration)
    → read_levels p ≡ done c
    → All (IsKnownSection p.store.level) (p.store.level top).sections
unfolding read_levels
read_levels-IsKnownSection p c e =
    let (d, read) =
      bind_done (for_each (section p.store.level) (p.store.level top).sections new_configuration)
        check_dsn c e in
    for_each-All (IsKnownSection p.store.level) (section p.store.level)
      (section-IsKnownSection p.store.level) (p.store.level top).sections new_configuration d read
