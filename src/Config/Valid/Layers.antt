-- ===== src/Config/Valid/Layers.antt =====
-- server/configuration.cpp: what every layer satisfies whose settings are accepted.
use batyr.Prelude.{◌≡◌, ◌≢◌, List, [], ◌∷◌, Text, codes, text_eq, Option-cases, inl, inr, arith}
use batyr.Strings.{trim, tolower}
use batyr.Ini.{Result, done, ◌>>=◌}
use batyr.Ini.Ends.{Ends, Ends-bind, Ends-if}
use batyr.Config.{Layer}
use batyr.Config.Settings.{
  trim_chars, throw_unknown_setting, get_boolean_setting, want_bool, value_to_bool, for_each,
}
use batyr.Config.Layers.{bulk_word, layer_switch, layer_setting, check_layer_setting, check_layer}

pub Ends-for_each :
    {A S : Type 0} (P : S → Type 0) (f : A → S → Result S)
    → ((a : A) (s : S) → P s → Ends P (f a s))
    → (as_ : List A) (s : S) → P s
    → Ends P (for_each f as_ s)
unfolding for_each
Ends-for_each P f step [] s h = h
Ends-for_each P f step (a ∷ as_) s h =
    Ends-bind P P (f a s) (for_each f as_) (step a s h) (Ends-for_each P f step as_)

-- The settings that a layer must have are there.
pub record IsComplete (l : Layer) : Type 0 where
  pub has_source : l.source ≢ []
  pub has_source_layer : l.source_layer ≢ []
  pub has_table_name : l.target_table_name ≢ []
  pub has_table_schema : l.target_table_schema ≢ []

pub get_boolean_setting_lem :
    (key value : Text) → Ends (λ b. Unit {0}) (get_boolean_setting key value)
unfolding get_boolean_setting want_bool
get_boolean_setting_lem key value = elim (Option-cases (value_to_bool value)) [
  | inl e ↦ rw e tt
  | inr (b, e) ↦ rw e tt
]

-- The settings of a layer leave its name.
named_Ends :
    {A : Type 0} (name : Text) (r : Result A) (k : A → Layer)
    → Ends (λ a. Unit {0}) r
    → ((a : A) → (k a).name ≡ name)
    → Ends (λ l. l.name ≡ name) (r >>= (λ a. done (k a)))
named_Ends name r k ends keeps =
    Ends-bind (λ a. Unit {0}) (λ l. l.name ≡ name) r (λ a. done (k a)) ends (λ a any. keeps a)

bulk_word_lem : (value s : Text) → Ends (λ m. Unit {0}) (bulk_word value s)
unfolding bulk_word
bulk_word_lem value s = ground arith

layer_switch_lem :
    (name section_name key value : Text) (l : Layer)
    → l.name ≡ name
    → Ends (λ l. l.name ≡ name) (layer_switch section_name key value l)
unfolding layer_switch throw_unknown_setting
layer_switch_lem name section_name key value l e =
    let P = λ (l : Layer). l.name ≡ name in
    let bool = get_boolean_setting_lem key value in
    Ends-if P (text_eq key (codes "allow_feature_deletion")) _ _
      (λ h. named_Ends name _ _ bool (λ b. e))
      (λ h.
        Ends-if P (text_eq key (codes "ignore_failures")) _ _
          (λ h. named_Ends name _ _ bool (λ b. e))
          (λ h.
            Ends-if P (text_eq key (codes "enabled")) _ _ (λ h. named_Ends name _ _ bool (λ b. e))
              (λ h.
                Ends-if P (text_eq key (codes "primary_key_columns")) _ _ (λ h. e)
                  (λ h.
                    Ends-if P (text_eq key (codes "bulk_mode")) _ _
                      (λ h. named_Ends name _ _ bool (λ b. e))
                      (λ h.
                        Ends-if P (text_eq key (codes "bulk_delete_method")) _ _
                          (λ h.
                            named_Ends name _ _
                              (bulk_word_lem value (tolower (trim value trim_chars))) (λ b. e))
                          (λ h. tt))))))

pub layer_setting_lem :
    (name section_name : Text) (v : Text × Text) (l : Layer)
    → l.name ≡ name
    → Ends (λ l. l.name ≡ name) (layer_setting section_name v l)
unfolding layer_setting
layer_setting_lem name section_name (key, value) l e =
    let P = λ (l : Layer). l.name ≡ name in
    Ends-if P (text_eq key (codes "description")) _ _ (λ h. e)
      (λ h.
        Ends-if P (text_eq key (codes "source")) _ _ (λ h. e)
          (λ h.
            Ends-if P (text_eq key (codes "source_layer")) _ _ (λ h. e)
              (λ h.
                Ends-if P (text_eq key (codes "target_table_schema")) _ _ (λ h. e)
                  (λ h.
                    Ends-if P (text_eq key (codes "target_table_name")) _ _ (λ h. e)
                      (λ h.
                        Ends-if P (text_eq key (codes "filter")) _ _ (λ h. e)
                          (λ h. layer_switch_lem name section_name key value l e))))))

-- What comes after a check may rely on it.
check_then :
    {B : Type 0} (P : B → Type 0) (l : Layer) (value setting : Text) (k : Layer → Result B)
    → (value ≢ [] → Ends P (k l))
    → Ends P (check_layer_setting l value setting >>= k)
unfolding check_layer_setting
check_then P l [] setting k f = tt
check_then P l (c ∷ cs) setting k f = f (λ e. cc e)

check_last :
    (P : Layer → Type 0) (l : Layer) (value setting : Text)
    → (value ≢ [] → P l)
    → Ends P (check_layer_setting l value setting)
unfolding check_layer_setting
check_last P l [] setting f = tt
check_last P l (c ∷ cs) setting f = f (λ e. cc e)

pub check_layer_lem :
    (name : Text) (l : Layer)
    → l.name ≡ name
    → Ends (λ m. (m.name ≡ name) × IsComplete m) (check_layer l)
unfolding check_layer
check_layer_lem name l e =
    let P = λ (m : Layer). (m.name ≡ name) × IsComplete m in
    let schema =
      λ (m : Layer). check_layer_setting m m.target_table_schema (codes "target_table_schema") in
    let table = λ (m : Layer).
      check_layer_setting m m.target_table_name (codes "target_table_name") >>= schema in
    let ogr_layer =
      λ (m : Layer). check_layer_setting m m.source_layer (codes "source_layer") >>= table in
    check_then P l l.source (codes "source") ogr_layer (λ s.
      check_then P l l.source_layer (codes "source_layer") table (λ o.
        check_then P l l.target_table_name (codes "target_table_name") schema (λ t.
          check_last P l l.target_table_schema (codes "target_table_schema") (λ u. (
            e,
            record {
              has_source = s;
              has_source_layer = o;
              has_table_name = t;
              has_table_schema = u;
            },
          )))))
