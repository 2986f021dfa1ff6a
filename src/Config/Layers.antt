-- ===== src/Config/Layers.antt =====
-- server/configuration.cpp: the section LAYERS.
use batyr.Prelude.{ℕ, List, [], ◌∷◌, ◌++◌, Text, codes, cat, text_eq, is_empty, if◌then◌else◌}
use batyr.Strings.{trim, tolower, split}
use batyr.Maps.{insert}
use batyr.Ini.{Level, Result, runtime_error, done, ◌>>=◌}
use batyr.Config.{Layer, new_layer, Configuration, BulkDeleteMethod, bulk_delete, bulk_truncate}
use batyr.Config.Settings.{trim_chars, throw_unknown_setting, get_boolean_setting, for_each}

-- The columns of a list, without the empty ones.
unfoldable pub key_columns : List Text → List Text
key_columns [] = []
key_columns (c ∷ cs) =
    let trimmed = trim c trim_chars in
    if is_empty trimmed then key_columns cs else trimmed ∷ key_columns cs

unfoldable pub bulk_word : Text → Text → Result BulkDeleteMethod
bulk_word value s =
    if text_eq s (codes "delete")
    then done bulk_delete
    else if text_eq s (codes "truncate")
    then done bulk_truncate
    else runtime_error (cat (codes "Unknown bulk delete method: \"" ∷ value ∷ codes "\"" ∷ []))

-- The settings of a layer that are truth values, and those after them.
unfoldable pub layer_switch : Text → Text → Text → Layer → Result Layer
unfolding key_columns bulk_word
layer_switch section_name key value l =
    if text_eq key (codes "allow_feature_deletion")
    then get_boolean_setting key value >>= (λ b. done (record l { allow_feature_deletion = b }))
    else if text_eq key (codes "ignore_failures")
    then get_boolean_setting key value >>= (λ b. done (record l { ignore_failures = b }))
    else if text_eq key (codes "enabled")
    then get_boolean_setting key value >>= (λ b. done (record l { enabled = b }))
    else if text_eq key (codes "primary_key_columns")
    then done
        (record l { primary_key_columns = l.primary_key_columns ++ key_columns (split value b',') })
    else if text_eq key (codes "bulk_mode")
    then get_boolean_setting key value >>= (λ b. done (record l { bulk_mode = b }))
    else if text_eq key (codes "bulk_delete_method")
    then bulk_word value (tolower (trim value trim_chars))
      >>= (λ m. done (record l { bulk_delete_method = m }))
    else throw_unknown_setting section_name key

-- A setting of a layer: first those that are texts.
unfoldable pub layer_setting : Text → Text × Text → Layer → Result Layer
unfolding layer_switch
layer_setting section_name (key, value) l =
    if text_eq key (codes "description")
    then done (record l { description = value })
    else if text_eq key (codes "source")
    then done (record l { source = value })
    else if text_eq key (codes "source_layer")
    then done (record l { source_layer = value })
    else if text_eq key (codes "target_table_schema")
    then done (record l { target_table_schema = value })
    else if text_eq key (codes "target_table_name")
    then done (record l { target_table_name = value })
    else if text_eq key (codes "filter")
    then done (record l { filter = value })
    else layer_switch section_name key value l

-- `CHECK_LAYER_STR_SETTING`.
unfoldable pub check_layer_setting : Layer → Text → Text → Result Layer
check_layer_setting l value setting =
    if is_empty value
    then runtime_error (
        cat (
          codes "Layer \""
          ∷ l.name
          ∷ codes "\" is missing the \""
          ∷ setting
          ∷ codes "\" setting"
          ∷ []))
    else done l

-- The settings that a layer must have.
unfoldable pub check_layer : Layer → Result Layer
unfolding check_layer_setting
check_layer l = do
  l ← check_layer_setting l l.source (codes "source")
  l ← check_layer_setting l l.source_layer (codes "source_layer")
  l ← check_layer_setting l l.target_table_name (codes "target_table_name")
  check_layer_setting l l.target_table_schema (codes "target_table_schema")

-- `layers[layer->name] = layer`, where it is enabled.
unfoldable pub store_layer : Configuration → Layer → Configuration
store_layer c l = if l.enabled then record c { layers = insert l.name l c.layers } else c

-- A section of the section LAYERS: its name, and the level with its values.
unfoldable pub layer_section : (ℕ → Level) → Text × ℕ → Configuration → Result Configuration
unfolding layer_setting check_layer store_layer
layer_section levels (name, a) c = do
  l ← for_each (layer_setting name) (levels a).values (new_layer name)
  l ← check_layer l
  done (store_layer c l)
