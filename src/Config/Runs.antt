-- ===== src/Config/Runs.antt =====
-- Runs of the setters of util/cfg.c.
use suscan.Prelude.{◌≡◌, refl, true, false, [], ◌∷◌, none, some, ◌⊎◌}
use suscan.Config.{
  Desc, Config, as_float, as_string, field_type_float, field_type_string, field_type_file,
  add_field, config_init, new_values, with_value, with_desc, zeros, typed_field, checked_at,
  checked, same_type, same_text, next, lookup_field_id, entry, set_float, set_string, set_text,
  stored, store, keep_flag,
}
use suscan.Config.Lookup.{Has, Lacks}
use suscan.Config.Setting.{float, apply, IsUpdated, setting_type, IsConfig, has_content, apply_lem}

-- A bandwidth, and the file of a signal
abbrev audio : Desc
audio = record {
  global_name = 97 ∷ [];
  registered = false;
  field_list =
      record { type = field_type_float; optional = false; name = 98 ∷ 119 ∷ []; desc = [] }
      ∷ record { type = field_type_file; optional = true; name = 112 ∷ []; desc = [] }
      ∷ [];
}

abbrev fresh : Config
fresh = record {
  of = audio;
  values =
      record { set = false; content = as_float 0 }
      ∷ record { set = false; content = as_string [] }
      ∷ [];
}

fresh_made : config_init (λ n. true) audio ≡ some fresh
unfolding config_init new_values with_value with_desc zeros
fresh_made = refl

fresh-IsConfig : IsConfig fresh
unfolding has_content
fresh-IsConfig = (refl, (refl, tt))

apply_lem_example :
    (Lacks field_type_float (98 ∷ 119 ∷ []) audio.field_list
      × (apply (λ n. true) fresh (98 ∷ 119 ∷ []) (float 7) ≡ none))
    ⊎ (Has field_type_float (98 ∷ 119 ∷ []) audio.field_list
        × (after : Config) × (apply (λ n. true) fresh (98 ∷ 119 ∷ []) (float 7) ≡ some after)
        × IsUpdated fresh (98 ∷ 119 ∷ []) (float 7) after)
unfolding setting_type
apply_lem_example = apply_lem (λ n. true) (λ n. refl) fresh (98 ∷ 119 ∷ []) (float 7) fresh-IsConfig

-- A float that is set still counts as not set.
float_not_set :
    set_float fresh (98 ∷ 119 ∷ []) 7
    ≡ some (record fresh {
      values =
          record { set = false; content = as_float 7 }
          ∷ record { set = false; content = as_string [] }
          ∷ [];
    })
unfolding set_float typed_field checked_at checked same_type same_text next lookup_field_id entry
    stored store keep_flag
float_not_set = refl

-- The setter of strings, which the deserializer calls for files too, refuses them.
file_refused : set_string (λ n. true) fresh (112 ∷ []) (120 ∷ []) ≡ none
unfolding set_string set_text typed_field checked_at checked same_type same_text next
    lookup_field_id entry
file_refused = refl

-- A name that is taken is refused.
name_taken : add_field (λ n. true) audio field_type_string false (112 ∷ []) [] ≡ none
unfolding add_field lookup_field_id same_text next
name_taken = refl
