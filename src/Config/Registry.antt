-- ===== src/Config/Registry.antt =====
-- The registry of descriptors of util/cfg.c, the list `g_config_desc`.
use suscan.Prelude.{
  ℕ, ◌+◌, ◌*◌, Bool, true, false, List, [], ◌∷◌, ◌++◌, Option, none, some, if◌then◌else◌, ◌&&◌,
  length,
}
use suscan.Cbor.Pack.{strlen}
use suscan.Config.{Desc, same_text}

-- `suscan_config_desc_lookup`
unfoldable pub desc_lookup : List Desc → List ℕ → Option Desc
unfolding same_text
desc_lookup [] global_name = none
desc_lookup (d ∷ registry) global_name =
    let rest = desc_lookup registry global_name in
    if same_text d.global_name global_name then some d else rest

-- `suscan_config_desc_new_ex`, of a name that is not null: the descriptor of that name, or a new one
unfoldable pub desc_new_ex : (gives : ℕ → Bool) → List Desc → List ℕ → Option Desc
unfolding desc_lookup strlen
desc_new_ex gives registry global_name = elim (desc_lookup registry global_name) [
  | some d ↦ some d
  | none ↦
      if gives 32 && gives (strlen global_name + 1)
      then some (record { global_name = global_name; registered = false; field_list = [] })
      else none
]

-- What `suscan_config_desc_register` does: a descriptor that is registered already, a name that is taken, where
-- `errno` is EEXIST, no memory, or the descriptor as it is then, with the new registry
pub data Registration : Type 0 where
  already eexist no_memory : Registration
  accepted : Desc → List Desc → Registration

unfoldable pub desc_append : (gives : ℕ → Bool) → List Desc → Desc → Registration
desc_append gives registry desc =
    if gives (length registry * 8 + 8)
    then accepted (record desc { registered = true })
        (registry ++ (record desc { registered = true } ∷ []))
    else no_memory

-- `suscan_config_desc_register`
unfoldable pub desc_register : (gives : ℕ → Bool) → List Desc → Desc → Registration
unfolding desc_lookup desc_append
desc_register gives registry desc =
    if desc.registered then already else elim (desc_lookup registry desc.global_name) [
      | some d ↦ eexist
      | none ↦ desc_append gives registry desc
    ]
