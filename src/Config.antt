-- ===== src/Config.antt =====
-- The configurations of util/cfg.c and util/cfg.h: descriptors with named fields, and a value for each field.
pub mod Values
pub mod Setting
pub mod Registry
pub mod Wire
pub mod Fields
pub mod Lookup
pub mod Sendable
pub mod Arrival
pub mod Keeps
mod Runs
use suscan.Prelude.{
  ℕ, zero, suc, ◌+◌, ◌*◌, Bool, true, false, List, [], ◌∷◌, ◌++◌, Option, none, some, if◌then◌else◌,
  ltb, ◌==◌, ◌&&◌, not, length,
}
use suscan.Cbor.Pack.{strlen}

pub data FieldType : Type 0 where
  field_type_string field_type_integer field_type_float field_type_file field_type_boolean :
      FieldType

-- `struct suscan_field`
pub record Field : Type 0 where
  pub type : FieldType
  pub optional : Bool
  pub name : List ℕ
  pub desc : List ℕ

-- `struct suscan_config_desc`
pub record Desc : Type 0 where
  pub global_name : List ℕ
  pub registered : Bool
  pub field_list : List Field

-- The union of `struct suscan_field_value`, by the member that is in use; a float is its bits.
pub data Content : Type 0 where
  as_int : ℕ → Content
  as_bool : Bool → Content
  as_float : ℕ → Content
  as_string : List ℕ → Content

-- `struct suscan_field_value`
pub record FieldValue : Type 0 where
  pub set : Bool
  pub content : Content

-- `struct suscan_config`
pub record Config : Type 0 where
  pub of : Desc
  pub values : List FieldValue

-- `strcmp` of two strings is 0
unfoldable pub same_text : List ℕ → List ℕ → Bool
same_text [] [] = true
same_text (a ∷ s) (b ∷ t) = (a == b) && same_text s t
same_text _ _ = false

unfoldable pub same_type : FieldType → FieldType → Bool
same_type field_type_string field_type_string = true
same_type field_type_integer field_type_integer = true
same_type field_type_float field_type_float = true
same_type field_type_file field_type_file = true
same_type field_type_boolean field_type_boolean = true
same_type _ _ = false

-- The next index, where there is one
unfoldable pub next : Option ℕ → Option ℕ
next none = none
next (some id) = some (suc id)

-- `suscan_config_desc_lookup_field_id`, with none for -1
unfoldable pub lookup_field_id : List Field → List ℕ → Option ℕ
unfolding same_text next
lookup_field_id [] name = none
lookup_field_id (f ∷ field_list) name =
    let rest = lookup_field_id field_list name in
    if same_text f.name name then some 0 else next rest

-- The entry of a list at an index, none past its end
unfoldable pub entry : {A : Type 0} → List A → ℕ → Option A
entry [] id = none
entry (x ∷ xs) zero = some x
entry (x ∷ xs) (suc id) = entry xs id

-- `suscan_config_desc_add_field`: the descriptor with the field, unless there is one of that name. `gives` says
-- whether an allocation of a size succeeds.
unfoldable pub add_field :
    (gives : ℕ → Bool) → Desc → FieldType → Bool → (name desc : List ℕ) → Option Desc
unfolding lookup_field_id strlen
add_field gives cfgdesc type optional name desc = elim (lookup_field_id cfgdesc.field_list name) [
  | some id ↦ none
  | none ↦
      if gives (strlen name + 1) && (gives (strlen desc + 1) && gives 32)
      then some (record cfgdesc {
        field_list =
            cfgdesc.field_list
            ++ (record { type = type; optional = optional; name = name; desc = desc } ∷ []);
      })
      else none
]

-- The value of a new field: zeros
unfoldable pub zeros : FieldType → Content
zeros field_type_string = as_string []
zeros field_type_integer = as_int 0
zeros field_type_float = as_float 0
zeros field_type_file = as_string []
zeros field_type_boolean = as_bool false

-- A value in front of those of the fields behind
unfoldable pub with_value : FieldValue → Option (List FieldValue) → Option (List FieldValue)
with_value v none = none
with_value v (some values) = some (v ∷ values)

unfoldable pub new_values : (gives : ℕ → Bool) → List Field → Option (List FieldValue)
unfolding zeros with_value
new_values gives [] = some []
new_values gives (f ∷ field_list) =
    let rest = new_values gives field_list in
    if gives 24 then with_value (record { set = false; content = zeros f.type }) rest else none

unfoldable pub with_desc : Desc → Option (List FieldValue) → Option Config
with_desc desc none = none
with_desc desc (some values) = some (record { of = desc; values = values })

-- `suscan_config_init`
unfoldable pub config_init : (gives : ℕ → Bool) → Desc → Option Config
unfolding new_values with_desc
config_init gives desc =
    if gives (length desc.field_list * 8)
    then with_desc desc (new_values gives desc.field_list)
    else none

-- The value at an index that was looked up
unfoldable pub value_at : List FieldValue → Option ℕ → Option FieldValue
unfolding entry
value_at values none = none
value_at values (some id) = entry values id

-- `suscan_config_get_value`
unfoldable pub get_value : Config → List ℕ → Option FieldValue
unfolding lookup_field_id value_at
get_value cfg name = value_at cfg.values (lookup_field_id cfg.of.field_list name)

-- `values[id]` after a store
unfoldable pub store : ℕ → (FieldValue → FieldValue) → List FieldValue → List FieldValue
store id change [] = []
store zero change (v ∷ values) = change v ∷ values
store (suc id) change (v ∷ values) = v ∷ store id change values

-- The field of the name, where it has the type: how every setter starts
unfoldable pub checked : FieldType → Option Field → ℕ → Option ℕ
unfolding same_type
checked type (some field) id = if same_type field.type type then some id else none
checked type none id = none

unfoldable pub checked_at : FieldType → List Field → Option ℕ → Option ℕ
unfolding checked entry
checked_at type field_list none = none
checked_at type field_list (some id) = checked type (entry field_list id) id

unfoldable pub typed_field : Config → FieldType → List ℕ → Option ℕ
unfolding checked_at lookup_field_id
typed_field cfg type name =
    checked_at type cfg.of.field_list (lookup_field_id cfg.of.field_list name)

unfoldable pub set_content : Content → FieldValue → FieldValue
set_content content v = record { set = true; content = content }

unfoldable pub keep_flag : Content → FieldValue → FieldValue
keep_flag content v = record v { content = content }

unfoldable pub stored : Config → (FieldValue → FieldValue) → Option ℕ → Option Config
unfolding store
stored cfg change (some id) = some (record cfg { values = store id change cfg.values })
stored cfg change none = none

-- `suscan_config_set_integer`
unfoldable pub set_integer : Config → List ℕ → ℕ → Option Config
unfolding stored set_content typed_field
set_integer cfg name value =
    stored cfg (set_content (as_int value)) (typed_field cfg field_type_integer name)

-- `suscan_config_set_bool`
unfoldable pub set_bool : Config → List ℕ → Bool → Option Config
unfolding stored set_content typed_field
set_bool cfg name value =
    stored cfg (set_content (as_bool value)) (typed_field cfg field_type_boolean name)

-- `suscan_config_set_float`, which leaves the flag as it is
unfoldable pub set_float : Config → List ℕ → ℕ → Option Config
unfolding stored keep_flag typed_field
set_float cfg name value =
    stored cfg (keep_flag (as_float value)) (typed_field cfg field_type_float name)

-- What `as_string` is read as; the fields that are read have a string.
unfoldable pub text_of : Option FieldValue → List ℕ
text_of (some v) = elim v.content [ as_string s ↦ s | _ ↦ [] ]
text_of none = []

-- The end of the two setters of strings: a longer string needs room for it.
unfoldable pub set_text : (gives : ℕ → Bool) → Config → List ℕ → Option ℕ → Option Config
unfolding text_of entry stored set_content strlen
set_text gives cfg value none = none
set_text gives cfg value (some id) =
    if ltb (strlen (text_of (entry cfg.values id))) (strlen value)
      && not (gives (24 + (strlen value + 1)))
    then none
    else stored cfg (set_content (as_string value)) (some id)

-- `suscan_config_set_string`
unfoldable pub set_string : (gives : ℕ → Bool) → Config → List ℕ → List ℕ → Option Config
unfolding set_text typed_field
set_string gives cfg name value = set_text gives cfg value (typed_field cfg field_type_string name)

-- `suscan_config_set_file`
unfoldable pub set_file : (gives : ℕ → Bool) → Config → List ℕ → List ℕ → Option Config
unfolding set_text typed_field
set_file gives cfg name value = set_text gives cfg value (typed_field cfg field_type_file name)
