-- ===== src/Config/Wire.antt =====
-- How a configuration is written as items and read back (util/cfg.c): its name, and a map from the names of its
-- fields to their values.
use suscan.Prelude.{
  ℕ, zero, suc, Bool, true, false, List, [], ◌∷◌, Option, none, some, if◌then◌else◌, ltb, ◌==◌,
  ◌||◌, length, take,
}
use suscan.Prelude.Int.{signed64, word64}
use suscan.Prelude.Outcome.{Call, pure, fail, su_false, fault, ◌>>=◌, ◌>>◌}
use suscan.GrowBuf.{GrowBuf}
use suscan.Cbor.MajorType
use suscan.Cbor.Addl
use suscan.Cbor.Pack.{strlen, pack_str, pack_bool, pack_single, pack_int, pack_map_start}
use suscan.Cbor.Unpack.{
  unpack_str, unpack_bool, unpack_single, unpack_int_w, unpack_map_start, peek_type,
}
use suscan.Serial.{framed}
use suscan.Config.{
  Field, FieldType, field_type_string, field_type_integer, field_type_float, field_type_file,
  field_type_boolean, Content, as_int, as_bool, as_float, as_string, FieldValue, Desc, Config,
  lookup_field_id, entry, add_field, config_init,
}
use suscan.Config.Setting.{Setting, integer, boolean, float, string, apply}
use suscan.Config.Registry.{
  desc_lookup, desc_new_ex, desc_register, Registration, already, eexist, no_memory, accepted,
}

-- What C reads as a string: the characters in front of a NUL
unfoldable pub c_text : List ℕ → List ℕ
unfolding strlen
c_text s = take (strlen s) s

-- "(no description)"
abbrev pub no_description : List ℕ
no_description =
    40 ∷ 110 ∷ 111 ∷ 32 ∷ 100 ∷ 101 ∷ 115 ∷ 99 ∷ 114 ∷ 105 ∷ 112 ∷ 116 ∷ 105 ∷ 111 ∷ 110 ∷ 41 ∷ []

-- `suscan_config_desc_lookup_field`
unfoldable pub lookup_field : List Field → List ℕ → Option Field
unfolding lookup_field_id entry
lookup_field field_list name = elim (lookup_field_id field_list name) [
  | some id ↦ entry field_list id
  | none ↦ none
]

module _ ⦃g : GrowBuf⦄ where
  open g use {Buf, loan, unread}

  -- The member of the union that the type says; the other combinations do not occur.
  unfoldable pub pack_value : FieldType → Content → Call Buf (Unit {0})
  pack_value field_type_boolean (as_bool b) = pack_bool b
  pack_value field_type_file (as_string s) = pack_str (some s)
  pack_value field_type_string (as_string s) = pack_str (some s)
  pack_value field_type_float (as_float x) = pack_single x
  pack_value field_type_integer (as_int n) = pack_int (signed64 n)
  pack_value _ _ = fail fault

  unfoldable pub pack_fields : List Field → List FieldValue → Call Buf (Unit {0})
  unfolding pack_value
  pack_fields [] values = pure tt
  pack_fields (f ∷ field_list) [] = fail fault
  pack_fields (f ∷ field_list) (v ∷ values) = do
    pack_str (some f.name)
    pack_value f.type v.content
    pack_fields field_list values

  -- `suscan_config_serialize`
  unfoldable pub config_serialize : Config → Call Buf (Unit {0})
  unfolding pack_fields
  config_serialize self = do
    pack_str (some self.of.global_name)
    pack_map_start (length self.of.field_list)
    pack_fields self.of.field_list self.values

  unfoldable pub or_fail : {A : Type 0} → Option A → Call Buf A
  or_fail none = fail su_false
  or_fail (some a) = pure a

  unfoldable pub check : Bool → Call Buf (Unit {0})
  check c = if c then pure tt else fail su_false

  -- What becomes of a configuration with a new descriptor
  unfoldable pub settle : Config → Registration → Call Buf Config
  settle self already = pure self
  settle self eexist = fail su_false
  settle self no_memory = pure self
  settle self (accepted desc registry) = pure (record self { of = desc })

  module _ (gives : ℕ → Bool) where
    unfoldable pub unpack_text : Call Buf (List ℕ)
    unfolding c_text
    unpack_text = do s ← unpack_str gives; pure (c_text s)

    -- A field of the type that the head of its value shows
    unfoldable pub populate_field : Desc → List ℕ → ℕ × ℕ → Call Buf Desc
    unfolding or_fail
    populate_field self key (type, extra) =
        if (type == MajorType.nint) || (type == MajorType.uint)
        then (do
          more ← or_fail (add_field gives self field_type_integer false key no_description)
          unpack_int_w 64
          pure more)
        else if type == MajorType.text
        then (do
          more ← or_fail (add_field gives self field_type_string false key no_description)
          unpack_str gives
          pure more)
        else if type == MajorType.float
        then (if (extra == Addl.float_false) || (extra == Addl.float_true)
            then (do
              more ← or_fail (add_field gives self field_type_boolean false key no_description)
              unpack_bool
              pure more)
            else if extra == Addl.float_float32
            then (do
              more ← or_fail (add_field gives self field_type_float false key no_description)
              unpack_single
              pure more)
            else fail su_false)
        else fail su_false

    unfoldable pub populate_fields : ℕ → Desc → Call Buf Desc
    unfolding populate_field unpack_text
    populate_fields zero self = pure self
    populate_fields (suc npairs) self = do
      key ← unpack_text
      head ← peek_type
      more ← populate_field self key head
      populate_fields npairs more

    unfoldable pub populate_map : Desc → Call Buf Desc
    unfolding populate_fields check
    populate_map self = do
      (npairs, end_required) ← unpack_map_start
      check (if end_required then false else true)
      populate_fields npairs self

    -- `suscan_config_desc_populate_from_cbor`, which reads a loaned copy
    unfoldable pub populate_from_cbor : Desc → Call Buf Desc
    unfolding populate_map
    populate_from_cbor self buffer = ((populate_map self (loan (unread buffer))).0, buffer)

    -- The value of a field, and the setter that it is given to
    unfoldable pub unpack_setting : FieldType → Call Buf Setting
    unfolding unpack_text
    unpack_setting field_type_boolean = do b ← unpack_bool; pure (boolean b)
    unpack_setting field_type_string = do s ← unpack_text; pure (string s)
    unpack_setting field_type_file = do s ← unpack_text; pure (string s)
    unpack_setting field_type_float = do real ← unpack_single; pure (float real)
    unpack_setting field_type_integer = do i ← unpack_int_w 64; pure (integer (word64 i))

    unfoldable pub unpack_value : Config → List ℕ → Option Field → Call Buf Config
    unfolding unpack_setting or_fail apply
    unpack_value self field_name none = fail su_false
    unpack_value self field_name (some field) = do
      setting ← unpack_setting field.type
      or_fail (apply gives self field_name setting)

    unfoldable pub unpack_field : Config → Call Buf Config
    unfolding unpack_value lookup_field unpack_text
    unpack_field self = do
      field_name ← unpack_text
      unpack_value self field_name (lookup_field self.of.field_list field_name)

    unfoldable pub unpack_fields : ℕ → Config → Call Buf Config
    unfolding unpack_field
    unpack_fields zero self = pure self
    unpack_fields (suc npairs) self = do after ← unpack_field self; unpack_fields npairs after

    -- The descriptor of the name, and whether it is made here (`creative_mode`)
    unfoldable pub or_create : List Desc → List ℕ → Option Desc → Call Buf (Bool × Desc)
    unfolding populate_from_cbor or_fail
    or_create known global_name (some desc) = pure (false, desc)
    or_create known global_name none = do
      empty ← or_fail (desc_new_ex gives known global_name)
      desc ← populate_from_cbor empty
      pure (true, desc)

    unfoldable pub find_desc : List Desc → List ℕ → Call Buf (Bool × Desc)
    unfolding or_create
    find_desc known global_name = or_create known global_name (desc_lookup known global_name)

    unfoldable pub config_body : List Desc → Call Buf (Bool × Config)
    unfolding find_desc unpack_fields check
    config_body known = do
      global_name ← unpack_text
      check (ltb 0 (strlen global_name))
      (creative_mode, desc) ← find_desc known global_name
      (npairs, end_required) ← unpack_map_start
      check (if end_required then false else true)
      empty ← or_fail (config_init gives desc)
      self ← unpack_fields npairs empty
      pure (creative_mode, self)

    unfoldable pub config_end : List Desc → Bool × Config → Call Buf Config
    unfolding settle
    config_end later (creative_mode, self) =
        if creative_mode then settle self (desc_register gives later self.of) else pure self

    -- `suscan_config_deserialize`. The registry is `known` where the descriptor is looked up, and `later` where a
    -- new one is registered; others may have changed it in between.
    unfoldable pub config_deserialize : (known later : List Desc) → Call Buf Config
    unfolding config_body config_end
    config_deserialize known later = do made ← framed (config_body known); config_end later made
