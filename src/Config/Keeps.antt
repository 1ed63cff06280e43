-- ===== src/Config/Keeps.antt =====
-- The deserializer of configurations (util/cfg.c) changes no byte of the buffer.
use suscan.Prelude.{
  ℕ, zero, suc, Bool, true, false, Option, none, some, List, refl, ltb, if◌then◌else◌,
}
use suscan.GrowBuf.{GrowBuf}
use suscan.Cbor.Pack.{strlen}
use suscan.Serial.Keeps.{
  Keeps, Keeps-pure, Keeps-fail, Keeps-bind, Keeps-framed, Keeps-unpack_map_start, keeps_rules,
}
use suscan.Config.{
  Field, FieldType, field_type_string, field_type_integer, field_type_float, field_type_file,
  field_type_boolean, Desc, Config, config_init,
}
use suscan.Config.Registry.{Registration, already, eexist, no_memory, accepted}
use suscan.Config.Wire.{
  or_fail, check, unpack_text, populate_from_cbor, unpack_setting, unpack_value, unpack_field,
  unpack_fields, or_create, find_desc, config_body, settle, config_end, config_deserialize,
}

module _ ⦃g : GrowBuf⦄ (gives : ℕ → Bool) where
  open g use {Buf}

  Keeps-or_fail : {A : Type 0} (o : Option A) → Keeps (or_fail o)
  unfolding or_fail
  Keeps-or_fail none = Keeps-fail _
  Keeps-or_fail (some a) = Keeps-pure a

  Keeps-unpack_setting : (type : FieldType) → Keeps (unpack_setting gives type)
  unfolding unpack_setting unpack_text
  Keeps-unpack_setting field_type_boolean = search keeps_rules depth 60
  Keeps-unpack_setting field_type_string = search keeps_rules depth 60
  Keeps-unpack_setting field_type_file = search keeps_rules depth 60
  Keeps-unpack_setting field_type_float = search keeps_rules depth 60
  Keeps-unpack_setting field_type_integer = search keeps_rules depth 60

  Keeps-unpack_value :
      (self : Config) (name : List ℕ) (o : Option Field) → Keeps (unpack_value gives self name o)
  unfolding unpack_value
  Keeps-unpack_value self name none = Keeps-fail _
  Keeps-unpack_value self name (some field) =
      Keeps-bind _ _ (Keeps-unpack_setting field.type) λ s. Keeps-or_fail _

  Keeps-unpack_text : Keeps (unpack_text gives)
  unfolding unpack_text
  Keeps-unpack_text = search keeps_rules depth 60

  Keeps-unpack_fields : (n : ℕ) (self : Config) → Keeps (unpack_fields gives n self)
  unfolding unpack_fields unpack_field
  Keeps-unpack_fields zero self = Keeps-pure self
  Keeps-unpack_fields (suc n) self =
      Keeps-bind _ _ (Keeps-bind _ _ Keeps-unpack_text λ name. Keeps-unpack_value self name _)
        λ after. Keeps-unpack_fields n after

  Keeps-populate : (desc : Desc) → Keeps (populate_from_cbor gives desc)
  unfolding populate_from_cbor
  Keeps-populate desc = record { at = λ b. refl }

  Keeps-or_create :
      (known : List Desc) (name : List ℕ) (o : Option Desc) → Keeps (or_create gives known name o)
  unfolding or_create
  Keeps-or_create known name (some desc) = Keeps-pure _
  Keeps-or_create known name none =
      Keeps-bind _ _ (Keeps-or_fail _)
        λ empty. Keeps-bind _ _ (Keeps-populate empty) λ desc. Keeps-pure _

  Keeps-find_desc : (known : List Desc) (name : List ℕ) → Keeps (find_desc gives known name)
  unfolding find_desc
  Keeps-find_desc known name = Keeps-or_create known name _

  Keeps-check : (c : Bool) → Keeps (check c)
  unfolding check
  Keeps-check c = search keeps_rules depth 60

  Keeps-settle : (self : Config) (r : Registration) → Keeps (settle self r)
  unfolding settle
  Keeps-settle self already = Keeps-pure self
  Keeps-settle self eexist = Keeps-fail _
  Keeps-settle self no_memory = Keeps-pure self
  Keeps-settle self (accepted desc registry) = Keeps-pure _

  Keeps-config_end :
      (later : List Desc) (made : Bool × Config) → Keeps (config_end gives later made)
  unfolding config_end
  Keeps-config_end later (true, self) = Keeps-settle self _
  Keeps-config_end later (false, self) = Keeps-pure self

  Keeps-config_body : (known : List Desc) → Keeps (config_body gives known)
  unfolding config_body
  Keeps-config_body known = Keeps-bind _ _ Keeps-unpack_text λ name.
      Keeps-bind _ _ (Keeps-check (ltb 0 (strlen name))) λ _.
        Keeps-bind _ _ (Keeps-find_desc known name) λ found.
          Keeps-bind _ _ Keeps-unpack_map_start λ start.
            Keeps-bind _ _ (Keeps-check (if start.1 then false else true)) λ _.
              Keeps-bind _ _ (Keeps-or_fail (config_init gives found.1)) λ empty.
                Keeps-bind _ _ (Keeps-unpack_fields start.0 empty)
                  λ self. Keeps-pure (found.0, self)

  pub Keeps-config_deserialize :
      (known later : List Desc) → Keeps (config_deserialize gives known later)
  unfolding config_deserialize
  Keeps-config_deserialize known later =
      Keeps-bind _ _ (Keeps-framed _ (Keeps-config_body known)) λ made. Keeps-config_end later made
