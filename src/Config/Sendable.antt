-- ===== src/Config/Sendable.antt =====
-- The values that a configuration can be sent with, and what arrives of each (util/cfg.c).
use native.Mathlib.Nat.{eq-zero-or-pos}
use suscan.Prelude.{
  ℕ, ◌-◌, ◌<◌, ◌≤◌, ◌^◌, ◌≡◌, refl, Bool, true, false, List, [], ◌∷◌, not, arith, take-length,
  lt→ltb, le→ltb, ◌⊎◌, inl, inr,
}
use suscan.Prelude.Int.{IsI64, signed64, word64}
use suscan.GrowBuf.{GrowBuf}
use suscan.Cbor.Items.{Item, bool, str, single, int, null, Fits, pack_item}
use suscan.Serial.Parse.{
  Parses, Parses-Field, Parses-pure, IsText, str-Field, bool-Field, single-Field, int64-Field,
}
use suscan.Serial.Codec.{Parses-last}
use suscan.Config.{
  FieldType, field_type_string, field_type_integer, field_type_float, field_type_boolean,
  field_type_file, Content, as_int, as_bool, as_float, as_string, FieldValue, same_type, zeros,
  set_content, keep_flag,
}
use suscan.Config.Setting.{
  Setting, integer, boolean, float, string, setting_type, content_of, change_of,
}
use suscan.Config.Wire.{c_text, unpack_text, unpack_setting, pack_value}

-- A value of the member of the union that its field says, which fits its C type. The value of a file is sent but is
-- refused where it arrives.
pub data Sendable : FieldType → Content → Type 0 where
  of_integer : (n : ℕ) → n < 2 ^ 64 → Sendable field_type_integer (as_int n)
  of_boolean : (b : Bool) → Sendable field_type_boolean (as_bool b)
  of_float : (x : ℕ) → x < 2 ^ 32 → Sendable field_type_float (as_float x)
  of_string : (s : List ℕ) → IsText s → Sendable field_type_string (as_string s)

abbrev pub setting : {t : FieldType} {c : Content} → Sendable t c → Setting
setting (of_integer n h) = integer n
setting (of_boolean b) = boolean b
setting (of_float x h) = float x
setting (of_string s h) = string s

unfoldable pub value_item : FieldType → Content → Item
value_item field_type_boolean (as_bool b) = bool b
value_item field_type_file (as_string s) = str s
value_item field_type_string (as_string s) = str s
value_item field_type_float (as_float x) = single x
value_item field_type_integer (as_int n) = int (signed64 n)
value_item _ _ = null

-- A value as it arrives: a float does not count as set, any other value does.
unfoldable pub arrived_value : FieldType → FieldValue → FieldValue
arrived_value type v = record { set = not (same_type type field_type_float); content = v.content }

split_at : (n k : ℕ) → (n < k) ⊎ (k ≤ n)
split_at n k = elim (eq-zero-or-pos (k - n)) [
  | inl e ↦ inr (omega (arith, e))
  | inr e ↦ inl (omega (arith, e))
]

signed64-IsI64 : (n : ℕ) → n < 2 ^ 64 → IsI64 (signed64 n)
signed64-IsI64 n h = elim (split_at n (2 ^ 63)) [
  | inl low ↦ rw (lt→ltb n (2 ^ 63) low) low
  | inr high ↦ rw (le→ltb n (2 ^ 63) high) (omega arith)
]

word64-signed64 : (n : ℕ) → n < 2 ^ 64 → word64 (signed64 n) ≡ n
word64-signed64 n h = elim (split_at n (2 ^ 63)) [
  | inl low ↦ rw (lt→ltb n (2 ^ 63) low) (omega arith)
  | inr high ↦ rw (le→ltb n (2 ^ 63) high) (omega arith)
]

pub setting_type-setting :
    {t : FieldType} {c : Content} (h : Sendable t c) → setting_type (setting h) ≡ t
unfolding setting_type
setting_type-setting (of_integer n h) = refl
setting_type-setting (of_boolean b) = refl
setting_type-setting (of_float x h) = refl
setting_type-setting (of_string s h) = refl

pub change_of-setting :
    {t : FieldType} {c : Content} (h : Sendable t c) (set : Bool)
    → change_of (setting h) (record { set = false; content = zeros t })
      ≡ arrived_value t (record { set = set; content = c })
unfolding change_of content_of set_content keep_flag arrived_value same_type zeros
change_of-setting (of_integer n h) set = refl
change_of-setting (of_boolean b) set = refl
change_of-setting (of_float x h) set = refl
change_of-setting (of_string s h) set = refl

pub value_item-Fits : {t : FieldType} {c : Content} → Sendable t c → Fits (value_item t c)
unfolding value_item
value_item-Fits (of_integer n h) = signed64-IsI64 n h
value_item-Fits (of_boolean b) = tt
value_item-Fits (of_float x h) = h
value_item-Fits (of_string s h) = h

module _ ⦃g : GrowBuf⦄ where
  open g use {Buf}

  pub pack_value-item :
      {t : FieldType} {c : Content} (h : Sendable t c) → pack_value t c ≡ pack_item (value_item t c)
  unfolding pack_value pack_item value_item
  pack_value-item (of_integer n h) = refl
  pack_value-item (of_boolean x) = refl
  pack_value-item (of_float x h) = refl
  pack_value-item (of_string s h) = refl

  module _ (gives : ℕ → Bool) (mem : (n : ℕ) → gives n ≡ true) where
    c_text-same : (s : List ℕ) → IsText s → c_text s ≡ s
    unfolding c_text
    c_text-same s h = rw h.0 (take-length s)

    pub text-Parses : (s : List ℕ) → IsText s → Parses (unpack_text gives) s (str s ∷ [])
    unfolding unpack_text
    text-Parses s h =
        Parses-Field _ (str-Field gives mem s h) (rw (c_text-same s h) (Parses-pure _))

    pub setting-Parses :
        {t : FieldType} {c : Content} (h : Sendable t c)
        → Parses (unpack_setting gives t) (setting h) (value_item t c ∷ [])
    unfolding unpack_setting value_item unpack_text
    setting-Parses (of_integer n h) =
        Parses-Field _ (int64-Field (signed64 n) (signed64-IsI64 n h))
          (rw (word64-signed64 n h) (Parses-pure (integer n)))
    setting-Parses (of_boolean b) = Parses-Field _ (bool-Field b) (Parses-pure (boolean b))
    setting-Parses (of_float x h) = Parses-Field _ (single-Field x h) (Parses-pure (float x))
    setting-Parses (of_string s h) = Parses-last _ (text-Parses s h) (Parses-pure (string s))
