-- ===== src/Message/Gain.antt =====
-- `struct suscan_analyzer_gain_info`, of analyzer/analyzer.c. A string is its characters; a null pointer, which
-- the packers write as an empty string, is not told from one.
use suscan.Prelude.{ℕ, Bool, true, ◌<◌, ◌^◌, ◌≡◌, List, [], ◌∷◌}
use suscan.Prelude.Outcome.{Call, pure, ◌>>=◌}
use suscan.GrowBuf.{GrowBuf}
use suscan.Cbor.Items.{Item, single, str, pack_items, encode_all}
use suscan.Cbor.Unpack.{unpack_str, unpack_single}
use suscan.Serial.{framed}
use suscan.Serial.Parse.{
  Parses, Parses-Field, Parses-pure, Parses-framed, IsText, single-Field, str-Field,
}
use suscan.Serial.Keeps.{Keeps, keeps_rules}
use suscan.Serial.Codec.{Sends, Sends-items}

-- `struct suscan_analyzer_gain_info`
pub record Gain : Type 0 where
  pub name : List ℕ
  pub min : ℕ
  pub max : ℕ
  pub step : ℕ
  pub value : ℕ

unfoldable pub gain_items : Gain → List Item
gain_items v = str v.name ∷ single v.min ∷ single v.max ∷ single v.step ∷ single v.value ∷ []

abbrev pub IsGain : Gain → Type 0
IsGain v =
    IsText v.name × (v.min < 2 ^ 32) × (v.max < 2 ^ 32) × (v.step < 2 ^ 32) × (v.value < 2 ^ 32)

module _ ⦃g : GrowBuf⦄ where
  open g use {Buf}

  unfoldable pub gain_serialize : Gain → Call Buf (Unit {0})
  unfolding gain_items
  gain_serialize v = pack_items (gain_items v)

  unfoldable pub gain_deserialize : (gives : ℕ → Bool) → Call Buf Gain
  gain_deserialize gives = framed do
    name ← unpack_str gives
    min ← unpack_single
    max ← unpack_single
    step ← unpack_single
    value ← unpack_single
    pure (record { name = name; min = min; max = max; step = step; value = value })

  pub Keeps-gain : (gives : ℕ → Bool) → Keeps (gain_deserialize gives)
  unfolding gain_deserialize
  Keeps-gain gives = search keeps_rules depth 60

  pub Parses-gain :
      (gives : ℕ → Bool) (mem : (n : ℕ) → gives n ≡ true)
      → (v : Gain) → IsGain v
      → Parses (gain_deserialize gives) v (gain_items v)
  unfolding gain_deserialize gain_items
  Parses-gain gives mem v h = Parses-framed (
      Parses-Field _ (str-Field gives mem v.name h.0) (
        Parses-Field _ (single-Field v.min h.1) (
          Parses-Field _ (single-Field v.max h.2) (
            Parses-Field _ (single-Field v.step h.3)
              (Parses-Field _ (single-Field v.value h.4) (Parses-pure v))))))

  pub Sends-gain : (v : Gain) → IsGain v → Sends (gain_serialize v) (encode_all (gain_items v))
  unfolding gain_serialize gain_items
  Sends-gain v h = Sends-items _ (h.0, (h.1, (h.2, (h.3, (h.4, tt)))))
