-- ===== src/Message/Channel.antt =====
-- `struct sigutils_channel`, as analyzer/msg.c serializes it.
use suscan.Prelude.{ℕ, ◌<◌, ◌^◌, List, [], ◌∷◌, arith}
use suscan.Prelude.Outcome.{Call, pure, ◌>>=◌}
use suscan.GrowBuf.{GrowBuf}
use suscan.Cbor.Items.{Item, uint, single, double, pack_items, encode_all}
use suscan.Cbor.Unpack.{unpack_single, unpack_double, unpack_uint_w}
use suscan.Serial.{framed}
use suscan.Serial.Parse.{
  Parses, Parses-Field, Parses-pure, Parses-framed, uint32-Field, single-Field, double-Field,
}
use suscan.Serial.Keeps.{Keeps, keeps_rules}
use suscan.Serial.Codec.{Sends, Sends-items}

-- `struct sigutils_channel`
pub record Channel : Type 0 where
  pub fc : ℕ
  pub f_lo : ℕ
  pub f_hi : ℕ
  pub bw : ℕ
  pub snr : ℕ
  pub s0 : ℕ
  pub n0 : ℕ
  pub ft : ℕ
  pub age : ℕ
  pub present : ℕ

unfoldable pub channel_items : Channel → List Item
channel_items v =
    double v.fc
    ∷ double v.f_lo
    ∷ double v.f_hi
    ∷ single v.bw
    ∷ single v.snr
    ∷ single v.s0
    ∷ single v.n0
    ∷ double v.ft
    ∷ uint v.age
    ∷ uint v.present
    ∷ []

abbrev pub IsChannel : Channel → Type 0
IsChannel v =
    (v.fc < 2 ^ 64)
    × (v.f_lo < 2 ^ 64)
    × (v.f_hi < 2 ^ 64)
    × (v.bw < 2 ^ 32)
    × (v.snr < 2 ^ 32)
    × (v.s0 < 2 ^ 32)
    × (v.n0 < 2 ^ 32)
    × (v.ft < 2 ^ 64)
    × (v.age < 2 ^ 32)
    × (v.present < 2 ^ 32)

module _ ⦃g : GrowBuf⦄ where
  open g use {Buf}

  unfoldable pub channel_serialize : Channel → Call Buf (Unit {0})
  unfolding channel_items
  channel_serialize v = pack_items (channel_items v)

  unfoldable pub channel_deserialize : Call Buf Channel
  channel_deserialize = framed do
    fc ← unpack_double
    f_lo ← unpack_double
    f_hi ← unpack_double
    bw ← unpack_single
    snr ← unpack_single
    s0 ← unpack_single
    n0 ← unpack_single
    ft ← unpack_double
    age ← unpack_uint_w 32
    present ← unpack_uint_w 32
    pure (record {
      fc = fc;
      f_lo = f_lo;
      f_hi = f_hi;
      bw = bw;
      snr = snr;
      s0 = s0;
      n0 = n0;
      ft = ft;
      age = age;
      present = present;
    })

  pub Keeps-channel : Keeps channel_deserialize
  unfolding channel_deserialize
  Keeps-channel = search keeps_rules depth 60

  pub Parses-channel : (v : Channel) → IsChannel v → Parses channel_deserialize v (channel_items v)
  unfolding channel_deserialize channel_items
  Parses-channel v h = Parses-framed (
      Parses-Field _ (double-Field v.fc h.0) (
        Parses-Field _ (double-Field v.f_lo h.1) (
          Parses-Field _ (double-Field v.f_hi h.2) (
            Parses-Field _ (single-Field v.bw h.3) (
              Parses-Field _ (single-Field v.snr h.4) (
                Parses-Field _ (single-Field v.s0 h.5) (
                  Parses-Field _ (single-Field v.n0 h.6) (
                    Parses-Field _ (double-Field v.ft h.7) (
                      Parses-Field _ (uint32-Field v.age h.8)
                        (Parses-Field _ (uint32-Field v.present h.9) (Parses-pure v)))))))))))

  pub Sends-channel :
      (v : Channel) → IsChannel v → Sends (channel_serialize v) (encode_all (channel_items v))
  unfolding channel_serialize channel_items
  Sends-channel v h = Sends-items _ (
    h.0,
    (h.1, (h.2, (h.3, (h.4, (h.5, (h.6, (h.7, (omega (arith, h.8), (omega (arith, h.9), tt))))))))),
  )
