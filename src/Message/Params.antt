-- ===== src/Message/Params.antt =====
-- `struct suscan_analyzer_params`, of analyzer/analyzer.c. A `SUFREQ` is a double, and a `SUFLOAT` a float of
-- single precision; both are the numbers of their bits.
use suscan.Prelude.{ℕ, ◌<◌, ◌^◌, List, [], ◌∷◌}
use suscan.Prelude.Int.{ℤ}
use suscan.Prelude.Outcome.{Call, pure, ◌>>=◌}
use suscan.GrowBuf.{GrowBuf}
use suscan.Cbor.Items.{Item, uint, int, single, double, pack_items, encode_all}
use suscan.Cbor.Unpack.{unpack_single, unpack_double, unpack_uint_w, unpack_int_w}
use suscan.Serial.{framed}
use suscan.Serial.Parse.{
  Parses, Parses-Field, Parses-pure, Parses-framed, IsI32, wider, uint64-Field, int32-Field,
  single-Field, double-Field,
}
use suscan.Serial.Keeps.{Keeps, keeps_rules}
use suscan.Serial.Codec.{Sends, Sends-items}

-- `struct suscan_analyzer_params`, with the parameters of the detector
pub record Params : Type 0 where
  pub mode : ℤ
  pub window : ℤ
  pub window_size : ℕ
  pub fc : ℕ
  pub alpha : ℕ
  pub decimation : ℕ
  pub samp_rate : ℕ
  pub channel_update_int : ℕ
  pub psd_update_int : ℕ
  pub min_freq : ℕ
  pub max_freq : ℕ

unfoldable pub params_items : Params → List Item
params_items v =
    int v.mode
    ∷ int v.window
    ∷ uint v.window_size
    ∷ single v.fc
    ∷ single v.alpha
    ∷ uint v.decimation
    ∷ uint v.samp_rate
    ∷ single v.channel_update_int
    ∷ single v.psd_update_int
    ∷ double v.min_freq
    ∷ double v.max_freq
    ∷ []

abbrev pub IsParams : Params → Type 0
IsParams v =
    IsI32 v.mode
    × IsI32 v.window
    × (v.window_size < 2 ^ 64)
    × (v.fc < 2 ^ 32)
    × (v.alpha < 2 ^ 32)
    × (v.decimation < 2 ^ 64)
    × (v.samp_rate < 2 ^ 64)
    × (v.channel_update_int < 2 ^ 32)
    × (v.psd_update_int < 2 ^ 32)
    × (v.min_freq < 2 ^ 64)
    × (v.max_freq < 2 ^ 64)

module _ ⦃g : GrowBuf⦄ where
  open g use {Buf}

  unfoldable pub params_serialize : Params → Call Buf (Unit {0})
  unfolding params_items
  params_serialize v = pack_items (params_items v)

  unfoldable pub params_deserialize : Call Buf Params
  params_deserialize = framed do
    mode ← unpack_int_w 32
    window ← unpack_int_w 32
    window_size ← unpack_uint_w 64
    fc ← unpack_single
    alpha ← unpack_single
    decimation ← unpack_uint_w 64
    samp_rate ← unpack_uint_w 64
    channel_update_int ← unpack_single
    psd_update_int ← unpack_single
    min_freq ← unpack_double
    max_freq ← unpack_double
    pure (record {
      mode = mode;
      window = window;
      window_size = window_size;
      fc = fc;
      alpha = alpha;
      decimation = decimation;
      samp_rate = samp_rate;
      channel_update_int = channel_update_int;
      psd_update_int = psd_update_int;
      min_freq = min_freq;
      max_freq = max_freq;
    })

  pub Keeps-params : Keeps params_deserialize
  unfolding params_deserialize
  Keeps-params = search keeps_rules depth 60

  pub Parses-params : (v : Params) → IsParams v → Parses params_deserialize v (params_items v)
  unfolding params_deserialize params_items
  Parses-params v h = Parses-framed (
      Parses-Field _ (int32-Field v.mode h.0) (
        Parses-Field _ (int32-Field v.window h.1) (
          Parses-Field _ (uint64-Field v.window_size h.2) (
            Parses-Field _ (single-Field v.fc h.3) (
              Parses-Field _ (single-Field v.alpha h.4) (
                Parses-Field _ (uint64-Field v.decimation h.5) (
                  Parses-Field _ (uint64-Field v.samp_rate h.6) (
                    Parses-Field _ (single-Field v.channel_update_int h.7) (
                      Parses-Field _ (single-Field v.psd_update_int h.8) (
                        Parses-Field _ (double-Field v.min_freq h.9)
                          (Parses-Field _ (double-Field v.max_freq h.10) (Parses-pure v))))))))))))

  pub Sends-params :
      (v : Params) → IsParams v → Sends (params_serialize v) (encode_all (params_items v))
  unfolding params_serialize params_items
  Sends-params v h = Sends-items _ (
    wider v.mode h.0,
    (wider v.window h.1, (h.2, (h.3, (h.4, (h.5, (h.6, (h.7, (h.8, (h.9, (h.10, tt)))))))))),
  )
