-- ===== src/Message/Inspector/Bodies.antt =====
-- The bodies of an inspector message that are fields in a row (analyzer/msg.c).
use suscan.Prelude.{ℕ, Bool, ◌<◌, ◌^◌, List, [], ◌∷◌, arith}
use suscan.Prelude.Outcome.{Call, pure, ◌>>=◌}
use suscan.GrowBuf.{GrowBuf}
use suscan.Cbor.Items.{Item, uint, single, double, bool, pack_items, encode_all}
use suscan.Cbor.Unpack.{unpack_single, unpack_double, unpack_bool, unpack_uint_w}
use suscan.Serial.{framed}
use suscan.Serial.Parse.{
  Parses, Parses-Field, Parses-pure, Parses-framed, uint32-Field, uint64-Field, single-Field,
  double-Field, bool-Field,
}
use suscan.Serial.Keeps.{Keeps, keeps_rules}
use suscan.Serial.Codec.{Sends, Sends-items}
use suscan.Message.Time.{Time}

-- The value of an estimator
pub record Estimator : Type 0 where
  pub estimator_id : ℕ
  pub enabled : Bool
  pub value : ℕ

unfoldable pub estimator_items : Estimator → List Item
estimator_items v = uint v.estimator_id ∷ bool v.enabled ∷ single v.value ∷ []

abbrev pub IsEstimator : Estimator → Type 0
IsEstimator v = (v.estimator_id < 2 ^ 32) × (v.value < 2 ^ 32)

-- The frequencies that a channel is set to
pub record SetFreq : Type 0 where
  pub fc : ℕ
  pub ft : ℕ

unfoldable pub set_freq_items : SetFreq → List Item
set_freq_items v = double v.fc ∷ double v.ft ∷ []

abbrev pub IsSetFreq : SetFreq → Type 0
IsSetFreq v = (v.fc < 2 ^ 64) × (v.ft < 2 ^ 64)

-- The bandwidth that a channel is set to
pub record SetBandwidth : Type 0 where
  pub bw : ℕ

unfoldable pub set_bandwidth_items : SetBandwidth → List Item
set_bandwidth_items v = single v.bw ∷ []

abbrev pub IsSetBandwidth : SetBandwidth → Type 0
IsSetBandwidth v = (v.bw < 2 ^ 32)

-- The watermark that an inspector is set to
pub record SetWatermark : Type 0 where
  pub watermark : ℕ

unfoldable pub set_watermark_items : SetWatermark → List Item
set_watermark_items v = uint v.watermark ∷ []

abbrev pub IsSetWatermark : SetWatermark → Type 0
IsSetWatermark v = (v.watermark < 2 ^ 64)

-- `struct suscan_orbit_report`
pub record OrbitReport : Type 0 where
  pub rx_time : Time
  pub azimuth : ℕ
  pub elevation : ℕ
  pub distance : ℕ
  pub freq_corr : ℕ
  pub vlos_vel : ℕ

unfoldable pub orbit_report_items : OrbitReport → List Item
orbit_report_items v =
    uint v.rx_time.sec
    ∷ uint v.rx_time.usec
    ∷ double v.azimuth
    ∷ double v.elevation
    ∷ double v.distance
    ∷ single v.freq_corr
    ∷ double v.vlos_vel
    ∷ []

abbrev pub IsOrbitReport : OrbitReport → Type 0
IsOrbitReport v =
    (v.rx_time.sec < 2 ^ 64)
    × (v.rx_time.usec < 2 ^ 32)
    × (v.azimuth < 2 ^ 64)
    × (v.elevation < 2 ^ 64)
    × (v.distance < 2 ^ 64)
    × (v.freq_corr < 2 ^ 32)
    × (v.vlos_vel < 2 ^ 64)

module _ ⦃g : GrowBuf⦄ where
  open g use {Buf}

  unfoldable pub estimator_serialize : Estimator → Call Buf (Unit {0})
  unfolding estimator_items
  estimator_serialize v = pack_items (estimator_items v)

  unfoldable pub estimator_deserialize : Call Buf Estimator
  estimator_deserialize = framed do
    estimator_id ← unpack_uint_w 32
    enabled ← unpack_bool
    value ← unpack_single
    pure (record { estimator_id = estimator_id; enabled = enabled; value = value })

  pub Keeps-estimator : Keeps estimator_deserialize
  unfolding estimator_deserialize
  Keeps-estimator = search keeps_rules depth 60

  pub Parses-estimator :
      (v : Estimator) → IsEstimator v → Parses estimator_deserialize v (estimator_items v)
  unfolding estimator_deserialize estimator_items
  Parses-estimator v h = Parses-framed (
      Parses-Field _ (uint32-Field v.estimator_id h.0) (
        Parses-Field _ (bool-Field v.enabled)
          (Parses-Field _ (single-Field v.value h.1) (Parses-pure v))))

  pub Sends-estimator :
      (v : Estimator)
      → IsEstimator v
      → Sends (estimator_serialize v) (encode_all (estimator_items v))
  unfolding estimator_serialize estimator_items
  Sends-estimator v h = Sends-items _ (omega (arith, h.0), (tt, (h.1, tt)))

  unfoldable pub set_freq_serialize : SetFreq → Call Buf (Unit {0})
  unfolding set_freq_items
  set_freq_serialize v = pack_items (set_freq_items v)

  unfoldable pub set_freq_deserialize : Call Buf SetFreq
  set_freq_deserialize =
      framed do fc ← unpack_double; ft ← unpack_double; pure (record { fc = fc; ft = ft })

  pub Keeps-set_freq : Keeps set_freq_deserialize
  unfolding set_freq_deserialize
  Keeps-set_freq = search keeps_rules depth 60

  pub Parses-set_freq :
      (v : SetFreq) → IsSetFreq v → Parses set_freq_deserialize v (set_freq_items v)
  unfolding set_freq_deserialize set_freq_items
  Parses-set_freq v h = Parses-framed (
      Parses-Field _ (double-Field v.fc h.0)
        (Parses-Field _ (double-Field v.ft h.1) (Parses-pure v)))

  pub Sends-set_freq :
      (v : SetFreq) → IsSetFreq v → Sends (set_freq_serialize v) (encode_all (set_freq_items v))
  unfolding set_freq_serialize set_freq_items
  Sends-set_freq v h = Sends-items _ (h.0, (h.1, tt))

  unfoldable pub set_bandwidth_serialize : SetBandwidth → Call Buf (Unit {0})
  unfolding set_bandwidth_items
  set_bandwidth_serialize v = pack_items (set_bandwidth_items v)

  unfoldable pub set_bandwidth_deserialize : Call Buf SetBandwidth
  set_bandwidth_deserialize = framed do bw ← unpack_single; pure (record { bw = bw })

  pub Keeps-set_bandwidth : Keeps set_bandwidth_deserialize
  unfolding set_bandwidth_deserialize
  Keeps-set_bandwidth = search keeps_rules depth 60

  pub Parses-set_bandwidth :
      (v : SetBandwidth)
      → IsSetBandwidth v
      → Parses set_bandwidth_deserialize v (set_bandwidth_items v)
  unfolding set_bandwidth_deserialize set_bandwidth_items
  Parses-set_bandwidth v h = Parses-framed (Parses-Field _ (single-Field v.bw h) (Parses-pure v))

  pub Sends-set_bandwidth :
      (v : SetBandwidth)
      → IsSetBandwidth v
      → Sends (set_bandwidth_serialize v) (encode_all (set_bandwidth_items v))
  unfolding set_bandwidth_serialize set_bandwidth_items
  Sends-set_bandwidth v h = Sends-items _ (h, tt)

  unfoldable pub set_watermark_serialize : SetWatermark → Call Buf (Unit {0})
  unfolding set_watermark_items
  set_watermark_serialize v = pack_items (set_watermark_items v)

  unfoldable pub set_watermark_deserialize : Call Buf SetWatermark
  set_watermark_deserialize =
      framed do watermark ← unpack_uint_w 64; pure (record { watermark = watermark })

  pub Keeps-set_watermark : Keeps set_watermark_deserialize
  unfolding set_watermark_deserialize
  Keeps-set_watermark = search keeps_rules depth 60

  pub Parses-set_watermark :
      (v : SetWatermark)
      → IsSetWatermark v
      → Parses set_watermark_deserialize v (set_watermark_items v)
  unfolding set_watermark_deserialize set_watermark_items
  Parses-set_watermark v h =
      Parses-framed (Parses-Field _ (uint64-Field v.watermark h) (Parses-pure v))

  pub Sends-set_watermark :
      (v : SetWatermark)
      → IsSetWatermark v
      → Sends (set_watermark_serialize v) (encode_all (set_watermark_items v))
  unfolding set_watermark_serialize set_watermark_items
  Sends-set_watermark v h = Sends-items _ (h, tt)

  unfoldable pub orbit_report_serialize : OrbitReport → Call Buf (Unit {0})
  unfolding orbit_report_items
  orbit_report_serialize v = pack_items (orbit_report_items v)

  unfoldable pub orbit_report_deserialize : Call Buf OrbitReport
  orbit_report_deserialize = framed do
    rx_time_sec ← unpack_uint_w 64
    rx_time_usec ← unpack_uint_w 32
    azimuth ← unpack_double
    elevation ← unpack_double
    distance ← unpack_double
    freq_corr ← unpack_single
    vlos_vel ← unpack_double
    pure (record {
      rx_time = record { sec = rx_time_sec; usec = rx_time_usec };
      azimuth = azimuth;
      elevation = elevation;
      distance = distance;
      freq_corr = freq_corr;
      vlos_vel = vlos_vel;
    })

  pub Keeps-orbit_report : Keeps orbit_report_deserialize
  unfolding orbit_report_deserialize
  Keeps-orbit_report = search keeps_rules depth 60

  pub Parses-orbit_report :
      (v : OrbitReport) → IsOrbitReport v → Parses orbit_report_deserialize v (orbit_report_items v)
  unfolding orbit_report_deserialize orbit_report_items
  Parses-orbit_report v h = Parses-framed (
      Parses-Field _ (uint64-Field v.rx_time.sec h.0) (
        Parses-Field _ (uint32-Field v.rx_time.usec h.1) (
          Parses-Field _ (double-Field v.azimuth h.2) (
            Parses-Field _ (double-Field v.elevation h.3) (
              Parses-Field _ (double-Field v.distance h.4) (
                Parses-Field _ (single-Field v.freq_corr h.5)
                  (Parses-Field _ (double-Field v.vlos_vel h.6) (Parses-pure v))))))))

  pub Sends-orbit_report :
      (v : OrbitReport)
      → IsOrbitReport v
      → Sends (orbit_report_serialize v) (encode_all (orbit_report_items v))
  unfolding orbit_report_serialize orbit_report_items
  Sends-orbit_report v h =
      Sends-items _ (h.0, (omega (arith, h.1), (h.2, (h.3, (h.4, (h.5, (h.6, tt)))))))
