-- ===== src/Message/SourceParts.antt =====
-- Parts of `struct suscan_analyzer_source_info`, of analyzer/analyzer.h, that are sent where a flag says so.
use suscan.Prelude.{ℕ, ◌<◌, ◌^◌, List, [], ◌∷◌, All, arith}
use suscan.Prelude.Outcome.{Call, pure, ◌>>=◌}
use suscan.GrowBuf.{GrowBuf}
use suscan.Cbor.Items.{Item, uint, double, Fits}
use suscan.Cbor.Unpack.{unpack_double, unpack_uint_w}
use suscan.Serial.Parse.{
  Parses, Parses-Field, Parses-pure, uint32-Field, uint64-Field, double-Field,
}
use suscan.Serial.Keeps.{Keeps, keeps_rules}
use suscan.Message.Time.{Time}

-- `xyz_t qth`, the place of the receiver
pub record Qth : Type 0 where
  pub lat : ℕ
  pub lon : ℕ
  pub height : ℕ

unfoldable pub qth_items : Qth → List Item
qth_items v = double v.lat ∷ double v.lon ∷ double v.height ∷ []

abbrev pub IsQth : Qth → Type 0
IsQth v = (v.lat < 2 ^ 64) × (v.lon < 2 ^ 64) × (v.height < 2 ^ 64)

pub qth-Fits : (v : Qth) → IsQth v → All Fits (qth_items v)
unfolding qth_items
qth-Fits v h = (h.0, (h.1, (h.2, tt)))

-- The times that a seekable source starts and ends at
pub record Window : Type 0 where
  pub source_start : Time
  pub source_end : Time

unfoldable pub window_items : Window → List Item
window_items v =
    uint v.source_start.sec
    ∷ uint v.source_start.usec
    ∷ uint v.source_end.sec
    ∷ uint v.source_end.usec
    ∷ []

abbrev pub IsWindow : Window → Type 0
IsWindow v =
    (v.source_start.sec < 2 ^ 64)
    × (v.source_start.usec < 2 ^ 32)
    × (v.source_end.sec < 2 ^ 64)
    × (v.source_end.usec < 2 ^ 32)

pub window-Fits : (v : Window) → IsWindow v → All Fits (window_items v)
unfolding window_items
window-Fits v h = (h.0, (omega (arith, h.1), (h.2, (omega (arith, h.3), tt))))

module _ ⦃g : GrowBuf⦄ where
  open g use {Buf}

  unfoldable pub qth_deserialize : Call Buf Qth
  qth_deserialize = do
    lat ← unpack_double
    lon ← unpack_double
    height ← unpack_double
    pure (record { lat = lat; lon = lon; height = height })

  pub Keeps-qth : Keeps qth_deserialize
  unfolding qth_deserialize
  Keeps-qth = search keeps_rules depth 60

  pub Parses-qth : (v : Qth) → IsQth v → Parses qth_deserialize v (qth_items v)
  unfolding qth_deserialize qth_items
  Parses-qth v h =
      (Parses-Field _ (double-Field v.lat h.0) (
        Parses-Field _ (double-Field v.lon h.1)
          (Parses-Field _ (double-Field v.height h.2) (Parses-pure v))))

  unfoldable pub window_deserialize : Call Buf Window
  window_deserialize = do
    source_start_sec ← unpack_uint_w 64
    source_start_usec ← unpack_uint_w 32
    source_end_sec ← unpack_uint_w 64
    source_end_usec ← unpack_uint_w 32
    pure (record {
      source_start = record { sec = source_start_sec; usec = source_start_usec };
      source_end = record { sec = source_end_sec; usec = source_end_usec };
    })

  pub Keeps-window : Keeps window_deserialize
  unfolding window_deserialize
  Keeps-window = search keeps_rules depth 60

  pub Parses-window : (v : Window) → IsWindow v → Parses window_deserialize v (window_items v)
  unfolding window_deserialize window_items
  Parses-window v h =
      (Parses-Field _ (uint64-Field v.source_start.sec h.0) (
        Parses-Field _ (uint32-Field v.source_start.usec h.1) (
          Parses-Field _ (uint64-Field v.source_end.sec h.2)
            (Parses-Field _ (uint32-Field v.source_end.usec h.3) (Parses-pure v)))))
