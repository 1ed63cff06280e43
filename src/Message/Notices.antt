-- ===== src/Message/Notices.antt =====
-- The status, throttle and seek messages of analyzer/msg.c.
use suscan.Prelude.{ℕ, Bool, true, ◌<◌, ◌^◌, ◌≡◌, List, [], ◌∷◌, arith}
use suscan.Prelude.Int.{ℤ}
use suscan.Prelude.Outcome.{Call, pure, ◌>>=◌}
use suscan.GrowBuf.{GrowBuf}
use suscan.Cbor.Items.{Item, uint, int, str, pack_items, encode_all}
use suscan.Cbor.Unpack.{unpack_str, unpack_uint_w, unpack_int_w}
use suscan.Serial.{framed}
use suscan.Serial.Parse.{
  Parses, Parses-Field, Parses-pure, Parses-framed, IsText, IsI32, wider, uint32-Field,
  uint64-Field, int32-Field, str-Field,
}
use suscan.Serial.Keeps.{Keeps, keeps_rules}
use suscan.Serial.Codec.{Sends, Sends-items}
use suscan.Message.Time.{Time}

-- `struct suscan_analyzer_status_msg`
pub record Status : Type 0 where
  pub code : ℤ
  pub err_msg : List ℕ

unfoldable pub status_items : Status → List Item
status_items v = int v.code ∷ str v.err_msg ∷ []

abbrev pub IsStatus : Status → Type 0
IsStatus v = IsI32 v.code × IsText v.err_msg

-- `struct suscan_analyzer_throttle_msg`
pub record Throttle : Type 0 where
  pub samp_rate : ℕ

unfoldable pub throttle_items : Throttle → List Item
throttle_items v = uint v.samp_rate ∷ []

abbrev pub IsThrottle : Throttle → Type 0
IsThrottle v = (v.samp_rate < 2 ^ 64)

-- `struct suscan_analyzer_seek_msg`
pub record Seek : Type 0 where
  pub position : Time

unfoldable pub seek_items : Seek → List Item
seek_items v = uint v.position.sec ∷ uint v.position.usec ∷ []

abbrev pub IsSeek : Seek → Type 0
IsSeek v = (v.position.sec < 2 ^ 64) × (v.position.usec < 2 ^ 32)

module _ ⦃g : GrowBuf⦄ where
  open g use {Buf}

  unfoldable pub status_serialize : Status → Call Buf (Unit {0})
  unfolding status_items
  status_serialize v = pack_items (status_items v)

  unfoldable pub status_deserialize : (gives : ℕ → Bool) → Call Buf Status
  status_deserialize gives = framed do
    code ← unpack_int_w 32
    err_msg ← unpack_str gives
    pure (record { code = code; err_msg = err_msg })

  pub Keeps-status : (gives : ℕ → Bool) → Keeps (status_deserialize gives)
  unfolding status_deserialize
  Keeps-status gives = search keeps_rules depth 60

  pub Parses-status :
      (gives : ℕ → Bool) (mem : (n : ℕ) → gives n ≡ true)
      → (v : Status) → IsStatus v
      → Parses (status_deserialize gives) v (status_items v)
  unfolding status_deserialize status_items
  Parses-status gives mem v h = Parses-framed (
      Parses-Field _ (int32-Field v.code h.0)
        (Parses-Field _ (str-Field gives mem v.err_msg h.1) (Parses-pure v)))

  pub Sends-status :
      (v : Status) → IsStatus v → Sends (status_serialize v) (encode_all (status_items v))
  unfolding status_serialize status_items
  Sends-status v h = Sends-items _ (wider v.code h.0, (h.1, tt))

  unfoldable pub throttle_serialize : Throttle → Call Buf (Unit {0})
  unfolding throttle_items
  throttle_serialize v = pack_items (throttle_items v)

  unfoldable pub throttle_deserialize : Call Buf Throttle
  throttle_deserialize =
      framed do samp_rate ← unpack_uint_w 64; pure (record { samp_rate = samp_rate })

  pub Keeps-throttle : Keeps throttle_deserialize
  unfolding throttle_deserialize
  Keeps-throttle = search keeps_rules depth 60

  pub Parses-throttle :
      (v : Throttle) → IsThrottle v → Parses throttle_deserialize v (throttle_items v)
  unfolding throttle_deserialize throttle_items
  Parses-throttle v h = Parses-framed (Parses-Field _ (uint64-Field v.samp_rate h) (Parses-pure v))

  pub Sends-throttle :
      (v : Throttle) → IsThrottle v → Sends (throttle_serialize v) (encode_all (throttle_items v))
  unfolding throttle_serialize throttle_items
  Sends-throttle v h = Sends-items _ (h, tt)

  unfoldable pub seek_serialize : Seek → Call Buf (Unit {0})
  unfolding seek_items
  seek_serialize v = pack_items (seek_items v)

  unfoldable pub seek_deserialize : Call Buf Seek
  seek_deserialize = framed do
    position_sec ← unpack_uint_w 64
    position_usec ← unpack_uint_w 32
    pure (record { position = record { sec = position_sec; usec = position_usec } })

  pub Keeps-seek : Keeps seek_deserialize
  unfolding seek_deserialize
  Keeps-seek = search keeps_rules depth 60

  pub Parses-seek : (v : Seek) → IsSeek v → Parses seek_deserialize v (seek_items v)
  unfolding seek_deserialize seek_items
  Parses-seek v h = Parses-framed (
      Parses-Field _ (uint64-Field v.position.sec h.0)
        (Parses-Field _ (uint32-Field v.position.usec h.1) (Parses-pure v)))

  pub Sends-seek : (v : Seek) → IsSeek v → Sends (seek_serialize v) (encode_all (seek_items v))
  unfolding seek_serialize seek_items
  Sends-seek v h = Sends-items _ (h.0, (omega (arith, h.1), tt))
