-- ===== src/Message/Multicast.antt =====
-- `struct suscan_analyzer_multicast_info`, of analyzer/impl/remote.c, the group that a server sends to.
use suscan.Prelude.{ℕ, ◌<◌, ◌^◌, List, [], ◌∷◌, arith}
use suscan.Prelude.Outcome.{Call, pure, ◌>>=◌}
use suscan.GrowBuf.{GrowBuf}
use suscan.Cbor.Items.{Item, uint, pack_items, encode_all}
use suscan.Cbor.Unpack.{unpack_uint_w}
use suscan.Serial.{framed}
use suscan.Serial.Parse.{
  Parses, Parses-Field, Parses-pure, Parses-framed, uint16-Field, uint32-Field,
}
use suscan.Serial.Keeps.{Keeps, keeps_rules}
use suscan.Serial.Codec.{Sends, Sends-items}

-- `struct suscan_analyzer_multicast_info`
pub record MulticastInfo : Type 0 where
  pub multicast_addr : ℕ
  pub multicast_port : ℕ

unfoldable pub multicast_info_items : MulticastInfo → List Item
multicast_info_items v = uint v.multicast_addr ∷ uint v.multicast_port ∷ []

abbrev pub IsMulticastInfo : MulticastInfo → Type 0
IsMulticastInfo v = (v.multicast_addr < 2 ^ 32) × (v.multicast_port < 2 ^ 16)

module _ ⦃g : GrowBuf⦄ where
  open g use {Buf}

  unfoldable pub multicast_info_serialize : MulticastInfo → Call Buf (Unit {0})
  unfolding multicast_info_items
  multicast_info_serialize v = pack_items (multicast_info_items v)

  unfoldable pub multicast_info_deserialize : Call Buf MulticastInfo
  multicast_info_deserialize = framed do
    multicast_addr ← unpack_uint_w 32
    multicast_port ← unpack_uint_w 16
    pure (record { multicast_addr = multicast_addr; multicast_port = multicast_port })

  pub Keeps-multicast_info : Keeps multicast_info_deserialize
  unfolding multicast_info_deserialize
  Keeps-multicast_info = search keeps_rules depth 60

  pub Parses-multicast_info :
      (v : MulticastInfo)
      → IsMulticastInfo v
      → Parses multicast_info_deserialize v (multicast_info_items v)
  unfolding multicast_info_deserialize multicast_info_items
  Parses-multicast_info v h = Parses-framed (
      Parses-Field _ (uint32-Field v.multicast_addr h.0)
        (Parses-Field _ (uint16-Field v.multicast_port h.1) (Parses-pure v)))

  pub Sends-multicast_info :
      (v : MulticastInfo)
      → IsMulticastInfo v
      → Sends (multicast_info_serialize v) (encode_all (multicast_info_items v))
  unfolding multicast_info_serialize multicast_info_items
  Sends-multicast_info v h = Sends-items _ (omega (arith, h.0), (omega (arith, h.1), tt))
