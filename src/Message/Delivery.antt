-- ===== src/Message/Delivery.antt =====
-- What one side of a connection sends, the other receives (analyzer/msg.c, analyzer/impl/remote.c).
use suscan.Prelude.{ℕ, Bool, true, false, ◌≡◌, List, []}
use suscan.GrowBuf.{GrowBuf}
use suscan.Serial.Codec.{Room, Delivered, deliver}
use suscan.Config.{Desc, Config}
use suscan.Config.Arrival.{config_items}
use suscan.Message.ConfigCodec.{IsShared, cfg_configs}
use suscan.Message.Types.{MessageType}
use suscan.Message.Multicast.{MulticastInfo}
use suscan.Message.Hello.{
  ServerHello, IsHello, is_multicast, hello_items, hello_serialize, hello_deserialize, Parses-hello,
  Sends-hello,
}
use suscan.Message.Msg.{Message, IsMessage, msg_items, msg_serialize, msg_deserialize}
use suscan.Message.Msg.Wire.{Parses-msg, Sends-msg}
use suscan.Message.RemoteCall.{RemoteCall, IsCall, call_items, call_serialize, call_deserialize}
use suscan.Message.RemoteCall.Wire.{Parses-call, Sends-call}

module _ ⦃g : GrowBuf⦄ (gives : ℕ → Bool) (mem : (n : ℕ) → gives n ≡ true) where
  open g use {Buf, unread}

  -- A greeting whose fields fit their C types is serialized onto a buffer with nothing unread, where there is room,
  -- and deserialized from it to the same greeting with nothing left unread, where there is memory; where the
  -- multicast flag is not set, the structure that is filled must hold the same group before.
  pub hello_delivered :
      (mc_info : MulticastInfo) (v : ServerHello) (b : Buf)
      → Room
      → IsHello v
      → (is_multicast v ≡ false → mc_info ≡ v.mc_info)
      → unread b ≡ []
      → Delivered hello_serialize (hello_deserialize gives mc_info) hello_items v b
  hello_delivered mc_info v b room h same empty =
      deliver {Good = λ v. IsHello v × (is_multicast v ≡ false → mc_info ≡ v.mc_info)}
        (record {
          sends = λ v h. Sends-hello v h.0;
          parses = λ v h. Parses-hello gives mem mc_info v h.0 h.1;
        })
        v b room (h, same) empty

  module _ (known later : List Desc) (sizeof : MessageType → ℕ)
      (estimators spectsrcs : List ℕ → Bool) where
    -- A message of one of the types source info, source init, end of stream, read error, inspector, PSD, samples,
    -- throttle, params, get params and seek is serialized onto a buffer with nothing unread, where there is room,
    -- and deserialized from it to the same message with nothing left unread, where there is memory. The conditions:
    -- its fields fit their C types, its arrays are no longer than the wire allows, and its strings hold no NUL; an
    -- inspector message is of a known kind, and an OPEN has a configuration and classes of estimators and of
    -- spectrum sources that are registered; a configuration in it has a name and fields of different names, the
    -- receiver has registered its descriptor, none of its values is a file, and all but the floats count as set.
    pub msg_delivered :
        (m : Message Config) (b : Buf)
        → Room
        → IsMessage (IsShared known) estimators spectsrcs m
        → unread b ≡ []
        → Delivered
            (msg_serialize (cfg_configs known later))
            (msg_deserialize (cfg_configs known later) gives sizeof estimators spectsrcs)
            (msg_items config_items)
            m
            b
    msg_delivered m b room h empty =
        deliver
          (record {
            sends = Sends-msg (cfg_configs known later) estimators spectsrcs;
            parses = Parses-msg (cfg_configs known later) gives sizeof estimators spectsrcs mem;
          })
          m b room h empty

    -- A remote call, its arguments within their C types and within the bounds that the other side tests and its
    -- message, where it has one, as in the delivery of a message, is serialized onto a buffer with nothing unread,
    -- where there is room, and deserialized from it to the same call with nothing left unread, where there is
    -- memory.
    pub call_delivered :
        (below : ℕ → ℕ → Bool) (m : RemoteCall Config) (b : Buf)
        → Room
        → IsCall (IsShared known) estimators spectsrcs below m
        → unread b ≡ []
        → Delivered
            (call_serialize (cfg_configs known later))
            (call_deserialize (cfg_configs known later) gives sizeof estimators spectsrcs below)
            (call_items config_items)
            m
            b
    call_delivered below m b room h empty =
        deliver
          (record {
            sends = Sends-call (cfg_configs known later) estimators spectsrcs below;
            parses =
                Parses-call (cfg_configs known later) gives sizeof estimators spectsrcs below mem;
          })
          m b room h empty
