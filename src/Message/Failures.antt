-- ===== src/Message/Failures.antt =====
-- Calls and messages that are not accepted (analyzer/msg.c, analyzer/impl/remote.c).
use suscan.Prelude.{
  ◌∷◌, ◌++◌, ℕ, Bool, ◌<◌, ◌^◌, ◌≡◌, ◌≢◌, ◌∙◌, ap, refl, List, [], none, arith, append-nil,
}
use suscan.Prelude.Outcome.{ok, err, Errno, su_false, fault, and_then}
use suscan.GrowBuf.{GrowBuf}
use suscan.Cbor.Items.{uint, encode_all}
use suscan.Serial.{framed, give_up}
use suscan.Serial.Parse.{Parses-framed, Parses-only, uint32-Field}
use suscan.Serial.Keeps.{Keeps-bind, Keeps-framed, Keeps-unpack_uint_w, framed_unchanged}
use suscan.Serial.Codec.{Room, Sends-items, Sends-then, Sends-none}
use suscan.Config.{Desc}
use suscan.Message.Configs.{Configs}
use suscan.Message.ConfigCodec.{cfg_configs}
use suscan.Message.Types.{MessageType, type_of}
use suscan.Message.Msg.{
  other_message, message_number, payload_serialize, payload_deserialize, msg_serialize,
  msg_deserialize, msg_deserialize_partial,
}
use suscan.Message.RemoteTypes.{remote_of}
use suscan.Message.RemoteCall.{call_deserialize, call_deserialize_partial}
use suscan.Message.RemoteCall.Wire.{Keeps-args}

module _ ⦃g : GrowBuf⦄ where
  open g use {Buf, unread, ptr}

  -- The deserialization of a remote call that fails, on whatever buffer and registry of descriptors and for any
  -- reason but an access outside the memory of an array, leaves the position of the buffer and so what is unread
  -- as they were.
  pub call_unchanged :
      (known later : List Desc) (gives : ℕ → Bool) (sizeof : MessageType → ℕ)
      (estimators spectsrcs : List ℕ → Bool) (below : ℕ → ℕ → Bool) (b : Buf) (e : Errno)
      → e ≢ fault
      → (call_deserialize (cfg_configs known later) gives sizeof estimators spectsrcs below b).0
        ≡ err e
      → (ptr
            (call_deserialize (cfg_configs known later) gives sizeof estimators spectsrcs below b).1
          ≡ ptr b)
        × (unread
              (call_deserialize
                (cfg_configs known later)
                gives
                sizeof
                estimators
                spectsrcs
                below
                b).1
            ≡ unread b)
  unfolding call_deserialize call_deserialize_partial
  call_unchanged known later gives sizeof estimators spectsrcs below b e safe failed =
      framed_unchanged _ b e
        (Keeps-bind _ _ (Keeps-framed _ (Keeps-unpack_uint_w 32)) λ type.
          Keeps-args (cfg_configs known later) gives sizeof estimators spectsrcs below type
            (remote_of type))
        safe failed

module _ ⦃g : GrowBuf⦄ (c : Configs) (gives : ℕ → Bool) (sizeof : MessageType → ℕ)
    (estimators spectsrcs : List ℕ → Bool) where
  open g use {Buf, unread, ptr}

  -- A message of a type of 32 bits that no case names is serialized with success onto a buffer with nothing unread,
  -- where there is room, and what was written is refused by the deserializer.
  pub msg_unknown :
      (n : ℕ) (b : Buf)
      → Room
      → n < 2 ^ 32
      → type_of n ≡ none
      → unread b ≡ []
      → ((msg_serialize c (other_message n) b).0 ≡ ok tt)
        × ((msg_deserialize c gives sizeof estimators spectsrcs
              (msg_serialize c (other_message n) b).1).0
            ≡ err su_false)
  unfolding msg_serialize msg_deserialize payload_serialize payload_deserialize message_number
      msg_deserialize_partial framed give_up
  msg_unknown n b room fits unknown empty =
      let s =
        Sends-then (uint n ∷ []) [] (Sends-items (uint n ∷ []) (omega (arith, fits), tt))
          Sends-none in
      let sent = (msg_serialize c (other_message n) b).1 in
      let done : msg_serialize c (other_message n) b ≡ (ok tt, sent) =
        λ i. (s.succeeds room b i, sent) in
      let left : unread sent ≡ encode_all (uint n ∷ []) ++ [] =
        s.appends.writes b sent done ∙ rw (empty, append-nil (encode_all (uint n ∷ []))) refl in
      let r = (Parses-framed (Parses-only (uint32-Field n fits))).at [] sent left in
      (
        s.succeeds room b,
        ap
              (λ o.
                (give_up (ptr sent) (
                  and_then o (λ type.
                    payload_deserialize c gives sizeof estimators spectsrcs (type_of type)))).0)
              r.run
            ∙ rw unknown refl,
      )
