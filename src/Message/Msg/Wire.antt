-- ===== src/Message/Msg/Wire.antt =====
-- How a message behind its type (analyzer/msg.c) is written and read.
use suscan.Prelude.{ℕ, Bool, true, ◌<◌, ◌^◌, ◌≡◌, List, Option, none, some, arith}
use suscan.Prelude.Outcome.{Call, pure, ◌>>=◌, su_false}
use suscan.GrowBuf.{GrowBuf}
use suscan.Cbor.Items.{Item, encode_all}
use suscan.Serial.Parse.{Parses, Parses-only, Parses-part, Parses-pure, Parses-framed, uint32-Field}
use suscan.Serial.Keeps.{
  Keeps, Keeps-pure, Keeps-fail, Keeps-bind, Keeps-framed, Keeps-unpack_uint_w,
}
use suscan.Serial.Codec.{
  Sends, Keeps-calloc, Parses-calloc, Sends-items, Sends-then, Parses-last, Sends-none,
  Parses-after,
}
use suscan.Message.Types.{
  MessageType, type_source_info, type_source_init, type_channel, type_eos, type_read_error,
  type_inspector, type_psd, type_samples, type_throttle, type_params, type_get_params, type_seek,
  type_of, type_of-type_number,
}
use suscan.Message.Configs.{Configs}
use suscan.Message.SourceInfo.Wire.{Keeps-source_info, Parses-source_info, Sends-source_info}
use suscan.Message.Notices.{
  Keeps-status, Parses-status, Sends-status, Keeps-throttle, Parses-throttle, Sends-throttle,
  Keeps-seek, Parses-seek, Sends-seek,
}
use suscan.Message.Params.{Keeps-params, Parses-params, Sends-params}
use suscan.Message.Psd.{
  Keeps-psd, Parses-psd, Sends-psd, Keeps-sample_batch, Parses-sample_batch, Sends-sample_batch,
}
use suscan.Message.Inspector.Envelope.{Keeps-inspector, Parses-inspector, Sends-inspector}
use suscan.Message.Msg.{
  Message, message_number, payload_items, msg_items, IsMessage, message_number_small,
  msg_deserialize_partial, payload_serialize, msg_serialize, filled, payload_deserialize,
  msg_deserialize, source_info_message, source_init_message, channel_message, eos_message,
  read_error_message, inspector_message, psd_message, samples_message, throttle_message,
  params_message, get_params_message, seek_message, other_message,
}

module _ ⦃g : GrowBuf⦄ where
  open g use {Buf}

  module _ (c : Configs) where
    open c use {Config, IsConfig, config_items}

    module _ (gives : ℕ → Bool) (sizeof : MessageType → ℕ)
        (estimators spectsrcs : List ℕ → Bool) where
      Keeps-filled :
          {A : Type 0} (type : MessageType) (message : A → Message Config) (m : Call Buf A)
          → Keeps m
          → Keeps ((filled c gives sizeof estimators spectsrcs) type message m)
      unfolding filled
      Keeps-filled type message m p =
          Keeps-bind _ (λ _. m >>= λ v. pure (message v)) (Keeps-calloc gives (sizeof type))
            λ _. Keeps-bind m _ p λ v. Keeps-pure (message v)

      Parses-filled :
          {A : Type 0} {m : Call Buf A} {v : A} {is : List Item} (mem : (n : ℕ) → gives n ≡ true)
          (type : MessageType) (message : A → Message Config)
          → Parses m v is
          → Parses ((filled c gives sizeof estimators spectsrcs) type message m) (message v) is
      unfolding filled
      Parses-filled {m} {v} mem type message p =
          Parses-after (λ _. m >>= λ v. pure (message v)) (Parses-calloc gives mem (sizeof type))
            (Parses-last (λ v. pure (message v)) p (Parses-pure (message v)))

      Keeps-payload :
          (type : Option MessageType)
          → Keeps ((payload_deserialize c gives sizeof estimators spectsrcs) type)
      unfolding payload_deserialize
      Keeps-payload (some type_source_info) = Keeps-filled _ _ _ (Keeps-source_info gives)
      Keeps-payload (some type_source_init) = Keeps-filled _ _ _ (Keeps-status gives)
      Keeps-payload (some type_channel) = Keeps-fail su_false
      Keeps-payload (some type_eos) = Keeps-filled _ _ _ (Keeps-status gives)
      Keeps-payload (some type_read_error) = Keeps-filled _ _ _ (Keeps-status gives)
      Keeps-payload (some type_inspector) =
          Keeps-filled _ _ _ (Keeps-inspector c gives estimators spectsrcs)
      Keeps-payload (some type_psd) = Keeps-filled _ _ _ (Keeps-psd gives)
      Keeps-payload (some type_samples) = Keeps-filled _ _ _ (Keeps-sample_batch gives)
      Keeps-payload (some type_throttle) = Keeps-filled _ _ _ Keeps-throttle
      Keeps-payload (some type_params) = Keeps-filled _ _ _ Keeps-params
      Keeps-payload (some type_get_params) = Keeps-pure _
      Keeps-payload (some type_seek) = Keeps-filled _ _ _ Keeps-seek
      Keeps-payload none = Keeps-fail su_false

      pub Keeps-msg : Keeps (msg_deserialize c gives sizeof estimators spectsrcs)
      unfolding msg_deserialize msg_deserialize_partial
      Keeps-msg = Keeps-framed _ (
          Keeps-bind _ _ (Keeps-framed _ (Keeps-unpack_uint_w 32))
            λ type. Keeps-payload (type_of type))

      Parses-payload :
          (mem : (n : ℕ) → gives n ≡ true) (m : Message Config)
          → IsMessage IsConfig estimators spectsrcs m
          → Parses
              ((payload_deserialize c gives sizeof estimators spectsrcs)
                (type_of (message_number m)))
              m
              (payload_items config_items m)
      unfolding payload_deserialize payload_items message_number
      Parses-payload mem (source_info_message v) h = rw (type_of-type_number type_source_info) (
          Parses-filled mem type_source_info source_info_message (Parses-source_info gives mem v h))
      Parses-payload mem (source_init_message v) h =
          rw (type_of-type_number type_source_init)
            (Parses-filled mem type_source_init source_init_message (Parses-status gives mem v h))
      Parses-payload mem channel_message h = absurd h
      Parses-payload mem (eos_message v) h =
          rw (type_of-type_number type_eos)
            (Parses-filled mem type_eos eos_message (Parses-status gives mem v h))
      Parses-payload mem (read_error_message v) h =
          rw (type_of-type_number type_read_error)
            (Parses-filled mem type_read_error read_error_message (Parses-status gives mem v h))
      Parses-payload mem (inspector_message v) h = rw (type_of-type_number type_inspector) (
          Parses-filled mem type_inspector inspector_message
            (Parses-inspector c gives estimators spectsrcs mem v h))
      Parses-payload mem (psd_message v) h =
          rw (type_of-type_number type_psd)
            (Parses-filled mem type_psd psd_message (Parses-psd gives mem v h))
      Parses-payload mem (samples_message v) h =
          rw (type_of-type_number type_samples)
            (Parses-filled mem type_samples samples_message (Parses-sample_batch gives mem v h))
      Parses-payload mem (throttle_message v) h =
          rw (type_of-type_number type_throttle)
            (Parses-filled mem type_throttle throttle_message (Parses-throttle v h))
      Parses-payload mem (params_message v) h =
          rw (type_of-type_number type_params)
            (Parses-filled mem type_params params_message (Parses-params v h))
      Parses-payload mem get_params_message h =
          rw (type_of-type_number type_get_params) (Parses-pure get_params_message)
      Parses-payload mem (seek_message v) h =
          rw (type_of-type_number type_seek)
            (Parses-filled mem type_seek seek_message (Parses-seek v h))
      Parses-payload mem (other_message n) h = absurd h

      pub Parses-msg :
          (mem : (n : ℕ) → gives n ≡ true) (m : Message Config)
          → IsMessage IsConfig estimators spectsrcs m
          → Parses
              (msg_deserialize c gives sizeof estimators spectsrcs)
              m
              (msg_items config_items m)
      unfolding msg_deserialize msg_deserialize_partial msg_items
      Parses-msg mem m h = Parses-framed (
          Parses-part _
            (Parses-framed (
              Parses-only (
                uint32-Field (message_number m)
                  (message_number_small IsConfig estimators spectsrcs m h))))
            (Parses-payload mem m h))

    Sends-payload :
        (estimators spectsrcs : List ℕ → Bool) (m : Message Config)
        → IsMessage IsConfig estimators spectsrcs m
        → Sends ((payload_serialize c) m) (encode_all (payload_items config_items m))
    unfolding payload_serialize payload_items
    Sends-payload estimators spectsrcs (source_info_message v) h = Sends-source_info v h
    Sends-payload estimators spectsrcs (source_init_message v) h = Sends-status v h
    Sends-payload estimators spectsrcs channel_message h = absurd h
    Sends-payload estimators spectsrcs (eos_message v) h = Sends-status v h
    Sends-payload estimators spectsrcs (read_error_message v) h = Sends-status v h
    Sends-payload estimators spectsrcs (inspector_message v) h =
        Sends-inspector c estimators spectsrcs v h
    Sends-payload estimators spectsrcs (psd_message v) h = Sends-psd v h
    Sends-payload estimators spectsrcs (samples_message v) h = Sends-sample_batch v h
    Sends-payload estimators spectsrcs (throttle_message v) h = Sends-throttle v h
    Sends-payload estimators spectsrcs (params_message v) h = Sends-params v h
    Sends-payload estimators spectsrcs get_params_message h = Sends-none
    Sends-payload estimators spectsrcs (seek_message v) h = Sends-seek v h
    Sends-payload estimators spectsrcs (other_message n) h = absurd h

    pub Sends-msg :
        (estimators spectsrcs : List ℕ → Bool) (m : Message Config)
        → IsMessage IsConfig estimators spectsrcs m
        → Sends ((msg_serialize c) m) (encode_all (msg_items config_items m))
    unfolding msg_serialize msg_items
    Sends-msg estimators spectsrcs m h =
        let small : message_number m < 2 ^ 32 =
          message_number_small IsConfig estimators spectsrcs m h in
        Sends-then _ _ (Sends-items _ (omega (arith, small), tt))
          (Sends-payload estimators spectsrcs m h)
