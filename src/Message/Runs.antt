-- ===== src/Message/Runs.antt =====
-- Messages and calls (analyzer/msg.c, analyzer/impl/remote.c) sent over plain buffers.
use suscan.Prelude.{ℕ, ◌≡◌, refl, true, List, [], ◌∷◌, arith, ltb, inl, false}
use suscan.Prelude.Int.{negsuc}
use suscan.Prelude.Outcome.{ok, err, su_false}
use suscan.GrowBuf.Plain.{PlainBuf, plain}
use suscan.Cbor.Pack.{strlen}
use suscan.Cbor.Items.{encode_all}
use suscan.Cbor.Wire.Reads.{Reads}
use suscan.Cbor.Unpack.{
  unpack_uint_w, unpack_uint, on_loan, finish, unpack_cbor_int, read_cbor_type, split_type,
  get_addl_bytes, get_addl_word, addl_size, addl_value,
}
use suscan.Serial.{framed, give_up, is_fault}
use suscan.Serial.Codec.{Delivered}
use suscan.Config.{
  Desc, Config, field_type_integer, field_type_float, field_type_boolean, field_type_string, as_int,
  as_float, as_bool, as_string, same_text, same_type,
}
use suscan.Config.Wire.{config_serialize, config_deserialize}
use suscan.Config.Sendable.{of_integer, of_float, of_boolean, of_string, arrived_value}
use suscan.Config.Arrival.{IsSendable, config_items, arrived, arrived_values, config_arrives}
use suscan.Message.Configs.{Configs}
use suscan.Message.ConfigCodec.{IsShared, cfg_configs}
use suscan.Message.Types.{MessageType, type_of}
use suscan.Message.Hello.{ServerHello, IsHello, hello_items, hello_serialize, hello_deserialize}
use suscan.Message.Inspector.Body.{config_body}
use suscan.Message.Msg.{
  Message, IsMessage, psd_message, inspector_message, other_message, msg_items, msg_serialize,
  msg_deserialize,
}
use suscan.Message.RemoteCall.{
  message_call, set_sweep_strategy_call, call_items, call_serialize, call_deserialize,
  call_deserialize_partial, args_deserialize,
}
use suscan.Message.RemoteTypes.{remote_of}
use suscan.Cbor.Format.{be8_to_cpu}
use suscan.Message.Delivery.{hello_delivered, msg_delivered, call_delivered}
use suscan.Message.Failures.{call_unchanged, msg_unknown}
use suscan.Message.Acceptance.{IsAccepted, call-IsAccepted}

abbrev empty_buffer : PlainBuf
empty_buffer = record { done = []; bytes = [] }

-- A descriptor with a field of each kind that arrives
abbrev tuner : Desc
tuner = record {
  global_name = 116 ∷ [];
  registered = true;
  field_list =
      record { type = field_type_integer; optional = false; name = 110 ∷ []; desc = [] }
      ∷ record { type = field_type_float; optional = true; name = 102 ∷ []; desc = [] }
      ∷ record { type = field_type_boolean; optional = true; name = 98 ∷ []; desc = [] }
      ∷ record { type = field_type_string; optional = true; name = 115 ∷ []; desc = [] }
      ∷ [];
}

abbrev tuned : Config
tuned = record {
  of = tuner;
  values =
      record { set = true; content = as_int 300 }
      ∷ record { set = false; content = as_float 0x3f80_0000 }
      ∷ record { set = true; content = as_bool true }
      ∷ record { set = true; content = as_string (97 ∷ 109 ∷ []) }
      ∷ [];
}

abbrev known : List Desc
known = tuner ∷ []

abbrev configs : Configs ⦃g = plain⦄
configs = cfg_configs known []

tuned-IsSendable : IsSendable tuned
unfolding strlen same_text
tuned-IsSendable = record {
  named = omega arith;
  name = omega arith;
  count = omega arith;
  apart = ((refl, (refl, (refl, tt))), ((refl, (refl, tt)), ((refl, tt), (tt, tt))));
  values = (
    omega arith,
    of_integer 300 (omega arith),
    (
      omega arith,
      of_float 0x3f80_0000 (omega arith),
      (omega arith, of_boolean true, (omega arith, of_string (97 ∷ 109 ∷ []) (omega arith), tt)),
    ),
  );
}

tuned-IsShared : IsShared known tuned
unfolding arrived arrived_values arrived_value same_type
tuned-IsShared = record { sendable = tuned-IsSendable; registered = inl refl; flags = refl }

abbrev sizes : MessageType → ℕ
sizes type = 64

abbrev greeting : ServerHello
greeting = record {
  server_name = 115 ∷ 100 ∷ 114 ∷ [];
  protocol_version_major = 0;
  protocol_version_minor = 12;
  auth_mode = 0;
  enc_type = 0;
  sha256salt =
      1 ∷ 2 ∷ 3 ∷ 4 ∷ 5 ∷ 6 ∷ 7 ∷ 8 ∷ 9 ∷ 10 ∷ 11 ∷ 12 ∷ 13 ∷ 14 ∷ 15 ∷ 16 ∷ 17 ∷ 18 ∷ 19 ∷ 20 ∷ 21
      ∷ 22 ∷ 23 ∷ 24 ∷ 25 ∷ 26 ∷ 27 ∷ 28 ∷ 29 ∷ 30 ∷ 31 ∷ 32 ∷ [];
  flags = 0;
  mc_info = record { multicast_addr = 7; multicast_port = 5556 };
}

greeting-IsHello : IsHello greeting
unfolding strlen
greeting-IsHello = omega arith

hello_delivered_example :
    Delivered hello_serialize
      (hello_deserialize (λ n. true) greeting.mc_info)
      hello_items
      greeting
      empty_buffer
hello_delivered_example =
    hello_delivered (λ n. true) (λ n. refl) greeting.mc_info greeting empty_buffer
      (λ bs b. refl, λ bs b. refl) greeting-IsHello (λ off. refl) refl

abbrev spectrum : Message Config
spectrum = psd_message (record {
  head = record {
    fc = negsuc 4;
    inspector_id = 3;
    timestamp = record { sec = 1700000000; usec = 5 };
    rt_time = record { sec = 1700000000; usec = 6 };
    looped = true;
    samp_rate = 7;
    measured_samp_rate = 8;
    n0 = 9;
  };
  psd_data = 0x3f80_0000 ∷ 0 ∷ 0xbf80_0000 ∷ [];
})

msg_delivered_example :
    Delivered
      (msg_serialize configs)
      (msg_deserialize configs (λ n. true) sizes (λ s. true) (λ s. true))
      (msg_items config_items)
      spectrum
      empty_buffer
msg_delivered_example =
    msg_delivered (λ n. true) (λ n. refl) known [] sizes (λ s. true) (λ s. true) spectrum
      empty_buffer (λ bs b. refl, λ bs b. refl) (omega arith) refl

-- A configuration for an inspector
abbrev retune : Message Config
retune = inspector_message (record {
  inspector_id = 1;
  req_id = 2;
  handle = 3;
  status = negsuc 0;
  rt_time = record { sec = 1700000000; usec = 5 };
  body = config_body tuned;
})

retune-IsMessage : IsMessage (IsShared known) (λ s. true) (λ s. true) retune
retune-IsMessage =
    (omega arith, omega arith, omega arith, omega arith, omega arith, omega arith, tuned-IsShared)

config_arrives_example :
    (sent : PlainBuf) × (config_serialize tuned empty_buffer ≡ (ok tt, sent))
    × Reads
        (config_deserialize (λ n. true) known [])
        sent
        (arrived tuned)
        (encode_all (config_items tuned))
        []
config_arrives_example =
    config_arrives (λ n. true) (λ n. refl) known [] tuned empty_buffer (λ bs b. refl, λ bs b. refl)
      tuned-IsSendable (inl refl) refl

call_delivered_example :
    Delivered
      (call_serialize configs)
      (call_deserialize configs (λ n. true) sizes (λ s. true) (λ s. true) ltb)
      (call_items config_items)
      (message_call retune)
      empty_buffer
call_delivered_example =
    call_delivered (λ n. true) (λ n. refl) known [] sizes (λ s. true) (λ s. true) ltb
      (message_call retune) empty_buffer (λ bs b. refl, λ bs b. refl) retune-IsMessage refl

msg_unknown_example :
    ((msg_serialize configs (other_message 5) empty_buffer).0 ≡ ok tt)
    × ((msg_deserialize configs
          (λ n. true)
          sizes
          (λ s. true)
          (λ s. true)
          (msg_serialize configs (other_message 5) empty_buffer).1).0
        ≡ err su_false)
unfolding type_of
msg_unknown_example =
    msg_unknown configs (λ n. true) sizes (λ s. true) (λ s. true) 5 empty_buffer
      (λ bs b. refl, λ bs b. refl) (omega arith) refl refl

-- A sweep strategy, as it is sent
abbrev sweep : ℕ → PlainBuf
sweep n = record { done = 7 ∷ []; bytes = 12 ∷ n ∷ [] }

sweep_refused :
    (call_deserialize configs (λ n. true) sizes (λ s. true) (λ s. true) ltb (sweep 5)).0
    ≡ err su_false
unfolding call_deserialize call_deserialize_partial args_deserialize remote_of framed give_up
    is_fault unpack_uint_w unpack_uint on_loan finish unpack_cbor_int read_cbor_type split_type
    get_addl_bytes get_addl_word addl_size addl_value be8_to_cpu
sweep_refused = refl

call_unchanged_example :
    (plain.ptr (call_deserialize configs (λ n. true) sizes (λ s. true) (λ s. true) ltb (sweep 5)).1
      ≡ plain.ptr (sweep 5))
    × (plain.unread
          (call_deserialize configs (λ n. true) sizes (λ s. true) (λ s. true) ltb (sweep 5)).1
        ≡ plain.unread (sweep 5))
call_unchanged_example =
    call_unchanged known [] (λ n. true) sizes (λ s. true) (λ s. true) ltb (sweep 5) su_false
      (λ e. cc) sweep_refused

sweep_accepted :
    call_deserialize configs (λ n. true) sizes (λ s. true) (λ s. true) ltb (sweep 1)
    ≡ (ok (set_sweep_strategy_call 1), record { done = 7 ∷ 12 ∷ 1 ∷ []; bytes = [] })
unfolding call_deserialize call_deserialize_partial args_deserialize remote_of framed give_up
    is_fault unpack_uint_w unpack_uint on_loan finish unpack_cbor_int read_cbor_type split_type
    get_addl_bytes get_addl_word addl_size addl_value be8_to_cpu
sweep_accepted = refl

call-IsAccepted_example : IsAccepted {Config = Config} ltb (set_sweep_strategy_call 1)
call-IsAccepted_example =
    call-IsAccepted (λ n. true) configs sizes (λ s. true) (λ s. true) ltb (sweep 1)
      (record { done = 7 ∷ 12 ∷ 1 ∷ []; bytes = [] }) (set_sweep_strategy_call 1) sweep_accepted
