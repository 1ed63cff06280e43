-- ===== src/Message/RemoteCall/Wire.antt =====
-- How a remote call (analyzer/impl/remote.c) is written and read.
use suscan.Prelude.{ℕ, Bool, true, ◌<◌, ◌^◌, ◌≡◌, List, Option, none, some, arith, lt→ltb}
use suscan.GrowBuf.{GrowBuf}
use suscan.Cbor.Items.{encode_all}
use suscan.Serial.Parse.{
  Parses, Parses-Field, Parses-only, Parses-part, Parses-pure, Parses-framed, uint32-Field,
  single-Field, double-Field, bool-Field, str-Field,
}
use suscan.Serial.Keeps.{
  Keeps, Keeps-pure, Keeps-bind, Keeps-framed, Keeps-unpack_uint_w, keeps_rules,
}
use suscan.Serial.Codec.{
  Sends, Sends-items, Sends-then, Parses-last, Parses-check, Sends-none, Parses-after,
}
use suscan.Message.RemoteTypes.{
  RemoteType, remote_auth_info, remote_source_info, remote_set_frequency, remote_set_gain,
  remote_set_antenna, remote_set_ppm, remote_set_bandwidth, remote_set_dc_remove,
  remote_set_iq_reverse, remote_set_agc, remote_force_eos, remote_set_sweep_strategy,
  remote_set_spectrum_partitioning, remote_set_hop_range, remote_set_buffering_size, remote_message,
  remote_req_halt, remote_auth_rejected, remote_startup_error, remote_of, remote_of-remote_number,
}
use suscan.Message.Types.{MessageType}
use suscan.Message.Configs.{Configs}
use suscan.Message.SourceInfo.Wire.{Keeps-source_info, Parses-source_info, Sends-source_info}
use suscan.Message.ClientAuth.{Keeps-client_auth, Parses-client_auth, Sends-client_auth}
use suscan.Message.Msg.Wire.{Keeps-msg, Parses-msg, Sends-msg}
use suscan.Message.RemoteCall.{
  RemoteCall, call_number, args_items, call_items, IsCall, call_number_small,
  call_deserialize_partial, args_serialize, call_serialize, args_deserialize, call_deserialize,
  auth_info_call, source_info_call, set_frequency_call, set_gain_call, set_antenna_call,
  set_ppm_call, set_bandwidth_call, set_dc_remove_call, set_iq_reverse_call, set_agc_call,
  force_eos_call, set_sweep_strategy_call, set_spectrum_partitioning_call, set_hop_range_call,
  set_buffering_size_call, message_call, req_halt_call, auth_rejected_call, startup_error_call,
  other_call,
}

module _ ⦃g : GrowBuf⦄ where
  open g use {Buf}

  module _ (c : Configs) where
    open c use {Config, IsConfig, config_items}

    module _ (gives : ℕ → Bool) (sizeof : MessageType → ℕ) (estimators spectsrcs : List ℕ → Bool)
        (below : ℕ → ℕ → Bool) where
      pub Keeps-args :
          (n : ℕ) (type : Option RemoteType)
          → Keeps ((args_deserialize c gives sizeof estimators spectsrcs below) n type)
      unfolding args_deserialize
      Keeps-args n (some remote_auth_info) =
          Keeps-bind _ _ (Keeps-client_auth gives) λ v. Keeps-pure _
      Keeps-args n (some remote_source_info) =
          Keeps-bind _ _ (Keeps-source_info gives) λ v. Keeps-pure _
      Keeps-args n (some remote_set_frequency) = search keeps_rules depth 30
      Keeps-args n (some remote_set_gain) = search keeps_rules depth 30
      Keeps-args n (some remote_set_antenna) = search keeps_rules depth 30
      Keeps-args n (some remote_set_ppm) = search keeps_rules depth 30
      Keeps-args n (some remote_set_bandwidth) = search keeps_rules depth 30
      Keeps-args n (some remote_set_dc_remove) = search keeps_rules depth 30
      Keeps-args n (some remote_set_iq_reverse) = search keeps_rules depth 30
      Keeps-args n (some remote_set_agc) = search keeps_rules depth 30
      Keeps-args n (some remote_force_eos) = Keeps-pure _
      Keeps-args n (some remote_set_sweep_strategy) = search keeps_rules depth 30
      Keeps-args n (some remote_set_spectrum_partitioning) = search keeps_rules depth 30
      Keeps-args n (some remote_set_hop_range) = search keeps_rules depth 30
      Keeps-args n (some remote_set_buffering_size) = search keeps_rules depth 30
      Keeps-args n (some remote_message) =
          Keeps-bind _ _ (Keeps-msg c gives sizeof estimators spectsrcs) λ v. Keeps-pure _
      Keeps-args n (some remote_req_halt) = Keeps-pure _
      Keeps-args n (some remote_auth_rejected) = Keeps-pure _
      Keeps-args n (some remote_startup_error) = Keeps-pure _
      Keeps-args n none = Keeps-pure _

      pub Keeps-call : Keeps (call_deserialize c gives sizeof estimators spectsrcs below)
      unfolding call_deserialize call_deserialize_partial
      Keeps-call = Keeps-framed _ (
          Keeps-bind _ _ (Keeps-framed _ (Keeps-unpack_uint_w 32))
            λ type. Keeps-args type (remote_of type))

      Parses-args :
          (mem : (n : ℕ) → gives n ≡ true) (m : RemoteCall Config)
          → IsCall IsConfig estimators spectsrcs below m
          → Parses
              ((args_deserialize c gives sizeof estimators spectsrcs below)
                (call_number m)
                (remote_of (call_number m)))
              m
              (args_items config_items m)
      unfolding args_deserialize args_items call_number
      Parses-args mem (auth_info_call v) h =
          rw (remote_of-remote_number remote_auth_info)
            (Parses-last _ (Parses-client_auth gives mem v h) (Parses-pure (auth_info_call v)))
      Parses-args mem (source_info_call v) h =
          rw (remote_of-remote_number remote_source_info)
            (Parses-last _ (Parses-source_info gives mem v h) (Parses-pure (source_info_call v)))
      Parses-args mem (set_frequency_call freq lnb) h =
          rw (remote_of-remote_number remote_set_frequency) (
            Parses-Field _ (double-Field freq h.0)
              (Parses-Field _ (double-Field lnb h.1) (Parses-pure (set_frequency_call freq lnb))))
      Parses-args mem (set_gain_call name value) h = rw (remote_of-remote_number remote_set_gain) (
          Parses-Field _ (str-Field gives mem name h.0)
            (Parses-Field _ (single-Field value h.1) (Parses-pure (set_gain_call name value))))
      Parses-args mem (set_antenna_call antenna) h =
          rw (remote_of-remote_number remote_set_antenna) (
            Parses-Field _ (str-Field gives mem antenna h) (Parses-pure (set_antenna_call antenna)))
      Parses-args mem (set_ppm_call ppm) h =
          rw (remote_of-remote_number remote_set_ppm)
            (Parses-Field _ (single-Field ppm h) (Parses-pure (set_ppm_call ppm)))
      Parses-args mem (set_bandwidth_call bandwidth) h =
          rw (remote_of-remote_number remote_set_bandwidth)
            (Parses-Field _ (single-Field bandwidth h) (Parses-pure (set_bandwidth_call bandwidth)))
      Parses-args mem (set_dc_remove_call dc_remove) h =
          rw (remote_of-remote_number remote_set_dc_remove)
            (Parses-Field _ (bool-Field dc_remove) (Parses-pure (set_dc_remove_call dc_remove)))
      Parses-args mem (set_iq_reverse_call iq_reverse) h =
          rw (remote_of-remote_number remote_set_iq_reverse)
            (Parses-Field _ (bool-Field iq_reverse) (Parses-pure (set_iq_reverse_call iq_reverse)))
      Parses-args mem (set_agc_call agc) h =
          rw (remote_of-remote_number remote_set_agc)
            (Parses-Field _ (bool-Field agc) (Parses-pure (set_agc_call agc)))
      Parses-args mem force_eos_call h =
          rw (remote_of-remote_number remote_force_eos) (Parses-pure force_eos_call)
      Parses-args mem (set_sweep_strategy_call sweep_strategy) h =
          rw (remote_of-remote_number remote_set_sweep_strategy) (
            Parses-Field _ (uint32-Field sweep_strategy (omega arith)) (
              Parses-after _ (Parses-check _ (lt→ltb sweep_strategy 2 h))
                (Parses-pure (set_sweep_strategy_call sweep_strategy))))
      Parses-args mem (set_spectrum_partitioning_call spectrum_partitioning) h =
          rw (remote_of-remote_number remote_set_spectrum_partitioning) (
            Parses-Field _ (uint32-Field spectrum_partitioning (omega arith)) (
              Parses-after _ (Parses-check _ (lt→ltb spectrum_partitioning 2 h))
                (Parses-pure (set_spectrum_partitioning_call spectrum_partitioning))))
      Parses-args mem (set_hop_range_call min max) h =
          rw (remote_of-remote_number remote_set_hop_range) (
            Parses-Field _ (double-Field min h.0) (
              Parses-Field _ (double-Field max h.1)
                (Parses-after _ (Parses-check _ h.2) (Parses-pure (set_hop_range_call min max)))))
      Parses-args mem (set_buffering_size_call buffering_size) h =
          rw (remote_of-remote_number remote_set_buffering_size) (
            Parses-Field _ (uint32-Field buffering_size h)
              (Parses-pure (set_buffering_size_call buffering_size)))
      Parses-args mem (message_call v) h = rw (remote_of-remote_number remote_message) (
          Parses-last _ (Parses-msg c gives sizeof estimators spectsrcs mem v h)
            (Parses-pure (message_call v)))
      Parses-args mem req_halt_call h =
          rw (remote_of-remote_number remote_req_halt) (Parses-pure req_halt_call)
      Parses-args mem auth_rejected_call h =
          rw (remote_of-remote_number remote_auth_rejected) (Parses-pure auth_rejected_call)
      Parses-args mem startup_error_call h =
          rw (remote_of-remote_number remote_startup_error) (Parses-pure startup_error_call)
      Parses-args mem (other_call n) h = rw (h.1) (Parses-pure (other_call n))

      pub Parses-call :
          (mem : (n : ℕ) → gives n ≡ true) (m : RemoteCall Config)
          → IsCall IsConfig estimators spectsrcs below m
          → Parses
              (call_deserialize c gives sizeof estimators spectsrcs below)
              m
              (call_items config_items m)
      unfolding call_deserialize call_deserialize_partial call_items
      Parses-call mem m h = Parses-framed (
          Parses-part _
            (Parses-framed (
              Parses-only (
                uint32-Field (call_number m)
                  (call_number_small IsConfig estimators spectsrcs below m h))))
            (Parses-args mem m h))

    Sends-args :
        (estimators spectsrcs : List ℕ → Bool) (below : ℕ → ℕ → Bool) (m : RemoteCall Config)
        → IsCall IsConfig estimators spectsrcs below m
        → Sends ((args_serialize c) m) (encode_all (args_items config_items m))
    unfolding args_serialize args_items
    Sends-args estimators spectsrcs below (auth_info_call v) h = Sends-client_auth v h
    Sends-args estimators spectsrcs below (source_info_call v) h = Sends-source_info v h
    Sends-args estimators spectsrcs below (set_frequency_call freq lnb) h =
        Sends-items _ (h.0, (h.1, tt))
    Sends-args estimators spectsrcs below (set_gain_call name value) h =
        Sends-items _ (h.0, (h.1, tt))
    Sends-args estimators spectsrcs below (set_antenna_call antenna) h = Sends-items _ (h, tt)
    Sends-args estimators spectsrcs below (set_ppm_call ppm) h = Sends-items _ (h, tt)
    Sends-args estimators spectsrcs below (set_bandwidth_call bandwidth) h = Sends-items _ (h, tt)
    Sends-args estimators spectsrcs below (set_dc_remove_call dc_remove) h = Sends-items _ (tt, tt)
    Sends-args estimators spectsrcs below (set_iq_reverse_call iq_reverse) h =
        Sends-items _ (tt, tt)
    Sends-args estimators spectsrcs below (set_agc_call agc) h = Sends-items _ (tt, tt)
    Sends-args estimators spectsrcs below force_eos_call h = Sends-none
    Sends-args estimators spectsrcs below (set_sweep_strategy_call sweep_strategy) h =
        Sends-items _ (omega (arith, h), tt)
    Sends-args estimators spectsrcs below (set_spectrum_partitioning_call spectrum_partitioning) h =
        Sends-items _ (omega (arith, h), tt)
    Sends-args estimators spectsrcs below (set_hop_range_call min max) h =
        Sends-items _ (h.0, (h.1, tt))
    Sends-args estimators spectsrcs below (set_buffering_size_call buffering_size) h =
        Sends-items _ (omega (arith, h), tt)
    Sends-args estimators spectsrcs below (message_call v) h = Sends-msg c estimators spectsrcs v h
    Sends-args estimators spectsrcs below req_halt_call h = Sends-none
    Sends-args estimators spectsrcs below auth_rejected_call h = Sends-none
    Sends-args estimators spectsrcs below startup_error_call h = Sends-none
    Sends-args estimators spectsrcs below (other_call n) h = Sends-none

    pub Sends-call :
        (estimators spectsrcs : List ℕ → Bool) (below : ℕ → ℕ → Bool) (m : RemoteCall Config)
        → IsCall IsConfig estimators spectsrcs below m
        → Sends ((call_serialize c) m) (encode_all (call_items config_items m))
    unfolding call_serialize call_items
    Sends-call estimators spectsrcs below m h =
        let small : call_number m < 2 ^ 32 =
          call_number_small IsConfig estimators spectsrcs below m h in
        Sends-then _ _ (Sends-items _ (omega (arith, small), tt))
          (Sends-args estimators spectsrcs below m h)
