-- ===== src/Message/Acceptance.antt =====
-- What a remote call that is accepted satisfies (analyzer/impl/remote.c).
use suscan.Prelude.{ap, ℕ, Bool, true, ◌<◌, ◌≡◌, ltb→lt, ==→eq, List, length, Option, none, some}
use suscan.Prelude.Outcome.{ok}
use suscan.GrowBuf.{GrowBuf}
use suscan.Cbor.Unpack.{
  unpack_uint_w, unpack_double, unpack_str, unpack_single, unpack_bool, unpack_blob,
}
use suscan.Serial.Ensures.{
  Ensures, Ensures-pure, Ensures-bind, Ensures-after, Ensures-check, Ensures-framed,
}
use suscan.Message.Configs.{Configs}
use suscan.Message.Types.{MessageType}
use suscan.Message.ClientAuth.{sha256_block_size, client_auth_deserialize}
use suscan.Message.SourceInfo.{source_info_deserialize}
use suscan.Message.Msg.{msg_deserialize}
use suscan.Message.RemoteTypes.{
  RemoteType, remote_auth_info, remote_source_info, remote_set_frequency, remote_set_gain,
  remote_set_antenna, remote_set_ppm, remote_set_bandwidth, remote_set_dc_remove,
  remote_set_iq_reverse, remote_set_agc, remote_force_eos, remote_set_sweep_strategy,
  remote_set_spectrum_partitioning, remote_set_hop_range, remote_set_buffering_size, remote_message,
  remote_req_halt, remote_auth_rejected, remote_startup_error, remote_of,
}
use suscan.Message.RemoteCall.{
  RemoteCall, auth_info_call, source_info_call, set_frequency_call, set_gain_call, set_antenna_call,
  set_ppm_call, set_bandwidth_call, set_dc_remove_call, set_iq_reverse_call, set_agc_call,
  force_eos_call, set_sweep_strategy_call, set_spectrum_partitioning_call, set_hop_range_call,
  set_buffering_size_call, message_call, req_halt_call, auth_rejected_call, startup_error_call,
  other_call, args_deserialize, call_deserialize, call_deserialize_partial,
}

-- What the server relies on in the arguments of a call, and a token of the length of a hash
abbrev pub IsAccepted : {Config : Type 0} → (ℕ → ℕ → Bool) → RemoteCall Config → Type 0
IsAccepted below (auth_info_call v) = length v.sha256token ≡ sha256_block_size
IsAccepted below (source_info_call v) = Unit {0}
IsAccepted below (set_frequency_call freq lnb) = Unit {0}
IsAccepted below (set_gain_call name value) = Unit {0}
IsAccepted below (set_antenna_call antenna) = Unit {0}
IsAccepted below (set_ppm_call ppm) = Unit {0}
IsAccepted below (set_bandwidth_call bandwidth) = Unit {0}
IsAccepted below (set_dc_remove_call dc_remove) = Unit {0}
IsAccepted below (set_iq_reverse_call iq_reverse) = Unit {0}
IsAccepted below (set_agc_call agc) = Unit {0}
IsAccepted below force_eos_call = Unit {0}
IsAccepted below (set_sweep_strategy_call sweep_strategy) = sweep_strategy < 2
IsAccepted below (set_spectrum_partitioning_call spectrum_partitioning) = spectrum_partitioning < 2
IsAccepted below (set_hop_range_call min max) = below min max ≡ true
IsAccepted below (set_buffering_size_call buffering_size) = Unit {0}
IsAccepted below (message_call v) = Unit {0}
IsAccepted below req_halt_call = Unit {0}
IsAccepted below auth_rejected_call = Unit {0}
IsAccepted below startup_error_call = Unit {0}
IsAccepted below (other_call n) = Unit {0}

module _ ⦃g : GrowBuf⦄ (gives : ℕ → Bool) where
  open g use {Buf}

  Ensures-client_auth :
      Ensures (λ v. length v.sha256token ≡ sha256_block_size) (client_auth_deserialize gives)
  unfolding client_auth_deserialize
  Ensures-client_auth = Ensures-framed _ (
      Ensures-bind (unpack_str gives) _ λ client_name. Ensures-bind (unpack_uint_w 8) _ λ major.
        Ensures-bind (unpack_uint_w 8) _ λ minor. Ensures-bind (unpack_str gives) _ λ user.
          Ensures-bind (unpack_blob gives 0) _ λ token. Ensures-check _ _ λ size.
            Ensures-bind (unpack_uint_w 32) _
              λ flags. Ensures-pure _ (==→eq (length {A = ℕ} token) sha256_block_size size))

  module _ (c : Configs) (sizeof : MessageType → ℕ) (estimators spectsrcs : List ℕ → Bool)
      (below : ℕ → ℕ → Bool) where
    Ensures-args :
        (n : ℕ) (type : Option RemoteType)
        → Ensures
            (IsAccepted below)
            (args_deserialize c gives sizeof estimators spectsrcs below n type)
    unfolding args_deserialize
    Ensures-args n (some remote_auth_info) =
        Ensures-after _ (client_auth_deserialize gives) _ Ensures-client_auth
          λ v h. Ensures-pure _ h
    Ensures-args n (some remote_source_info) =
        Ensures-bind (source_info_deserialize gives) _ λ v. Ensures-pure _ tt
    Ensures-args n (some remote_set_frequency) =
        Ensures-bind (unpack_double) _
          λ freq. Ensures-bind (unpack_double) _ λ lnb. Ensures-pure _ tt
    Ensures-args n (some remote_set_gain) =
        Ensures-bind (unpack_str gives) _
          λ name. Ensures-bind (unpack_single) _ λ value. Ensures-pure _ tt
    Ensures-args n (some remote_set_antenna) =
        Ensures-bind (unpack_str gives) _ λ antenna. Ensures-pure _ tt
    Ensures-args n (some remote_set_ppm) = Ensures-bind (unpack_single) _ λ ppm. Ensures-pure _ tt
    Ensures-args n (some remote_set_bandwidth) =
        Ensures-bind (unpack_single) _ λ bandwidth. Ensures-pure _ tt
    Ensures-args n (some remote_set_dc_remove) =
        Ensures-bind (unpack_bool) _ λ dc_remove. Ensures-pure _ tt
    Ensures-args n (some remote_set_iq_reverse) =
        Ensures-bind (unpack_bool) _ λ iq_reverse. Ensures-pure _ tt
    Ensures-args n (some remote_set_agc) = Ensures-bind (unpack_bool) _ λ agc. Ensures-pure _ tt
    Ensures-args n (some remote_force_eos) = Ensures-pure _ tt
    Ensures-args n (some remote_set_sweep_strategy) =
        Ensures-bind (unpack_uint_w 32) _
          λ sweep_strategy. Ensures-check _ _ λ h. Ensures-pure _ (ltb→lt sweep_strategy 2 h)
    Ensures-args n (some remote_set_spectrum_partitioning) =
        Ensures-bind (unpack_uint_w 32) _ λ spectrum_partitioning.
          Ensures-check _ _ λ h. Ensures-pure _ (ltb→lt spectrum_partitioning 2 h)
    Ensures-args n (some remote_set_hop_range) = Ensures-bind (unpack_double) _ λ min.
        Ensures-bind (unpack_double) _
          λ max. Ensures-check (below min max) _ λ h. Ensures-pure (set_hop_range_call min max) h
    Ensures-args n (some remote_set_buffering_size) =
        Ensures-bind (unpack_uint_w 32) _ λ buffering_size. Ensures-pure _ tt
    Ensures-args n (some remote_message) =
        Ensures-bind (msg_deserialize c gives sizeof estimators spectsrcs) _ λ v. Ensures-pure _ tt
    Ensures-args n (some remote_req_halt) = Ensures-pure _ tt
    Ensures-args n (some remote_auth_rejected) = Ensures-pure _ tt
    Ensures-args n (some remote_startup_error) = Ensures-pure _ tt
    Ensures-args n none = Ensures-pure _ tt

    -- Whatever stands in the buffer, a remote call that the deserializer accepts has a sweep strategy and a
    -- partitioning below 2, a hop range whose minimum is below its maximum, and an authentication token as long as
    -- a hash, where it is a call that has them.
    pub call-IsAccepted :
        (b b' : Buf) (v : RemoteCall c.Config)
        → call_deserialize c gives sizeof estimators spectsrcs below b ≡ (ok v, b')
        → IsAccepted below v
    unfolding call_deserialize
    call-IsAccepted b b' v h =
        let all : Ensures (IsAccepted below)
            (call_deserialize c gives sizeof estimators spectsrcs below) =
          Ensures-framed _
            (Ensures-bind call_deserialize_partial _ λ type. Ensures-args type (remote_of type)) in
        rw (ap (λ o. o.0) h) at (all.at b)
