-- ===== src/Message/RemoteCall.antt =====
-- `struct suscan_analyzer_remote_call`, of analyzer/impl/remote.c: a call of a client or an answer of the server.
use suscan.Prelude.{
  ℕ, zero, suc, Bool, true, false, ◌<◌, ◌≤◌, ◌^◌, ◌*◌, ◌/◌, ◌%◌, ◌+◌, ◌≡◌, refl, sym, ap, ◌∙◌, List,
  [], ◌∷◌, ◌++◌, length, All, Option, none, some, arith, if◌then◌else◌, ltb, leb, lt→ltb, le→ltb,
  ◌==◌, eq→==, ne→==, lt→==, not, ◌&&◌, append-nil, append_assoc, Bool-cases, inl, inr, ◌⊎◌,
}
use suscan.Prelude.Int.{ℤ, pos, negsuc, IsI64}
use suscan.Prelude.Outcome.{Result, ok, err, Call, pure, fail, lift, ◌>>=◌, ◌>>◌, su_false, fault}
use suscan.GrowBuf.{GrowBuf}
use suscan.Cbor.Format.{unknown_nelem, size_max}
use suscan.Cbor.Items.{
  Item, uint, int, single, double, str, bool, blob, map, array, pack_items, encode, encode_all,
  Fits,
}
use suscan.Cbor.Unpack.{
  unpack_str, unpack_single, unpack_double, unpack_bool, unpack_uint_w, unpack_int_w, unpack_blob,
  unpack_map_start, unpack_array_start,
}
use suscan.Cbor.Wire.Reads.{Reads}
use suscan.Serial.{framed}
use suscan.Serial.Parse.{
  Field, Parses, Parses-Field, Parses-only, Parses-part, Parses-pure, Parses-framed, IsText, IsI32,
  wider, uint8-Field, uint16-Field, uint32-Field, uint64-Field, uint_as_int-Field, int32-Field,
  int64-Field, single-Field, double-Field, bool-Field, str-Field, blob-Field, map-Field,
  array-Field,
}
use suscan.Serial.Keeps.{
  Keeps, Keeps-pure, Keeps-fail, Keeps-if, Keeps-bind, Keeps-framed, Keeps-unpack_str,
  Keeps-unpack_bool, Keeps-unpack_uint_w, keeps_rules,
}
use suscan.Serial.Arrays.{
  pack_compact_single_array, pack_compact_complex_array, unpack_compact_single_array,
  unpack_compact_complex_array, floats,
}
use suscan.Serial.ArrayReads.{
  AreWords, IsArray, array_items, Sends-array, Keeps-array, Parses-array, Keeps-complex,
  Parses-complex,
}
use suscan.Serial.Codec.{
  Sends, Codec, calloc, Keeps-calloc, Parses-calloc, each, repeat, Keeps-repeat, Parses-repeat,
  Sends-items, Sends-then, Sends-each, items_of, counted, Keeps-counted, Parses-counted,
  Parses-last, Parses-check, Sends-none, optional_items, IfAny, optional, Keeps-optional,
  Parses-optional, Sends-optional, Parses-after,
}
pub mod Wire
use suscan.Message.RemoteTypes.{
  RemoteType, remote_auth_info, remote_source_info, remote_set_frequency, remote_set_gain,
  remote_set_antenna, remote_set_ppm, remote_set_bandwidth, remote_set_dc_remove,
  remote_set_iq_reverse, remote_set_agc, remote_force_eos, remote_set_sweep_strategy,
  remote_set_spectrum_partitioning, remote_set_hop_range, remote_set_buffering_size, remote_message,
  remote_req_halt, remote_auth_rejected, remote_startup_error, remote_number, remote_of,
  remote_of-remote_number,
}
use suscan.Message.Types.{MessageType}
use suscan.Message.Configs.{Configs}
use suscan.Message.SourceInfo.{
  SourceInfo, IsSourceInfo, source_info_items, source_info_serialize, source_info_deserialize,
}
use suscan.Message.SourceInfo.Wire.{Keeps-source_info, Parses-source_info, Sends-source_info}
use suscan.Message.ClientAuth.{
  ClientAuth, IsClientAuth, client_auth_items, client_auth_serialize, client_auth_deserialize,
  Keeps-client_auth, Parses-client_auth, Sends-client_auth,
}
use suscan.Message.Msg.{Message, IsMessage, msg_items, msg_serialize, msg_deserialize}
use suscan.Message.Msg.Wire.{Keeps-msg, Parses-msg, Sends-msg}

-- `struct suscan_analyzer_remote_call`. `other_call` is a type that no case of the `switch` names.
pub data RemoteCall (Config : Type 0) : Type 0 where
  auth_info_call : ClientAuth → RemoteCall Config
  source_info_call : SourceInfo → RemoteCall Config
  set_frequency_call : (freq : ℕ) → (lnb : ℕ) → RemoteCall Config
  set_gain_call : (name : List ℕ) → (value : ℕ) → RemoteCall Config
  set_antenna_call : (antenna : List ℕ) → RemoteCall Config
  set_ppm_call : (ppm : ℕ) → RemoteCall Config
  set_bandwidth_call : (bandwidth : ℕ) → RemoteCall Config
  set_dc_remove_call : (dc_remove : Bool) → RemoteCall Config
  set_iq_reverse_call : (iq_reverse : Bool) → RemoteCall Config
  set_agc_call : (agc : Bool) → RemoteCall Config
  force_eos_call : RemoteCall Config
  set_sweep_strategy_call : (sweep_strategy : ℕ) → RemoteCall Config
  set_spectrum_partitioning_call : (spectrum_partitioning : ℕ) → RemoteCall Config
  set_hop_range_call : (min : ℕ) → (max : ℕ) → RemoteCall Config
  set_buffering_size_call : (buffering_size : ℕ) → RemoteCall Config
  message_call : Message Config → RemoteCall Config
  req_halt_call : RemoteCall Config
  auth_rejected_call : RemoteCall Config
  startup_error_call : RemoteCall Config
  other_call : ℕ → RemoteCall Config

unfoldable pub call_number : {Config : Type 0} → RemoteCall Config → ℕ
unfolding remote_number
call_number (auth_info_call v) = remote_number remote_auth_info
call_number (source_info_call v) = remote_number remote_source_info
call_number (set_frequency_call freq lnb) = remote_number remote_set_frequency
call_number (set_gain_call name value) = remote_number remote_set_gain
call_number (set_antenna_call antenna) = remote_number remote_set_antenna
call_number (set_ppm_call ppm) = remote_number remote_set_ppm
call_number (set_bandwidth_call bandwidth) = remote_number remote_set_bandwidth
call_number (set_dc_remove_call dc_remove) = remote_number remote_set_dc_remove
call_number (set_iq_reverse_call iq_reverse) = remote_number remote_set_iq_reverse
call_number (set_agc_call agc) = remote_number remote_set_agc
call_number force_eos_call = remote_number remote_force_eos
call_number (set_sweep_strategy_call sweep_strategy) = remote_number remote_set_sweep_strategy
call_number (set_spectrum_partitioning_call spectrum_partitioning) =
    remote_number remote_set_spectrum_partitioning
call_number (set_hop_range_call min max) = remote_number remote_set_hop_range
call_number (set_buffering_size_call buffering_size) = remote_number remote_set_buffering_size
call_number (message_call v) = remote_number remote_message
call_number req_halt_call = remote_number remote_req_halt
call_number auth_rejected_call = remote_number remote_auth_rejected
call_number startup_error_call = remote_number remote_startup_error
call_number (other_call n) = n

unfoldable pub args_items : {Config : Type 0} → (Config → List Item) → RemoteCall Config → List Item
args_items config_items (auth_info_call v) = client_auth_items v
args_items config_items (source_info_call v) = source_info_items v
args_items config_items (set_frequency_call freq lnb) = double freq ∷ double lnb ∷ []
args_items config_items (set_gain_call name value) = str name ∷ single value ∷ []
args_items config_items (set_antenna_call antenna) = str antenna ∷ []
args_items config_items (set_ppm_call ppm) = single ppm ∷ []
args_items config_items (set_bandwidth_call bandwidth) = single bandwidth ∷ []
args_items config_items (set_dc_remove_call dc_remove) = bool dc_remove ∷ []
args_items config_items (set_iq_reverse_call iq_reverse) = bool iq_reverse ∷ []
args_items config_items (set_agc_call agc) = bool agc ∷ []
args_items config_items force_eos_call = []
args_items config_items (set_sweep_strategy_call sweep_strategy) = uint sweep_strategy ∷ []
args_items config_items (set_spectrum_partitioning_call spectrum_partitioning) =
    uint spectrum_partitioning ∷ []
args_items config_items (set_hop_range_call min max) = double min ∷ double max ∷ []
args_items config_items (set_buffering_size_call buffering_size) = uint buffering_size ∷ []
args_items config_items (message_call v) = msg_items config_items v
args_items config_items req_halt_call = []
args_items config_items auth_rejected_call = []
args_items config_items startup_error_call = []
args_items config_items (other_call n) = []

unfoldable pub call_items : {Config : Type 0} → (Config → List Item) → RemoteCall Config → List Item
unfolding call_number args_items
call_items config_items m = uint (call_number m) ∷ args_items config_items m

-- What can be sent and is accepted. `below` is the order of the doubles with these bits.
abbrev pub IsCall :
    {Config : Type 0} (IsConfig : Config → Type 0) (estimators spectsrcs : List ℕ → Bool)
    (below : ℕ → ℕ → Bool)
    → RemoteCall Config
    → Type 0
IsCall IsConfig estimators spectsrcs below (auth_info_call v) = IsClientAuth v
IsCall IsConfig estimators spectsrcs below (source_info_call v) = IsSourceInfo v
IsCall IsConfig estimators spectsrcs below (set_frequency_call freq lnb) =
    (freq < 2 ^ 64) × (lnb < 2 ^ 64)
IsCall IsConfig estimators spectsrcs below (set_gain_call name value) =
    IsText name × (value < 2 ^ 32)
IsCall IsConfig estimators spectsrcs below (set_antenna_call antenna) = IsText antenna
IsCall IsConfig estimators spectsrcs below (set_ppm_call ppm) = ppm < 2 ^ 32
IsCall IsConfig estimators spectsrcs below (set_bandwidth_call bandwidth) = bandwidth < 2 ^ 32
IsCall IsConfig estimators spectsrcs below (set_dc_remove_call dc_remove) = Unit {0}
IsCall IsConfig estimators spectsrcs below (set_iq_reverse_call iq_reverse) = Unit {0}
IsCall IsConfig estimators spectsrcs below (set_agc_call agc) = Unit {0}
IsCall IsConfig estimators spectsrcs below force_eos_call = Unit {0}
IsCall IsConfig estimators spectsrcs below (set_sweep_strategy_call sweep_strategy) =
    sweep_strategy < 2
IsCall IsConfig estimators spectsrcs below (set_spectrum_partitioning_call spectrum_partitioning) =
    spectrum_partitioning < 2
IsCall IsConfig estimators spectsrcs below (set_hop_range_call min max) =
    (min < 2 ^ 64) × (max < 2 ^ 64) × (below min max ≡ true)
IsCall IsConfig estimators spectsrcs below (set_buffering_size_call buffering_size) =
    buffering_size < 2 ^ 32
IsCall IsConfig estimators spectsrcs below (message_call v) =
    IsMessage IsConfig estimators spectsrcs v
IsCall IsConfig estimators spectsrcs below req_halt_call = Unit {0}
IsCall IsConfig estimators spectsrcs below auth_rejected_call = Unit {0}
IsCall IsConfig estimators spectsrcs below startup_error_call = Unit {0}
IsCall IsConfig estimators spectsrcs below (other_call n) = (n < 2 ^ 32) × (remote_of n ≡ none)

pub call_number_small :
    {Config : Type 0} (IsConfig : Config → Type 0) (estimators spectsrcs : List ℕ → Bool)
    (below : ℕ → ℕ → Bool) (m : RemoteCall Config)
    → IsCall IsConfig estimators spectsrcs below m
    → call_number m < 2 ^ 32
unfolding call_number remote_number
call_number_small IsConfig estimators spectsrcs below (auth_info_call v) h = omega arith
call_number_small IsConfig estimators spectsrcs below (source_info_call v) h = omega arith
call_number_small IsConfig estimators spectsrcs below (set_frequency_call freq lnb) h = omega arith
call_number_small IsConfig estimators spectsrcs below (set_gain_call name value) h = omega arith
call_number_small IsConfig estimators spectsrcs below (set_antenna_call antenna) h = omega arith
call_number_small IsConfig estimators spectsrcs below (set_ppm_call ppm) h = omega arith
call_number_small IsConfig estimators spectsrcs below (set_bandwidth_call bandwidth) h = omega arith
call_number_small IsConfig estimators spectsrcs below (set_dc_remove_call dc_remove) h = omega arith
call_number_small IsConfig estimators spectsrcs below (set_iq_reverse_call iq_reverse) h =
    omega arith
call_number_small IsConfig estimators spectsrcs below (set_agc_call agc) h = omega arith
call_number_small IsConfig estimators spectsrcs below force_eos_call h = omega arith
call_number_small IsConfig estimators spectsrcs below (set_sweep_strategy_call sweep_strategy) h =
    omega arith
call_number_small IsConfig estimators spectsrcs below
      (set_spectrum_partitioning_call spectrum_partitioning) h =
    omega arith
call_number_small IsConfig estimators spectsrcs below (set_hop_range_call min max) h = omega arith
call_number_small IsConfig estimators spectsrcs below (set_buffering_size_call buffering_size) h =
    omega arith
call_number_small IsConfig estimators spectsrcs below (message_call v) h = omega arith
call_number_small IsConfig estimators spectsrcs below req_halt_call h = omega arith
call_number_small IsConfig estimators spectsrcs below auth_rejected_call h = omega arith
call_number_small IsConfig estimators spectsrcs below startup_error_call h = omega arith
call_number_small IsConfig estimators spectsrcs below (other_call n) h = h.0

module _ ⦃g : GrowBuf⦄ where
  open g use {Buf}

  unfoldable pub call_deserialize_partial : Call Buf ℕ
  call_deserialize_partial = framed (unpack_uint_w 32)

  module _ (c : Configs) where
    open c use {Config, IsConfig, config_items}

    -- The `switch` of the serializer
    unfoldable pub args_serialize : RemoteCall Config → Call Buf (Unit {0})
    args_serialize (auth_info_call v) = client_auth_serialize v
    args_serialize (source_info_call v) = source_info_serialize v
    args_serialize (set_frequency_call freq lnb) = pack_items (double freq ∷ double lnb ∷ [])
    args_serialize (set_gain_call name value) = pack_items (str name ∷ single value ∷ [])
    args_serialize (set_antenna_call antenna) = pack_items (str antenna ∷ [])
    args_serialize (set_ppm_call ppm) = pack_items (single ppm ∷ [])
    args_serialize (set_bandwidth_call bandwidth) = pack_items (single bandwidth ∷ [])
    args_serialize (set_dc_remove_call dc_remove) = pack_items (bool dc_remove ∷ [])
    args_serialize (set_iq_reverse_call iq_reverse) = pack_items (bool iq_reverse ∷ [])
    args_serialize (set_agc_call agc) = pack_items (bool agc ∷ [])
    args_serialize force_eos_call = pure tt
    args_serialize (set_sweep_strategy_call sweep_strategy) = pack_items (uint sweep_strategy ∷ [])
    args_serialize (set_spectrum_partitioning_call spectrum_partitioning) =
        pack_items (uint spectrum_partitioning ∷ [])
    args_serialize (set_hop_range_call min max) = pack_items (double min ∷ double max ∷ [])
    args_serialize (set_buffering_size_call buffering_size) = pack_items (uint buffering_size ∷ [])
    args_serialize (message_call v) = msg_serialize c v
    args_serialize req_halt_call = pure tt
    args_serialize auth_rejected_call = pure tt
    args_serialize startup_error_call = pure tt
    args_serialize (other_call n) = pure tt

    unfoldable pub call_serialize : RemoteCall Config → Call Buf (Unit {0})
    unfolding call_number args_serialize
    call_serialize m = pack_items (uint (call_number m) ∷ []) >> args_serialize m

    module _ (gives : ℕ → Bool) (sizeof : MessageType → ℕ) (estimators spectsrcs : List ℕ → Bool)
        (below : ℕ → ℕ → Bool) where
      -- The `switch` of the deserializer, on a type
      unfoldable pub args_deserialize : ℕ → Option RemoteType → Call Buf (RemoteCall Config)
      args_deserialize type (some remote_auth_info) = do
        v ← client_auth_deserialize gives
        pure (auth_info_call v)
      args_deserialize type (some remote_source_info) = do
        v ← source_info_deserialize gives
        pure (source_info_call v)
      args_deserialize type (some remote_set_frequency) = do
        freq ← unpack_double
        lnb ← unpack_double
        pure (set_frequency_call freq lnb)
      args_deserialize type (some remote_set_gain) = do
        name ← unpack_str gives
        value ← unpack_single
        pure (set_gain_call name value)
      args_deserialize type (some remote_set_antenna) = do
        antenna ← unpack_str gives
        pure (set_antenna_call antenna)
      args_deserialize type (some remote_set_ppm) = do ppm ← unpack_single; pure (set_ppm_call ppm)
      args_deserialize type (some remote_set_bandwidth) = do
        bandwidth ← unpack_single
        pure (set_bandwidth_call bandwidth)
      args_deserialize type (some remote_set_dc_remove) = do
        dc_remove ← unpack_bool
        pure (set_dc_remove_call dc_remove)
      args_deserialize type (some remote_set_iq_reverse) = do
        iq_reverse ← unpack_bool
        pure (set_iq_reverse_call iq_reverse)
      args_deserialize type (some remote_set_agc) = do agc ← unpack_bool; pure (set_agc_call agc)
      args_deserialize type (some remote_force_eos) = pure force_eos_call
      args_deserialize type (some remote_set_sweep_strategy) = do
        sweep_strategy ← unpack_uint_w 32
        if ltb sweep_strategy 2 then pure tt else fail su_false
        pure (set_sweep_strategy_call sweep_strategy)
      args_deserialize type (some remote_set_spectrum_partitioning) = do
        spectrum_partitioning ← unpack_uint_w 32
        if ltb spectrum_partitioning 2 then pure tt else fail su_false
        pure (set_spectrum_partitioning_call spectrum_partitioning)
      args_deserialize type (some remote_set_hop_range) = do
        min ← unpack_double
        max ← unpack_double
        if below min max then pure tt else fail su_false
        pure (set_hop_range_call min max)
      args_deserialize type (some remote_set_buffering_size) = do
        buffering_size ← unpack_uint_w 32
        pure (set_buffering_size_call buffering_size)
      args_deserialize type (some remote_message) = do
        v ← msg_deserialize c gives sizeof estimators spectsrcs
        pure (message_call v)
      args_deserialize type (some remote_req_halt) = pure req_halt_call
      args_deserialize type (some remote_auth_rejected) = pure auth_rejected_call
      args_deserialize type (some remote_startup_error) = pure startup_error_call
      args_deserialize type none = pure (other_call type)

      unfoldable pub call_deserialize : Call Buf (RemoteCall Config)
      unfolding call_deserialize_partial args_deserialize
      call_deserialize =
          framed do type ← call_deserialize_partial; args_deserialize type (remote_of type)
