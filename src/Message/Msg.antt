-- ===== src/Message/Msg.antt =====
-- Any message of the analyzer, behind its type: `suscan_analyzer_msg_serialize` and
-- `suscan_analyzer_msg_deserialize` of analyzer/msg.c. That a message which cannot be filled is disposed of is left out.
use suscan.Prelude.{
  ℕ, zero, suc, Bool, true, false, ◌<◌, ◌≤◌, ◌^◌, ◌*◌, ◌/◌, ◌%◌, ◌+◌, ◌≡◌, refl, sym, ap, ◌∙◌, List,
  [], ◌∷◌, ◌++◌, length, All, Option, none, some, arith, if◌then◌else◌, ltb, leb, lt→ltb, le→ltb,
  ◌==◌, eq→==, ne→==, lt→==, not, ◌&&◌, append-nil, append_assoc, Bool-cases, inl, inr, ◌⊎◌,
}
use suscan.Prelude.Int.{ℤ, pos, negsuc, IsI64}
use suscan.Prelude.Outcome.{Result, ok, err, Call, pure, fail, lift, ◌>>=◌, ◌>>◌, su_false, fault}
use suscan.GrowBuf.{GrowBuf}
use suscan.Cbor.Format.{unknown_nelem, size_max}
use suscan.Cbor.Items.{
  Item, uint, int, single, double, str, bool, blob, map, array, pack_items, encode, encode_all,
  Fits,
}
use suscan.Cbor.Unpack.{
  unpack_str, unpack_single, unpack_double, unpack_bool, unpack_uint_w, unpack_int_w, unpack_blob,
  unpack_map_start, unpack_array_start,
}
use suscan.Cbor.Wire.Reads.{Reads}
use suscan.Serial.{framed}
use suscan.Serial.Parse.{
  Field, Parses, Parses-Field, Parses-only, Parses-part, Parses-pure, Parses-framed, IsText, IsI32,
  wider, uint8-Field, uint16-Field, uint32-Field, uint64-Field, uint_as_int-Field, int32-Field,
  int64-Field, single-Field, double-Field, bool-Field, str-Field, blob-Field, map-Field,
  array-Field,
}
use suscan.Serial.Keeps.{
  Keeps, Keeps-pure, Keeps-fail, Keeps-if, Keeps-bind, Keeps-framed, Keeps-unpack_str,
  Keeps-unpack_bool, Keeps-unpack_uint_w, keeps_rules,
}
use suscan.Serial.Arrays.{
  pack_compact_single_array, pack_compact_complex_array, unpack_compact_single_array,
  unpack_compact_complex_array, floats,
}
use suscan.Serial.ArrayReads.{
  AreWords, IsArray, array_items, Sends-array, Keeps-array, Parses-array, Keeps-complex,
  Parses-complex,
}
use suscan.Serial.Codec.{
  Sends, Codec, calloc, Keeps-calloc, Parses-calloc, each, repeat, Keeps-repeat, Parses-repeat,
  Sends-items, Sends-then, Sends-each, items_of, counted, Keeps-counted, Parses-counted,
  Parses-last, Parses-check, Sends-none, optional_items, IfAny, optional, Keeps-optional,
  Parses-optional, Sends-optional, Parses-after,
}
pub mod Wire
use suscan.Message.Types.{
  MessageType, type_source_info, type_source_init, type_channel, type_eos, type_read_error,
  type_inspector, type_psd, type_samples, type_throttle, type_params, type_get_params, type_seek,
  type_number, type_of, type_of-type_number,
}
use suscan.Message.Configs.{Configs}
use suscan.Message.SourceInfo.{
  SourceInfo, IsSourceInfo, source_info_items, source_info_serialize, source_info_deserialize,
}
use suscan.Message.SourceInfo.Wire.{Keeps-source_info, Parses-source_info, Sends-source_info}
use suscan.Message.Notices.{
  Status, IsStatus, status_items, status_serialize, status_deserialize, Keeps-status, Parses-status,
  Sends-status, Throttle, IsThrottle, throttle_items, throttle_serialize, throttle_deserialize,
  Keeps-throttle, Parses-throttle, Sends-throttle, Seek, IsSeek, seek_items, seek_serialize,
  seek_deserialize, Keeps-seek, Parses-seek, Sends-seek,
}
use suscan.Message.Params.{
  Params, IsParams, params_items, params_serialize, params_deserialize, Keeps-params, Parses-params,
  Sends-params,
}
use suscan.Message.Psd.{
  Psd, IsPsd, psd_items, psd_serialize, psd_deserialize, Keeps-psd, Parses-psd, Sends-psd,
  SampleBatch, IsSampleBatch, sample_batch_items, sample_batch_serialize, sample_batch_deserialize,
  Keeps-sample_batch, Parses-sample_batch, Sends-sample_batch,
}
use suscan.Message.Inspector.Envelope.{
  Inspector, IsInspector, inspector_items, inspector_serialize, inspector_deserialize,
  Keeps-inspector, Parses-inspector, Sends-inspector,
}

-- A message with its type. `other_message` is a type that no case of the serializer's `switch` names.
pub data Message (Config : Type 0) : Type 0 where
  source_info_message : SourceInfo → Message Config
  source_init_message : Status → Message Config
  channel_message : Message Config
  eos_message : Status → Message Config
  read_error_message : Status → Message Config
  inspector_message : Inspector Config → Message Config
  psd_message : Psd → Message Config
  samples_message : SampleBatch → Message Config
  throttle_message : Throttle → Message Config
  params_message : Params → Message Config
  get_params_message : Message Config
  seek_message : Seek → Message Config
  other_message : ℕ → Message Config

unfoldable pub message_number : {Config : Type 0} → Message Config → ℕ
unfolding type_number
message_number (source_info_message v) = type_number type_source_info
message_number (source_init_message v) = type_number type_source_init
message_number channel_message = type_number type_channel
message_number (eos_message v) = type_number type_eos
message_number (read_error_message v) = type_number type_read_error
message_number (inspector_message v) = type_number type_inspector
message_number (psd_message v) = type_number type_psd
message_number (samples_message v) = type_number type_samples
message_number (throttle_message v) = type_number type_throttle
message_number (params_message v) = type_number type_params
message_number get_params_message = type_number type_get_params
message_number (seek_message v) = type_number type_seek
message_number (other_message n) = n

unfoldable pub payload_items : {Config : Type 0} → (Config → List Item) → Message Config → List Item
payload_items config_items (source_info_message v) = source_info_items v
payload_items config_items (source_init_message v) = status_items v
payload_items config_items channel_message = []
payload_items config_items (eos_message v) = status_items v
payload_items config_items (read_error_message v) = status_items v
payload_items config_items (inspector_message v) = inspector_items config_items v
payload_items config_items (psd_message v) = psd_items v
payload_items config_items (samples_message v) = sample_batch_items v
payload_items config_items (throttle_message v) = throttle_items v
payload_items config_items (params_message v) = params_items v
payload_items config_items get_params_message = []
payload_items config_items (seek_message v) = seek_items v
payload_items config_items (other_message n) = []

unfoldable pub msg_items : {Config : Type 0} → (Config → List Item) → Message Config → List Item
unfolding message_number payload_items
msg_items config_items m = uint (message_number m) ∷ payload_items config_items m

-- What can be sent and comes back. Channel messages are refused on both sides.
abbrev pub IsMessage :
    {Config : Type 0} (IsConfig : Config → Type 0) (estimators spectsrcs : List ℕ → Bool)
    → Message Config
    → Type 0
IsMessage IsConfig estimators spectsrcs (source_info_message v) = IsSourceInfo v
IsMessage IsConfig estimators spectsrcs (source_init_message v) = IsStatus v
IsMessage IsConfig estimators spectsrcs channel_message = ⊥
IsMessage IsConfig estimators spectsrcs (eos_message v) = IsStatus v
IsMessage IsConfig estimators spectsrcs (read_error_message v) = IsStatus v
IsMessage IsConfig estimators spectsrcs (inspector_message v) =
    IsInspector IsConfig estimators spectsrcs v
IsMessage IsConfig estimators spectsrcs (psd_message v) = IsPsd v
IsMessage IsConfig estimators spectsrcs (samples_message v) = IsSampleBatch v
IsMessage IsConfig estimators spectsrcs (throttle_message v) = IsThrottle v
IsMessage IsConfig estimators spectsrcs (params_message v) = IsParams v
IsMessage IsConfig estimators spectsrcs get_params_message = Unit {0}
IsMessage IsConfig estimators spectsrcs (seek_message v) = IsSeek v
IsMessage IsConfig estimators spectsrcs (other_message n) = ⊥

pub message_number_small :
    {Config : Type 0} (IsConfig : Config → Type 0) (estimators spectsrcs : List ℕ → Bool)
    (m : Message Config)
    → IsMessage IsConfig estimators spectsrcs m
    → message_number m < 2 ^ 32
unfolding message_number type_number
message_number_small IsConfig estimators spectsrcs (source_info_message v) h = omega arith
message_number_small IsConfig estimators spectsrcs (source_init_message v) h = omega arith
message_number_small IsConfig estimators spectsrcs channel_message h = absurd h
message_number_small IsConfig estimators spectsrcs (eos_message v) h = omega arith
message_number_small IsConfig estimators spectsrcs (read_error_message v) h = omega arith
message_number_small IsConfig estimators spectsrcs (inspector_message v) h = omega arith
message_number_small IsConfig estimators spectsrcs (psd_message v) h = omega arith
message_number_small IsConfig estimators spectsrcs (samples_message v) h = omega arith
message_number_small IsConfig estimators spectsrcs (throttle_message v) h = omega arith
message_number_small IsConfig estimators spectsrcs (params_message v) h = omega arith
message_number_small IsConfig estimators spectsrcs get_params_message h = omega arith
message_number_small IsConfig estimators spectsrcs (seek_message v) h = omega arith
message_number_small IsConfig estimators spectsrcs (other_message n) h = absurd h

module _ ⦃g : GrowBuf⦄ where
  open g use {Buf}

  unfoldable pub msg_deserialize_partial : Call Buf ℕ
  msg_deserialize_partial = framed (unpack_uint_w 32)

  module _ (c : Configs) where
    open c use {Config, IsConfig, config_items}

    -- The `switch` of the serializer
    unfoldable pub payload_serialize : Message Config → Call Buf (Unit {0})
    payload_serialize (source_info_message v) = source_info_serialize v
    payload_serialize (source_init_message v) = status_serialize v
    payload_serialize channel_message = fail su_false
    payload_serialize (eos_message v) = status_serialize v
    payload_serialize (read_error_message v) = status_serialize v
    payload_serialize (inspector_message v) = inspector_serialize c v
    payload_serialize (psd_message v) = psd_serialize v
    payload_serialize (samples_message v) = sample_batch_serialize v
    payload_serialize (throttle_message v) = throttle_serialize v
    payload_serialize (params_message v) = params_serialize v
    payload_serialize get_params_message = pure tt
    payload_serialize (seek_message v) = seek_serialize v
    payload_serialize (other_message n) = pure tt

    unfoldable pub msg_serialize : Message Config → Call Buf (Unit {0})
    unfolding message_number payload_serialize
    msg_serialize m = pack_items (uint (message_number m) ∷ []) >> payload_serialize m

    -- `sizeof` gives the size of the structure of a type of messages.
    module _ (gives : ℕ → Bool) (sizeof : MessageType → ℕ)
        (estimators spectsrcs : List ℕ → Bool) where
      -- `sizeof` gives the size of the structure of a type of messages.
      -- A new structure, and what it is filled with
      unfoldable pub filled :
          {A : Type 0} → MessageType → (A → Message Config) → Call Buf A → Call Buf (Message Config)
      filled type message deserialize =
          calloc gives (sizeof type) >> (deserialize >>= λ v. pure (message v))

      -- The `switch` of the deserializer
      unfoldable pub payload_deserialize : Option MessageType → Call Buf (Message Config)
      unfolding filled
      payload_deserialize (some type_source_info) =
          filled type_source_info source_info_message (source_info_deserialize gives)
      payload_deserialize (some type_source_init) =
          filled type_source_init source_init_message (status_deserialize gives)
      payload_deserialize (some type_channel) = fail su_false
      payload_deserialize (some type_eos) = filled type_eos eos_message (status_deserialize gives)
      payload_deserialize (some type_read_error) =
          filled type_read_error read_error_message (status_deserialize gives)
      payload_deserialize (some type_inspector) =
          filled type_inspector inspector_message
            (inspector_deserialize c gives estimators spectsrcs)
      payload_deserialize (some type_psd) = filled type_psd psd_message (psd_deserialize gives)
      payload_deserialize (some type_samples) =
          filled type_samples samples_message (sample_batch_deserialize gives)
      payload_deserialize (some type_throttle) =
          filled type_throttle throttle_message throttle_deserialize
      payload_deserialize (some type_params) = filled type_params params_message params_deserialize
      payload_deserialize (some type_get_params) = pure get_params_message
      payload_deserialize (some type_seek) = filled type_seek seek_message seek_deserialize
      payload_deserialize none = fail su_false

      unfoldable pub msg_deserialize : Call Buf (Message Config)
      unfolding msg_deserialize_partial
      msg_deserialize = framed do type ← msg_deserialize_partial; payload_deserialize (type_of type)
