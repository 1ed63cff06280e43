-- ===== src/Message/Inspector/Open.antt =====
-- The message that opens an inspector (analyzer/msg.c). The lookups of classes are lookups in tables that the
-- program fills when it starts: which classes are there is a parameter.
use suscan.Prelude.{
  ℕ, zero, suc, Bool, true, false, ◌<◌, ◌≤◌, ◌^◌, ◌*◌, ◌/◌, ◌%◌, ◌+◌, ◌≡◌, refl, sym, ap, ◌∙◌, List,
  [], ◌∷◌, ◌++◌, length, All, Option, none, some, arith, if◌then◌else◌, ltb, leb, lt→ltb, le→ltb,
  ◌==◌, eq→==, ne→==, lt→==, not, ◌&&◌, append-nil, append_assoc, Bool-cases, inl, inr, ◌⊎◌,
}
use suscan.Prelude.Int.{ℤ, pos, negsuc, IsI64}
use suscan.Prelude.Outcome.{Result, ok, err, Call, pure, fail, lift, ◌>>=◌, ◌>>◌, su_false, fault}
use suscan.GrowBuf.{GrowBuf}
use suscan.Cbor.Format.{unknown_nelem, size_max}
use suscan.Cbor.Items.{
  Item, uint, int, single, double, str, bool, blob, map, array, pack_items, encode, encode_all,
  Fits,
}
use suscan.Cbor.Unpack.{
  unpack_str, unpack_single, unpack_double, unpack_bool, unpack_uint_w, unpack_int_w, unpack_blob,
  unpack_map_start, unpack_array_start,
}
use suscan.Cbor.Wire.Reads.{Reads}
use suscan.Serial.{framed}
use suscan.Serial.Parse.{
  Field, Parses, Parses-Field, Parses-only, Parses-part, Parses-pure, Parses-framed, IsText, IsI32,
  wider, uint8-Field, uint16-Field, uint32-Field, uint64-Field, uint_as_int-Field, int32-Field,
  int64-Field, single-Field, double-Field, bool-Field, str-Field, blob-Field, map-Field,
  array-Field,
}
use suscan.Serial.Keeps.{
  Keeps, Keeps-pure, Keeps-fail, Keeps-if, Keeps-bind, Keeps-framed, Keeps-unpack_str,
  Keeps-unpack_bool, Keeps-unpack_uint_w, keeps_rules,
}
use suscan.Serial.Arrays.{
  pack_compact_single_array, pack_compact_complex_array, unpack_compact_single_array,
  unpack_compact_complex_array, floats,
}
use suscan.Serial.ArrayReads.{
  AreWords, IsArray, array_items, Sends-array, Keeps-array, Parses-array, Keeps-complex,
  Parses-complex,
}
use suscan.Serial.Codec.{
  Sends, Codec, calloc, Keeps-calloc, Parses-calloc, each, repeat, Keeps-repeat, Parses-repeat,
  Sends-items, Sends-then, Sends-each, items_of, counted, Keeps-counted, Parses-counted,
  Parses-last, Parses-check, Sends-none, optional_items, IfAny, optional, Keeps-optional,
  Parses-optional, Sends-optional, Parses-after,
}
pub mod Wire
use suscan.Message.Channel.{
  Channel, IsChannel, channel_items, channel_serialize, channel_deserialize, Keeps-channel,
  Parses-channel, Sends-channel,
}
use suscan.Message.Configs.{Configs}

-- What `suscan_analyzer_inspector_msg_serialize_open` reads of the message, but its handle. A class is
-- the name in it, or a null pointer.
pub record Open (Config : Type 0) : Type 0 where
  pub class_name : List ℕ
  pub channel : Channel
  pub config : Option Config
  pub precise : Bool
  pub fs : ℕ
  pub equiv_fs : ℕ
  pub bandwidth : ℕ
  pub lo : ℕ
  pub estimators : List (Option (List ℕ))
  pub spectsrcs : List (Option (List ℕ))

-- "<nullconfig>"
abbrev pub nullconfig : List ℕ
nullconfig = 60 ∷ 110 ∷ 117 ∷ 108 ∷ 108 ∷ 99 ∷ 111 ∷ 110 ∷ 102 ∷ 105 ∷ 103 ∷ 62 ∷ []

unfoldable pub class_items : Option (List ℕ) → List Item
class_items (some name) = str name ∷ []
class_items none = []

unfoldable pub config_part : {Config : Type 0} → (Config → List Item) → Option Config → List Item
config_part items (some config) = items config
config_part items none = str nullconfig ∷ map 0 ∷ []

unfoldable pub open_items : {Config : Type 0} → (Config → List Item) → ℕ → Open Config → List Item
open_items config_items handle v =
    str v.class_name
    ∷ (channel_items v.channel
        ++ (config_part config_items v.config
            ++ (uint handle
                ∷ bool v.precise
                ∷ uint v.fs
                ∷ single v.equiv_fs
                ∷ single v.bandwidth
                ∷ single v.lo
                ∷ array (length v.estimators)
                ∷ (items_of class_items v.estimators
                    ++ (array (length v.spectsrcs) ∷ items_of class_items v.spectsrcs)))))

abbrev pub IsSome : {A : Type 0} → (A → Type 0) → Option A → Type 0
IsSome Good none = ⊥
IsSome Good (some v) = Good v

-- A class that is registered, under a name that can be sent
abbrev pub IsClass : (List ℕ → Bool) → Option (List ℕ) → Type 0
IsClass registered none = ⊥
IsClass registered (some name) = IsText name × (registered name ≡ true)

-- What can be sent and comes back: a configuration, and registered classes.
abbrev pub IsOpen :
    {Config : Type 0} (IsConfig : Config → Type 0) (estimators spectsrcs : List ℕ → Bool)
    → Open Config
    → Type 0
IsOpen IsConfig estimators spectsrcs v =
    IsText v.class_name
    × IsChannel v.channel
    × IsSome IsConfig v.config
    × (v.fs < 2 ^ 32)
    × (v.equiv_fs < 2 ^ 32)
    × (v.bandwidth < 2 ^ 32)
    × (v.lo < 2 ^ 32)
    × All (IsClass estimators) v.estimators
    × (length v.estimators < 2 ^ 32)
    × All (IsClass spectsrcs) v.spectsrcs
    × (length v.spectsrcs < 2 ^ 32)

module _ ⦃g : GrowBuf⦄ where
  open g use {Buf}

  -- A null pointer in the list is read through.
  unfoldable pub class_serialize : Option (List ℕ) → Call Buf (Unit {0})
  class_serialize (some name) = pack_items (str name ∷ [])
  class_serialize none = fail fault

  -- `suscan_estimator_class_lookup` or `suscan_spectsrc_class_lookup`, where `registered` tells the classes
  unfoldable pub lookup : (List ℕ → Bool) → List ℕ → Option (List ℕ)
  lookup registered name = if registered name then some name else none

  unfoldable pub class_deserialize : (ℕ → Bool) → (List ℕ → Bool) → Call Buf (Option (List ℕ))
  unfolding lookup
  class_deserialize gives registered = do name ← unpack_str gives; pure (lookup registered name)

  -- What follows the start of a list of classes
  unfoldable pub classes :
      (ℕ → Bool) → (List ℕ → Bool) → ℕ × Bool → Call Buf (List (Option (List ℕ)))
  unfolding class_deserialize
  classes gives registered (nelem, true) = fail su_false
  classes gives registered (nelem, false) =
      calloc gives (nelem % 2 ^ 32 * 8)
      >> repeat (nelem % 2 ^ 32) (class_deserialize gives registered)

  module _ (c : Configs) where
    open c use {
      Config, IsConfig, config_items, config_serialize, config_deserialize, Keeps-config,
      Parses-config, Sends-config,
    }

    -- A null pointer for the configuration is sent as an empty one.
    unfoldable pub config_part_serialize : Option Config → Call Buf (Unit {0})
    config_part_serialize (some config) = config_serialize config
    config_part_serialize none = pack_items (str nullconfig ∷ map 0 ∷ [])

    unfoldable pub open_serialize : ℕ → Open Config → Call Buf (Unit {0})
    unfolding class_serialize config_part_serialize
    open_serialize handle v =
        pack_items (str v.class_name ∷ [])
        >> (channel_serialize v.channel
            >> (config_part_serialize v.config
                >> (pack_items (
                      uint handle
                      ∷ bool v.precise
                      ∷ uint v.fs
                      ∷ single v.equiv_fs
                      ∷ single v.bandwidth
                      ∷ single v.lo
                      ∷ array (length v.estimators)
                      ∷ [])
                    >> (each class_serialize v.estimators
                        >> (pack_items (array (length v.spectsrcs) ∷ [])
                            >> each class_serialize v.spectsrcs)))))

    unfoldable pub config_part_deserialize : (ℕ → Bool) → Call Buf (Option Config)
    config_part_deserialize gives = do config ← config_deserialize gives; pure (some config)

    -- The handle of the message, which is read a second time here, and the rest
    unfoldable pub open_deserialize :
        (gives : ℕ → Bool) (estimators spectsrcs : List ℕ → Bool) → Call Buf (ℕ × Open Config)
    unfolding classes config_part_deserialize
    open_deserialize gives estimators spectsrcs = framed do
      class_name ← unpack_str gives
      channel ← channel_deserialize
      config ← config_part_deserialize gives
      handle ← unpack_uint_w 32
      precise ← unpack_bool
      fs ← unpack_uint_w 32
      equiv_fs ← unpack_single
      bandwidth ← unpack_single
      lo ← unpack_single
      estimators_start ← unpack_array_start
      estimator_list ← classes gives estimators estimators_start
      spectsrcs_start ← unpack_array_start
      spectsrc_list ← classes gives spectsrcs spectsrcs_start
      pure (
        handle,
        record {
          class_name = class_name;
          channel = channel;
          config = config;
          precise = precise;
          fs = fs;
          equiv_fs = equiv_fs;
          bandwidth = bandwidth;
          lo = lo;
          estimators = estimator_list;
          spectsrcs = spectsrc_list;
        },
      )
