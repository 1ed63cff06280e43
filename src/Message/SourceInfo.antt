-- ===== src/Message/SourceInfo.antt =====
-- `struct suscan_analyzer_source_info`, of analyzer/analyzer.c.
use suscan.Prelude.{
  ℕ, zero, suc, Bool, true, false, ◌<◌, ◌≤◌, ◌^◌, ◌*◌, ◌/◌, ◌%◌, ◌+◌, ◌≡◌, refl, sym, ap, ◌∙◌, List,
  [], ◌∷◌, ◌++◌, length, All, Option, none, some, arith, if◌then◌else◌, ltb, leb, lt→ltb, le→ltb,
  ◌==◌, eq→==, ne→==, lt→==, not, ◌&&◌, append-nil, append_assoc, Bool-cases, inl, inr, ◌⊎◌,
}
use suscan.Prelude.Int.{ℤ, pos, negsuc, IsI64}
use suscan.Prelude.Outcome.{Result, ok, err, Call, pure, fail, lift, ◌>>=◌, ◌>>◌, su_false, fault}
use suscan.GrowBuf.{GrowBuf}
use suscan.Cbor.Format.{unknown_nelem, size_max}
use suscan.Cbor.Items.{
  Item, uint, int, single, double, str, bool, blob, map, array, pack_items, encode, encode_all,
  Fits,
}
use suscan.Cbor.Unpack.{
  unpack_str, unpack_single, unpack_double, unpack_bool, unpack_uint_w, unpack_int_w, unpack_blob,
  unpack_map_start, unpack_array_start,
}
use suscan.Cbor.Wire.Reads.{Reads}
use suscan.Serial.{framed}
use suscan.Serial.Parse.{
  Field, Parses, Parses-Field, Parses-only, Parses-part, Parses-pure, Parses-framed, IsText, IsI32,
  wider, uint8-Field, uint16-Field, uint32-Field, uint64-Field, uint_as_int-Field, int32-Field,
  int64-Field, single-Field, double-Field, bool-Field, str-Field, blob-Field, map-Field,
  array-Field,
}
use suscan.Serial.Keeps.{
  Keeps, Keeps-pure, Keeps-fail, Keeps-if, Keeps-bind, Keeps-framed, Keeps-unpack_str,
  Keeps-unpack_bool, Keeps-unpack_uint_w, keeps_rules,
}
use suscan.Serial.Arrays.{
  pack_compact_single_array, pack_compact_complex_array, unpack_compact_single_array,
  unpack_compact_complex_array, floats,
}
use suscan.Serial.ArrayReads.{
  AreWords, IsArray, array_items, Sends-array, Keeps-array, Parses-array, Keeps-complex,
  Parses-complex,
}
use suscan.Serial.Codec.{
  Sends, Codec, calloc, Keeps-calloc, Parses-calloc, each, repeat, Keeps-repeat, Parses-repeat,
  Sends-items, Sends-then, Sends-each, items_of, counted, Keeps-counted, Parses-counted,
  Parses-last, optional_items, IfAny, optional, Keeps-optional, Parses-optional, Sends-optional,
  Parses-after,
}
pub mod Wire
use suscan.Message.Time.{Time}
use suscan.Message.Gain.{
  Gain, IsGain, gain_items, gain_serialize, gain_deserialize, Keeps-gain, Parses-gain, Sends-gain,
}
use suscan.Message.SourceParts.{
  Qth, IsQth, qth_items, qth_deserialize, Keeps-qth, Parses-qth, qth-Fits, Window, IsWindow,
  window_items, window_deserialize, Keeps-window, Parses-window, window-Fits,
}

-- `struct suscan_analyzer_source_info`. The place is there where `have_qth` is set, and the window where
-- `seekable` is.
pub record SourceInfo : Type 0 where
  pub permissions : ℕ
  pub source_samp_rate : ℕ
  pub effective_samp_rate : ℕ
  pub measured_samp_rate : ℕ
  pub frequency : ℕ
  pub freq_min : ℕ
  pub freq_max : ℕ
  pub lnb : ℕ
  pub bandwidth : ℕ
  pub ppm : ℕ
  pub antenna : List ℕ
  pub dc_remove : Bool
  pub iq_reverse : Bool
  pub agc : Bool
  pub qth : Option Qth
  pub source_time : Time
  pub window : Option Window
  pub gains : List Gain
  pub antennas : List (List ℕ)

unfoldable pub antenna_items : List ℕ → List Item
antenna_items name = str name ∷ []

unfoldable pub source_head_items : SourceInfo → List Item
source_head_items v =
    uint v.permissions
    ∷ uint v.source_samp_rate
    ∷ uint v.effective_samp_rate
    ∷ single v.measured_samp_rate
    ∷ double v.frequency
    ∷ double v.freq_min
    ∷ double v.freq_max
    ∷ double v.lnb
    ∷ single v.bandwidth
    ∷ single v.ppm
    ∷ str v.antenna
    ∷ bool v.dc_remove
    ∷ bool v.iq_reverse
    ∷ bool v.agc
    ∷ []

unfoldable pub source_info_items : SourceInfo → List Item
unfolding source_head_items
source_info_items v =
    source_head_items v
    ++ (optional_items qth_items v.qth
        ++ (uint v.source_time.sec
            ∷ uint v.source_time.usec
            ∷ (optional_items window_items v.window
                ++ (map (length v.gains)
                    ∷ (items_of gain_items v.gains
                        ++ (map (length v.antennas) ∷ items_of antenna_items v.antennas))))))

-- What the C types allow
abbrev pub IsSourceInfo : SourceInfo → Type 0
IsSourceInfo v =
    (v.permissions < 2 ^ 64)
    × (v.source_samp_rate < 2 ^ 64)
    × (v.effective_samp_rate < 2 ^ 64)
    × (v.measured_samp_rate < 2 ^ 32)
    × (v.frequency < 2 ^ 64)
    × (v.freq_min < 2 ^ 64)
    × (v.freq_max < 2 ^ 64)
    × (v.lnb < 2 ^ 64)
    × (v.bandwidth < 2 ^ 32)
    × (v.ppm < 2 ^ 32)
    × IsText v.antenna
    × IfAny IsQth v.qth
    × (v.source_time.sec < 2 ^ 64)
    × (v.source_time.usec < 2 ^ 32)
    × IfAny IsWindow v.window
    × All IsGain v.gains
    × (length v.gains < 2 ^ 32)
    × All IsText v.antennas
    × (length v.antennas < 2 ^ 32)

module _ ⦃g : GrowBuf⦄ where
  open g use {Buf}

  unfoldable pub antenna_serialize : List ℕ → Call Buf (Unit {0})
  unfolding antenna_items
  antenna_serialize name = pack_items (antenna_items name)

  unfoldable pub source_info_serialize : SourceInfo → Call Buf (Unit {0})
  unfolding source_head_items
  source_info_serialize v =
      pack_items (source_head_items v)
      >> (pack_items (optional_items qth_items v.qth)
          >> (pack_items (uint v.source_time.sec ∷ uint v.source_time.usec ∷ [])
              >> (pack_items (optional_items window_items v.window)
                  >> (pack_items (map (length v.gains) ∷ [])
                      >> (each gain_serialize v.gains
                          >> (pack_items (map (length v.antennas) ∷ [])
                              >> each antenna_serialize v.antennas))))))

  -- One entry of the list of gains
  unfoldable pub gain_entry : (ℕ → Bool) → Call Buf Gain
  gain_entry gives = calloc gives 24 >> gain_deserialize gives

  unfoldable pub source_info_deserialize : (ℕ → Bool) → Call Buf SourceInfo
  unfolding gain_entry
  source_info_deserialize gives = framed do
    permissions ← unpack_uint_w 64
    source_samp_rate ← unpack_uint_w 64
    effective_samp_rate ← unpack_uint_w 64
    measured_samp_rate ← unpack_single
    frequency ← unpack_double
    freq_min ← unpack_double
    freq_max ← unpack_double
    lnb ← unpack_double
    bandwidth ← unpack_single
    ppm ← unpack_single
    antenna ← unpack_str gives
    dc_remove ← unpack_bool
    iq_reverse ← unpack_bool
    agc ← unpack_bool
    qth ← optional qth_deserialize
    source_time_sec ← unpack_uint_w 64
    source_time_usec ← unpack_uint_w 32
    window ← optional window_deserialize
    gains_start ← unpack_map_start
    gains ← counted gives (gain_entry gives) gains_start
    antennas_start ← unpack_map_start
    antennas ← counted gives (unpack_str gives) antennas_start
    pure (record {
      permissions = permissions;
      source_samp_rate = source_samp_rate;
      effective_samp_rate = effective_samp_rate;
      measured_samp_rate = measured_samp_rate;
      frequency = frequency;
      freq_min = freq_min;
      freq_max = freq_max;
      lnb = lnb;
      bandwidth = bandwidth;
      ppm = ppm;
      antenna = antenna;
      dc_remove = dc_remove;
      iq_reverse = iq_reverse;
      agc = agc;
      qth = qth;
      source_time = record { sec = source_time_sec; usec = source_time_usec };
      window = window;
      gains = gains;
      antennas = antennas;
    })
