-- ===== src/Message/Psd.antt =====
-- The messages of analyzer/msg.c that carry arrays: spectra and batches of samples.
use suscan.Prelude.{ℕ, Bool, true, ◌<◌, ◌^◌, ◌≡◌, List, [], ◌∷◌, ◌++◌, arith}
use suscan.Prelude.Int.{ℤ, pos, IsI64}
use suscan.Prelude.Outcome.{Call, pure, ◌>>=◌, ◌>>◌}
use suscan.GrowBuf.{GrowBuf}
use suscan.Cbor.Items.{Item, uint, int, single, bool, pack_items, encode_all}
use suscan.Cbor.Unpack.{unpack_single, unpack_bool, unpack_uint_w, unpack_int_w}
use suscan.Serial.{framed}
use suscan.Serial.Parse.{
  Parses, Parses-Field, Parses-part, Parses-pure, Parses-framed, uint32-Field, uint64-Field,
  uint_as_int-Field, int64-Field, single-Field, bool-Field,
}
use suscan.Serial.Keeps.{Keeps, keeps_rules}
use suscan.Serial.Arrays.{
  pack_compact_single_array, pack_compact_complex_array, unpack_compact_single_array,
  unpack_compact_complex_array, floats,
}
use suscan.Serial.ArrayReads.{
  IsArray, array_items, Sends-array, Keeps-array, Parses-array, Keeps-complex, Parses-complex,
}
use suscan.Serial.Codec.{Sends, Sends-items, Sends-then, Parses-last}
use suscan.Message.Time.{Time}

-- What a PSD message has before its data
pub record PsdHead : Type 0 where
  pub fc : ℤ
  pub inspector_id : ℕ
  pub timestamp : Time
  pub rt_time : Time
  pub looped : Bool
  pub samp_rate : ℕ
  pub measured_samp_rate : ℕ
  pub n0 : ℕ

unfoldable pub psd_head_items : PsdHead → List Item
psd_head_items v =
    int v.fc
    ∷ uint v.inspector_id
    ∷ uint v.timestamp.sec
    ∷ uint v.timestamp.usec
    ∷ uint v.rt_time.sec
    ∷ uint v.rt_time.usec
    ∷ bool v.looped
    ∷ single v.samp_rate
    ∷ single v.measured_samp_rate
    ∷ single v.n0
    ∷ []

abbrev pub IsPsdHead : PsdHead → Type 0
IsPsdHead v =
    IsI64 v.fc
    × (v.inspector_id < 2 ^ 32)
    × (v.timestamp.sec < 2 ^ 64)
    × (v.timestamp.usec < 2 ^ 32)
    × (v.rt_time.sec < 2 ^ 64)
    × (v.rt_time.usec < 2 ^ 32)
    × (v.samp_rate < 2 ^ 32)
    × (v.measured_samp_rate < 2 ^ 32)
    × (v.n0 < 2 ^ 32)

-- `struct suscan_analyzer_psd_msg`
pub record Psd : Type 0 where
  pub head : PsdHead
  pub psd_data : List ℕ

unfoldable pub psd_items : Psd → List Item
psd_items v = psd_head_items v.head ++ array_items v.psd_data

abbrev pub IsPsd : Psd → Type 0
IsPsd v = IsPsdHead v.head × IsArray v.psd_data

-- `struct suscan_analyzer_sample_batch_msg`
pub record SampleBatch : Type 0 where
  pub inspector_id : ℕ
  pub samples : List (ℕ × ℕ)

unfoldable pub sample_batch_items : SampleBatch → List Item
sample_batch_items v = int (pos v.inspector_id) ∷ array_items (floats v.samples)

abbrev pub IsSampleBatch : SampleBatch → Type 0
IsSampleBatch v = (v.inspector_id < 2 ^ 32) × IsArray (floats v.samples)

module _ ⦃g : GrowBuf⦄ where
  open g use {Buf}

  unfoldable pub psd_head_serialize : PsdHead → Call Buf (Unit {0})
  unfolding psd_head_items
  psd_head_serialize v = pack_items (psd_head_items v)

  unfoldable pub psd_deserialize_partial : Call Buf PsdHead
  psd_deserialize_partial = framed do
    fc ← unpack_int_w 64
    inspector_id ← unpack_uint_w 32
    timestamp_sec ← unpack_uint_w 64
    timestamp_usec ← unpack_uint_w 32
    rt_time_sec ← unpack_uint_w 64
    rt_time_usec ← unpack_uint_w 32
    looped ← unpack_bool
    samp_rate ← unpack_single
    measured_samp_rate ← unpack_single
    n0 ← unpack_single
    pure (record {
      fc = fc;
      inspector_id = inspector_id;
      timestamp = record { sec = timestamp_sec; usec = timestamp_usec };
      rt_time = record { sec = rt_time_sec; usec = rt_time_usec };
      looped = looped;
      samp_rate = samp_rate;
      measured_samp_rate = measured_samp_rate;
      n0 = n0;
    })

  pub Keeps-psd_head : Keeps psd_deserialize_partial
  unfolding psd_deserialize_partial
  Keeps-psd_head = search keeps_rules depth 60

  pub Parses-psd_head :
      (v : PsdHead) → IsPsdHead v → Parses psd_deserialize_partial v (psd_head_items v)
  unfolding psd_deserialize_partial psd_head_items
  Parses-psd_head v h = Parses-framed (
      Parses-Field _ (int64-Field v.fc h.0) (
        Parses-Field _ (uint32-Field v.inspector_id h.1) (
          Parses-Field _ (uint64-Field v.timestamp.sec h.2) (
            Parses-Field _ (uint32-Field v.timestamp.usec h.3) (
              Parses-Field _ (uint64-Field v.rt_time.sec h.4) (
                Parses-Field _ (uint32-Field v.rt_time.usec h.5) (
                  Parses-Field _ (bool-Field v.looped) (
                    Parses-Field _ (single-Field v.samp_rate h.6) (
                      Parses-Field _ (single-Field v.measured_samp_rate h.7)
                        (Parses-Field _ (single-Field v.n0 h.8) (Parses-pure v)))))))))))

  pub Sends-psd_head :
      (v : PsdHead) → IsPsdHead v → Sends (psd_head_serialize v) (encode_all (psd_head_items v))
  unfolding psd_head_serialize psd_head_items
  Sends-psd_head v h = Sends-items _ (
    h.0,
    (
      omega (arith, h.1),
      (h.2, (omega (arith, h.3), (h.4, (omega (arith, h.5), (tt, (h.6, (h.7, (h.8, tt)))))))),
    ),
  )

  unfoldable pub psd_serialize : Psd → Call Buf (Unit {0})
  psd_serialize v = psd_head_serialize v.head >> pack_compact_single_array v.psd_data

  -- The message is new, so that it has no data yet.
  unfoldable pub psd_deserialize : (ℕ → Bool) → Call Buf Psd
  psd_deserialize gives = framed do
    head ← psd_deserialize_partial
    psd_data ← unpack_compact_single_array gives 0
    pure (record { head = head; psd_data = psd_data })

  pub Keeps-psd : (gives : ℕ → Bool) → Keeps (psd_deserialize gives)
  unfolding psd_deserialize
  Keeps-psd gives = search (keeps_rules, Keeps-psd_head, Keeps-array) depth 30

  pub Parses-psd :
      (gives : ℕ → Bool) (mem : (n : ℕ) → gives n ≡ true)
      → (v : Psd) → IsPsd v
      → Parses (psd_deserialize gives) v (psd_items v)
  unfolding psd_deserialize psd_items
  Parses-psd gives mem v h = Parses-framed (
      Parses-part _ (Parses-psd_head v.head h.0)
        (Parses-last _ (Parses-array gives mem 0 v.psd_data h.1) (Parses-pure v)))

  pub Sends-psd : (v : Psd) → IsPsd v → Sends (psd_serialize v) (encode_all (psd_items v))
  unfolding psd_serialize psd_items
  Sends-psd v h = Sends-then _ _ (Sends-psd_head v.head h.0) (Sends-array v.psd_data)

  unfoldable pub sample_batch_serialize : SampleBatch → Call Buf (Unit {0})
  sample_batch_serialize v =
      pack_items (int (pos v.inspector_id) ∷ []) >> pack_compact_complex_array v.samples

  -- The message is new here too.
  unfoldable pub sample_batch_deserialize : (ℕ → Bool) → Call Buf SampleBatch
  sample_batch_deserialize gives = framed do
    inspector_id ← unpack_uint_w 32
    samples ← unpack_compact_complex_array gives 0
    pure (record { inspector_id = inspector_id; samples = samples })

  pub Keeps-sample_batch : (gives : ℕ → Bool) → Keeps (sample_batch_deserialize gives)
  unfolding sample_batch_deserialize
  Keeps-sample_batch gives = search (keeps_rules, Keeps-complex) depth 30

  pub Parses-sample_batch :
      (gives : ℕ → Bool) (mem : (n : ℕ) → gives n ≡ true)
      → (v : SampleBatch) → IsSampleBatch v
      → Parses (sample_batch_deserialize gives) v (sample_batch_items v)
  unfolding sample_batch_deserialize sample_batch_items
  Parses-sample_batch gives mem v h = Parses-framed (
      Parses-Field _ (uint_as_int-Field v.inspector_id h.0)
        (Parses-last _ (Parses-complex gives mem 0 v.samples h.1) (Parses-pure v)))

  pub Sends-sample_batch :
      (v : SampleBatch)
      → IsSampleBatch v
      → Sends (sample_batch_serialize v) (encode_all (sample_batch_items v))
  unfolding sample_batch_serialize sample_batch_items pack_compact_complex_array
  Sends-sample_batch v h =
      Sends-then _ _ (Sends-items _ (omega (arith, h.0), tt)) (Sends-array (floats v.samples))
