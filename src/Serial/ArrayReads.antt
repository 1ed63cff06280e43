-- ===== src/Serial/ArrayReads.antt =====
-- What is packed as a compact array (analyzer/serialize.c) is unpacked, and what an array length from the
-- wire can do.
use suscan.Prelude.{
  ltb, lt→==, false, ◌==◌, ℕ, zero, suc, ◌*◌, ◌%◌, ◌^◌, ◌<◌, ◌≡◌, refl, ap, Bool, true, List, [],
  ◌∷◌, length, arith, lt→ltb, eq→==, All, append-nil,
}
use suscan.Prelude.Outcome.{ok, err, fault}
use suscan.GrowBuf.{GrowBuf}
use suscan.Cbor.Format.{cpu32_to_be, be32_to_cpu}
use suscan.Cbor.Pack.{pack_uint, alloc_blob}
use suscan.Cbor.Items.{Item, uint, blob, encode, encode_all}
use suscan.Cbor.Wire.Reads.{Appends, Appends-bind, Appends-pure}
use suscan.Cbor.Wire.Header.{Appends-pack_cbor_type}
use suscan.Serial.Parse.{Parses, Parses-Field, Parses-pure, uint64-Field, blob-Field}
use suscan.Serial.Keeps.{Keeps, keeps_rules}
use suscan.Cbor.Success.{Succeeds, bind-Succeeds, if-Succeeds, pack_cbor_type-Succeeds}
use suscan.Serial.Codec.{Sends, Room, Parses-last}
use suscan.Serial.Arrays.{
  floats, samples_of, unpack_compact_complex_array, single_array_cpu_to_be, cons_word,
  single_array_be_to_cpu, pack_compact_single_array, unpack_words, unpack_compact_single_array,
}

-- Words of 32 bits
abbrev pub AreWords : List ℕ → Type 0
AreWords = All (λ v. v < 2 ^ 32)

-- What a C array of floats can be: words, and as many as a memory holds.
abbrev pub IsArray : List ℕ → Type 0
IsArray vs = AreWords vs × (length vs < 2 ^ 60)

unfoldable pub array_items : List ℕ → List Item
array_items [] = uint 0 ∷ []
array_items (v ∷ vs) = uint (length (v ∷ vs)) ∷ blob (single_array_cpu_to_be (v ∷ vs)) ∷ []

length-single_array_cpu_to_be : (vs : List ℕ) → length (single_array_cpu_to_be vs) ≡ length vs * 4
unfolding single_array_cpu_to_be cpu32_to_be
length-single_array_cpu_to_be [] = refl
length-single_array_cpu_to_be (v ∷ vs) = omega (arith, length-single_array_cpu_to_be vs)

be_word : (v : ℕ) → v < 2 ^ 32 → be32_to_cpu (cpu32_to_be v) ≡ v
unfolding be32_to_cpu cpu32_to_be
be_word v h = omega arith

array_back :
    (vs : List ℕ)
    → AreWords vs
    → single_array_be_to_cpu (single_array_cpu_to_be vs) (length vs) ≡ ok vs
unfolding single_array_cpu_to_be single_array_be_to_cpu cpu32_to_be cons_word
array_back [] h = refl
array_back (v ∷ vs) h = rw (array_back vs h.1) (ap (λ w. ok (w ∷ vs)) (be_word v h.0))

pub array_short :
    (bs : List ℕ) (size : ℕ) → length bs < size * 4 → single_array_be_to_cpu bs size ≡ err fault
unfolding single_array_be_to_cpu cons_word
array_short bs zero h = absurd (omega arith)
array_short [] (suc size) h = refl
array_short (a ∷ []) (suc size) h = refl
array_short (a ∷ b ∷ []) (suc size) h = refl
array_short (a ∷ b ∷ c ∷ []) (suc size) h = refl
array_short (a ∷ b ∷ c ∷ d ∷ bs) (suc size) h = rw (array_short bs size (omega arith))

-- The floats of complex samples are an even number, and make the samples again.
samples_of-floats : (samples : List (ℕ × ℕ)) → samples_of (floats samples) ≡ samples
unfolding samples_of floats
samples_of-floats [] = refl
samples_of-floats ((i, q) ∷ samples) = ap (λ rest. (i, q) ∷ rest) (samples_of-floats samples)

length-floats : (samples : List (ℕ × ℕ)) → length (floats samples) ≡ length samples * 2
unfolding floats
length-floats [] = refl
length-floats ((i, q) ∷ samples) = omega (arith, length-floats samples)

module _ ⦃g : GrowBuf⦄ where
  open g use {Buf, unread}

  Appends-array :
      (vs : List ℕ) → Appends (pack_compact_single_array vs) (encode_all (array_items vs))
  unfolding pack_compact_single_array alloc_blob pack_uint array_items encode_all encode
  Appends-array [] = Appends-bind (Appends-pack_cbor_type 0 0) Appends-pure
  Appends-array (v ∷ vs) =
      rw (lt→ltb 0 (length (v ∷ vs)) (omega arith), append-nil)
        (Appends-bind (Appends-pack_cbor_type 0 (length (v ∷ vs))) (
          Appends-bind (Appends-pack_cbor_type 2 (length (single_array_cpu_to_be (v ∷ vs))))
            (record { writes = λ b b' h. g.unread-append_hollow _ b h })))

  pack_compact_single_array-Succeeds :
      Room → (vs : List ℕ) → Succeeds (pack_compact_single_array vs)
  unfolding pack_compact_single_array alloc_blob pack_uint
  pack_compact_single_array-Succeeds room vs =
      bind-Succeeds _ _ (pack_cbor_type-Succeeds room.0 0 (length vs)) (
        if-Succeeds (ltb 0 (length vs)) _ _
          (bind-Succeeds _ _ (pack_cbor_type-Succeeds room.0 2 _) (room.1 _)) (λ b. refl))

  pub Sends-array :
      (vs : List ℕ) → Sends (pack_compact_single_array vs) (encode_all (array_items vs))
  Sends-array vs = record {
    appends = Appends-array vs;
    succeeds = λ room. pack_compact_single_array-Succeeds room vs;
  }

  module _ (gives : ℕ → Bool) where
    pub Keeps-array : (osize : ℕ) → Keeps (unpack_compact_single_array gives osize)
    unfolding unpack_compact_single_array unpack_words
    Keeps-array osize = search keeps_rules depth 40

    pub Keeps-complex : (size : ℕ) → Keeps (unpack_compact_complex_array gives size)
    unfolding unpack_compact_complex_array
    Keeps-complex size = search (keeps_rules, Keeps-array) depth 40

    module _ (mem : (n : ℕ) → gives n ≡ true) where
      pub Parses-array :
          (osize : ℕ) (vs : List ℕ)
          → IsArray vs
          → Parses (unpack_compact_single_array gives osize) vs (array_items vs)
      unfolding unpack_compact_single_array unpack_words array_items
      Parses-array osize [] h = Parses-Field _ (uint64-Field 0 (omega arith)) (Parses-pure [])
      Parses-array osize (v ∷ vs) h =
          let bytes = single_array_cpu_to_be (v ∷ vs) in
          let size : length bytes ≡ length (v ∷ vs) * 4 = length-single_array_cpu_to_be (v ∷ vs) in
          Parses-Field _ (uint64-Field (length (v ∷ vs)) (omega (arith, h.1))) (
            rw (lt→ltb 0 (length (v ∷ vs)) (omega arith)) (
              Parses-Field _
                (blob-Field gives mem _ bytes (omega (arith, size)) (omega (arith, size, h.1)))
                (rw
                  (
                    eq→== (length bytes) (length (v ∷ vs) * 4 % 2 ^ 64) (omega (arith, size, h.1)),
                    array_back (v ∷ vs) h.0,
                  )
                  (Parses-pure (v ∷ vs)))))

      pub Parses-complex :
          (size : ℕ) (samples : List (ℕ × ℕ))
          → IsArray (floats samples)
          → Parses (unpack_compact_complex_array gives size) samples (array_items (floats samples))
      unfolding unpack_compact_complex_array
      Parses-complex size samples h =
          let even : (length (floats samples) % 2 == 1) ≡ false =
            lt→== _ 1 (omega (arith, length-floats samples)) in
          Parses-last _ (Parses-array (size * 2 % 2 ^ 64) (floats samples) h)
            (rw (even, samples_of-floats samples) (Parses-pure samples))
