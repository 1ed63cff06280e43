-- ===== src/Serial/Arrays.antt =====
-- The compact arrays of analyzer/serialize.c. A float is the word that holds its bits, and a library built
-- for single precision is modelled, where `SUFLOAT` is a `float`.
use suscan.Prelude.{
  ℕ, zero, suc, ◌*◌, ◌%◌, ◌^◌, Bool, List, [], ◌∷◌, ◌++◌, if◌then◌else◌, ltb, ◌==◌, length,
}
use suscan.Prelude.Outcome.{Result, ok, err, Call, pure, fail, lift, ◌>>=◌, ◌>>◌, su_false, fault}
use suscan.GrowBuf.{GrowBuf}
use suscan.Cbor.Format.{cpu32_to_be, be32_to_cpu}
use suscan.Cbor.Pack.{pack_uint, alloc_blob}
use suscan.Cbor.Unpack.{unpack_uint_w, unpack_blob}

-- `suscan_single_array_cpu_to_be`
unfoldable pub single_array_cpu_to_be : List ℕ → List ℕ
single_array_cpu_to_be [] = []
single_array_cpu_to_be (v ∷ orig) = cpu32_to_be v ++ single_array_cpu_to_be orig

unfoldable pub cons_word : ℕ → Result (List ℕ) → Result (List ℕ)
cons_word v (ok vs) = ok (v ∷ vs)
cons_word v (err e) = err e

-- `suscan_single_array_be_to_cpu`, of `size` words in the memory `orig`: a fault where that ends first.
unfoldable pub single_array_be_to_cpu : List ℕ → ℕ → Result (List ℕ)
unfolding cons_word
single_array_be_to_cpu orig zero = ok []
single_array_be_to_cpu (a ∷ b ∷ c ∷ d ∷ orig) (suc size) =
    cons_word (be32_to_cpu (a ∷ b ∷ c ∷ d ∷ [])) (single_array_be_to_cpu orig size)
single_array_be_to_cpu _ (suc size) = err fault

-- Complex samples as the floats that a cast makes of them, and back; an odd float is left over.
unfoldable pub floats : List (ℕ × ℕ) → List ℕ
floats [] = []
floats ((i, q) ∷ samples) = i ∷ q ∷ floats samples

unfoldable pub samples_of : List ℕ → List (ℕ × ℕ)
samples_of (i ∷ q ∷ array) = (i, q) ∷ samples_of array
samples_of _ = []

module _ ⦃g : GrowBuf⦄ where
  open g use {Buf}

  -- `suscan_pack_compact_single_array`
  unfoldable pub pack_compact_single_array : List ℕ → Call Buf (Unit {0})
  pack_compact_single_array array = do
    pack_uint (length array)
    if ltb 0 (length array) then alloc_blob (single_array_cpu_to_be array) else pure tt

  -- `suscan_pack_compact_complex_array`
  unfoldable pub pack_compact_complex_array : List (ℕ × ℕ) → Call Buf (Unit {0})
  unfolding floats
  pack_compact_complex_array array = pack_compact_single_array (floats array)

  -- `gives` is as for `unpack_blob`, and `osize` is `*osize` at the call.
  module _ (gives : ℕ → Bool) where
    -- What follows the length of the array
    unfoldable pub unpack_words : (osize array_length : ℕ) → Call Buf (List ℕ)
    unfolding single_array_be_to_cpu
    unpack_words osize array_length = do
      array ← unpack_blob gives (osize * 4 % 2 ^ 64)
      (if length array == array_length * 4 % 2 ^ 64
          then lift (single_array_be_to_cpu array array_length)
          else fail su_false)

    -- `suscan_unpack_compact_single_array`
    unfoldable pub unpack_compact_single_array : ℕ → Call Buf (List ℕ)
    unfolding unpack_words
    unpack_compact_single_array osize = do
      array_length ← unpack_uint_w 64
      if ltb 0 array_length then unpack_words osize array_length else pure []

    -- `suscan_unpack_compact_complex_array`
    unfoldable pub unpack_compact_complex_array : ℕ → Call Buf (List (ℕ × ℕ))
    unfolding samples_of
    unpack_compact_complex_array size = do
      array ← unpack_compact_single_array (size * 2 % 2 ^ 64)
      if length array % 2 == 1 then fail su_false else pure (samples_of array)
