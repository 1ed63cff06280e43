-- ===== src/Cbor/Runs.antt =====
-- Runs of the packers and unpackers (util/cbor.c, util/cbor.h) on plain buffers.
use suscan.Prelude.{ℕ, ◌+◌, ◌^◌, ◌≡◌, refl, true, List, [], ◌∷◌, arith, All}
use suscan.Prelude.Int.{negsuc}
use suscan.Prelude.Outcome.{ok, err, eilseq, einval, eoverflow}
use suscan.GrowBuf.Plain.{PlainBuf, plain}
use suscan.Cbor.Format.{cpu16_to_be, cpu64_to_be}
use suscan.Cbor.Pack.{
  strlen, pack_cbor_type, pack_cbor_type_byte, pack_uint, pack_nint, pack_int, pack_blob, pack_str,
  pack_cstr_len, pack_bool, pack_null, pack_break, pack_array_start,
}
use suscan.Cbor.Unpack.{unpack_uint, unpack_int, unpack_blob}
use suscan.Cbor.Items.{
  Item, uint, int, array, blob, str, bool, null, stop, kinds, encode_all, pack_items, pack_item,
  unpack_items, unpack_item, uint_kind, Fits,
}
use suscan.Cbor.Wire.Reads.{Reads}
use suscan.Cbor.Wire.Header.{header}
use suscan.Cbor.RoundTrip.{unpack_items-pack_items}
use suscan.Cbor.Errors.{unpack_item_unchanged}
use suscan.Cbor.Refusals.{
  unpack_uint_truncated, unpack_uint_other_type, unpack_int_overflow, unpack_int_underflow,
}
use suscan.Cbor.EmptyBlob.{unpack_blob_empty}

abbrev holding : List ℕ → PlainBuf
holding bs = record { done = []; bytes = bs }

abbrev sample : List Item
sample =
    uint 1000
    ∷ int (negsuc 9)
    ∷ array 2
    ∷ blob (1 ∷ 2 ∷ [])
    ∷ str (104 ∷ 105 ∷ [])
    ∷ bool true
    ∷ null
    ∷ stop
    ∷ []

abbrev sample_bytes : List ℕ
sample_bytes =
    0x19 ∷ 0x03 ∷ 0xe8 ∷ 0x2a ∷ 0x82 ∷ 0x42 ∷ 1 ∷ 2 ∷ 0x62 ∷ 104 ∷ 105 ∷ 0xf5 ∷ 0xf6 ∷ 0xff ∷ []

sample-Fits : All Fits sample
unfolding strlen
sample-Fits = (
  omega arith,
  (
    omega arith,
    (omega arith, ((omega arith, omega arith), ((refl, omega arith), (tt, (tt, (tt, tt)))))),
  ),
)

sample_packed : pack_items sample (holding []) ≡ (ok tt, holding sample_bytes)
unfolding pack_items pack_item pack_uint pack_nint pack_int pack_blob pack_str strlen pack_cstr_len
    pack_bool pack_null pack_break pack_array_start pack_cbor_type pack_cbor_type_byte cpu16_to_be
sample_packed = refl

unpack_items-pack_items_example :
    Reads
      (unpack_items (λ n. true) 0 (kinds sample))
      (holding sample_bytes)
      sample
      (encode_all sample)
      []
unpack_items-pack_items_example =
    unpack_items-pack_items (λ n. true) 0 (λ n. refl) sample (holding []) (holding sample_bytes)
      sample-Fits refl sample_packed

unpack_blob_empty_example :
    unpack_blob (λ n. true) 0 (holding (0x40 ∷ 7 ∷ [])) ≡ (ok [], holding (0x40 ∷ 7 ∷ []))
unfolding header
unpack_blob_empty_example = unpack_blob_empty (λ n. true) 0 (7 ∷ []) (holding (0x40 ∷ 7 ∷ [])) refl

unpack_uint_truncated_example :
    unpack_uint (holding (0x19 ∷ 0x03 ∷ [])) ≡ (err einval, holding (0x19 ∷ 0x03 ∷ []))
unfolding header cpu16_to_be
unpack_uint_truncated_example =
    unpack_uint_truncated 1000 0xe8 (0x19 ∷ 0x03 ∷ []) [] (holding (0x19 ∷ 0x03 ∷ [])) (omega arith)
      refl refl

unpack_uint_other_type_example :
    unpack_uint (holding (0x61 ∷ 104 ∷ [])) ≡ (err eilseq, holding (0x61 ∷ 104 ∷ []))
unfolding header
unpack_uint_other_type_example =
    unpack_uint_other_type 0x61 (104 ∷ []) (holding (0x61 ∷ 104 ∷ [])) (omega arith) refl

text_head : (unpack_item (λ n. true) 0 uint_kind (holding (0x61 ∷ 104 ∷ []))).0 ≡ err eilseq
unfolding unpack_item
text_head = rw unpack_uint_other_type_example

unpack_item_unchanged_example :
    (unpack_item (λ n. true) 0 uint_kind (holding (0x61 ∷ 104 ∷ []))).1 ≡ holding (0x61 ∷ 104 ∷ [])
unpack_item_unchanged_example =
    unpack_item_unchanged (λ n. true) 0 uint_kind (holding (0x61 ∷ 104 ∷ [])) eilseq text_head

abbrev two_pow_63 : List ℕ
two_pow_63 = 0x1b ∷ 0x80 ∷ 0 ∷ 0 ∷ 0 ∷ 0 ∷ 0 ∷ 0 ∷ 0 ∷ []

unpack_int_overflow_example : unpack_int (holding two_pow_63) ≡ (err eoverflow, holding two_pow_63)
unfolding header cpu64_to_be
unpack_int_overflow_example =
    unpack_int_overflow (2 ^ 63) [] (holding two_pow_63) (omega arith) (omega arith) refl

abbrev below_i64 : List ℕ
below_i64 = 0x3b ∷ 0x80 ∷ 0 ∷ 0 ∷ 0 ∷ 0 ∷ 0 ∷ 0 ∷ 1 ∷ []

unpack_int_underflow_example : unpack_int (holding below_i64) ≡ (err eoverflow, holding below_i64)
unfolding header cpu64_to_be
unpack_int_underflow_example =
    unpack_int_underflow (2 ^ 63 + 1) [] (holding below_i64) (omega arith) (omega arith) refl
