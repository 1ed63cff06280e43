-- ===== src/Cbor/Writes.antt =====
-- What each packer puts on the wire.
use suscan.Prelude.{
  ℕ, suc, ◌+◌, ◌%◌, ◌^◌, ◌≡◌, List, [], ◌∷◌, ◌++◌, arith, true, false, length, ◌==◌, take-length,
  All,
}
use suscan.Prelude.Int.{pos, negsuc}
use suscan.GrowBuf.{GrowBuf}
use suscan.Cbor.Format.{unknown_nelem}
use suscan.Cbor.Pack.{
  pack_uint, pack_nint, pack_int, pack_blob, pack_cstr_len, pack_str, pack_bool, pack_null,
  pack_break, pack_single, pack_double, pack_array_start, pack_map_start,
}
use suscan.Cbor.Wire.Reads.{Appends, Appends-append, Appends-pure, Appends-bind}
use suscan.Cbor.Wire.Header.{header, Appends-word, Appends-if, Appends-pack_cbor_type}
use suscan.Cbor.Items.{
  Item, uint, nint, single, double, array, map, int, blob, str, bool, null, stop, Fits, encode,
  encode_all, start_bytes, pack_item, pack_items,
}

module _ ⦃g : GrowBuf⦄ where
  Appends-pack_cstr_len :
      (s : List ℕ) → Appends (pack_cstr_len s (length s)) (header 3 (length s) ++ s)
  unfolding pack_cstr_len
  Appends-pack_cstr_len [] = Appends-bind (Appends-pack_cbor_type 3 0) Appends-pure
  Appends-pack_cstr_len (c ∷ s) =
      let more : (suc (length s) == 0) ≡ false = ground arith in
      rw (more, take-length s)
        (Appends-bind (Appends-pack_cbor_type 3 (suc (length s))) (Appends-append (c ∷ s)))

  pub Appends-pack_item : (i : Item) → Fits i → Appends (pack_item i) (encode i)
  unfolding pack_item encode pack_uint pack_nint pack_int pack_blob pack_str pack_bool pack_null
      pack_break pack_single pack_double pack_array_start pack_map_start start_bytes
  Appends-pack_item (uint v) h = Appends-pack_cbor_type 0 v
  Appends-pack_item (nint v) h = Appends-pack_cbor_type 1 v
  Appends-pack_item (single v) h = Appends-word 7 26 _
  Appends-pack_item (double v) h = Appends-word 7 27 _
  Appends-pack_item (array n) h =
      Appends-if (n == unknown_nelem) (Appends-append _) (Appends-pack_cbor_type 4 n)
  Appends-pack_item (map n) h =
      Appends-if (n == unknown_nelem) (Appends-append _) (Appends-pack_cbor_type 5 n)
  Appends-pack_item (int (pos n)) h = Appends-pack_cbor_type 0 n
  Appends-pack_item (int (negsuc n)) h =
      let e : suc n % 2 ^ 64 ≡ n + 1 = omega arith in rw e (Appends-pack_cbor_type 1 (n + 1))
  Appends-pack_item (blob bytes) h =
      Appends-bind (Appends-pack_cbor_type 2 (length bytes)) (Appends-append bytes)
  Appends-pack_item (str s) h = rw (h.0) (Appends-pack_cstr_len s)
  Appends-pack_item (bool true) h = unfold header in Appends-pack_cbor_type 7 21
  Appends-pack_item (bool false) h = unfold header in Appends-pack_cbor_type 7 20
  Appends-pack_item null h = unfold header in Appends-pack_cbor_type 7 22
  Appends-pack_item stop h = Appends-append _

  pub Appends-pack_items : (is : List Item) → All Fits is → Appends (pack_items is) (encode_all is)
  unfolding pack_items encode_all
  Appends-pack_items [] h = Appends-pure
  Appends-pack_items (i ∷ is) h = Appends-bind (Appends-pack_item i h.0) (Appends-pack_items is h.1)
