-- ===== src/Cbor/RoundTrip.antt =====
-- What the packers write, the unpackers read back.
use suscan.Prelude.{
  ℕ, ◌<◌, ◌^◌, ◌≡◌, refl, ap, ◌∙◌, List, [], ◌∷◌, ◌++◌, arith, Bool, true, false, All, append_assoc,
  append-nil, Bool-cases, inl, inr, ◌==◌,
}
use suscan.Prelude.Int.{pos, negsuc}
use suscan.Prelude.Outcome.{ok}
use suscan.GrowBuf.{GrowBuf}
use suscan.Cbor.Format.{unknown_nelem}
use suscan.Cbor.Unpack.{
  unpack_cbor_arraymap_start, unpack_array_start, unpack_map_start, unpack_str,
}
use suscan.Cbor.Wire.Reads.{Reads, Reads-on_loan, Reads-bind, Reads-map, Reads-pure}
use suscan.Cbor.Wire.Heads.{Reads-arraymap_known, Reads-arraymap_indef}
use suscan.Cbor.Integers.{
  Reads-unpack_uint, Reads-unpack_nint, Reads-unpack_int_pos, Reads-unpack_int_negsuc,
}
use suscan.Cbor.Blobs.{
  Reads-unpack_blob, Reads-unpack_cstr_len, Reads-unpack_single, Reads-unpack_double,
  Reads-unpack_bool, Reads-unpack_null, Reads-unpack_break,
}
use suscan.Cbor.Items.{
  Item, uint, nint, single, double, array, map, int, blob, str, bool, null, stop, Fits, kind, kinds,
  encode, encode_all, start_bytes, given, pack_items, unpack_item, unpack_items,
}
use suscan.Cbor.Writes.{Appends-pack_items}

module _ ⦃g : GrowBuf⦄ where
  open g use {Buf, unread}

  -- The start of an array or a map: what it is reported as, and how it is read.
  start_of :
      (type n : ℕ) (rest : List ℕ)
      → type < 8
      → n < 2 ^ 64
      → (p : ℕ × Bool) × (given p ≡ n)
        × ((t : Buf)
            → unread t ≡ start_bytes type n ++ rest
            → Reads (unpack_cbor_arraymap_start type 31) t p (start_bytes type n) rest)
  unfolding start_bytes given
  start_of type n rest ht hn = elim (Bool-cases (n == unknown_nelem)) [
    | inl e ↦ ((0, true), ground arith, rw e λ t h. Reads-arraymap_indef type rest t ht h)
    | inr e ↦ ((n, false), refl, rw e λ t h. Reads-arraymap_known type n rest t ht hn h)
  ]

  module _ (gives : ℕ → Bool) (cached : ℕ) (mem : (n : ℕ) → gives n ≡ true) where
    Reads-unpack_item :
        (i : Item) (rest : List ℕ) (b : Buf)
        → Fits i
        → unread b ≡ encode i ++ rest
        → Reads (unpack_item gives cached (kind i)) b i (encode i) rest
    unfolding unpack_item kind encode unpack_array_start unpack_map_start unpack_str
    Reads-unpack_item (uint v) rest b f h = Reads-map uint refl (Reads-unpack_uint v rest b f h)
    Reads-unpack_item (nint v) rest b f h = Reads-map nint refl (Reads-unpack_nint v rest b f h)
    Reads-unpack_item (single v) rest b f h =
        Reads-map single refl (Reads-unpack_single v rest b f h)
    Reads-unpack_item (double v) rest b f h =
        Reads-map double refl (Reads-unpack_double v rest b f h)
    Reads-unpack_item (array n) rest b f h =
        let s = start_of 4 n rest (omega arith) f in
        Reads-map (λ p. array (given p)) (ap array s.1) (Reads-on_loan _ rest h s.2)
    Reads-unpack_item (map n) rest b f h =
        let s = start_of 5 n rest (omega arith) f in
        Reads-map (λ p. map (given p)) (ap map s.1) (Reads-on_loan _ rest h s.2)
    Reads-unpack_item (int (pos n)) rest b f h =
        Reads-map int refl (Reads-unpack_int_pos n rest b f h)
    Reads-unpack_item (int (negsuc n)) rest b f h =
        Reads-map int refl (Reads-unpack_int_negsuc n rest b f h)
    Reads-unpack_item (blob bytes) rest b f h =
        Reads-map blob refl (Reads-unpack_blob gives cached bytes rest b f.0 f.1 (mem _) h)
    Reads-unpack_item (str s) rest b f h =
        Reads-map str refl
          (Reads-map (λ x. x) refl (Reads-unpack_cstr_len gives s rest b f.1 (mem _) h))
    Reads-unpack_item (bool x) rest b f h = Reads-map bool refl (Reads-unpack_bool x rest b h)
    Reads-unpack_item null rest b f h = Reads-map (λ _. null) refl (Reads-unpack_null rest b h)
    Reads-unpack_item stop rest b f h = Reads-map (λ _. stop) refl (Reads-unpack_break rest b h)

    -- Items that stand on the wire are read one after the other.
    pub Reads-unpack_items :
        (is : List Item) (rest : List ℕ) (b : Buf)
        → All Fits is
        → unread b ≡ encode_all is ++ rest
        → Reads (unpack_items gives cached (kinds is)) b is (encode_all is) rest
    unfolding unpack_items kinds encode_all
    Reads-unpack_items [] rest b f h = Reads-pure [] b h
    Reads-unpack_items (i ∷ is) rest b f h =
        Reads-bind _
          (Reads-unpack_item i (encode_all is ++ rest) b f.0
            (h ∙ append_assoc (encode i) (encode_all is) rest))
          λ b' h'. Reads-map (λ js. i ∷ js) refl (Reads-unpack_items is rest b' f.1 h')

    -- Items that fit their C types, with no blob that is empty and no string that holds a NUL, and that were
    -- packed behind nothing unread, are unpacked, where there is memory for blobs and strings, by calls of the
    -- same kinds in the same order: every call succeeds, the values come back, and nothing is left unread.
    pub unpack_items-pack_items :
        (is : List Item) (b b' : Buf)
        → All Fits is
        → unread b ≡ []
        → pack_items is b ≡ (ok tt, b')
        → Reads (unpack_items gives cached (kinds is)) b' is (encode_all is) []
    unpack_items-pack_items is b b' f h packed =
        Reads-unpack_items is [] b' f
          ((Appends-pack_items is f).writes b b' packed ∙ rw (h, append-nil (encode_all is)) refl)
