-- ===== src/Cbor/Success.antt =====
-- The packers (util/cbor.c) fail only where the buffer does.
use suscan.Prelude.{ℕ, ◌≡◌, refl, List, [], ◌∷◌, Bool, true, false, leb, ◌==◌, if◌then◌else◌}
use suscan.Prelude.Int.{pos, negsuc}
use suscan.Prelude.Outcome.{Result, ok, err, Call, and_then, ◌>>◌}
use suscan.GrowBuf.{GrowBuf}
use suscan.Cbor.Format.{unknown_nelem}
use suscan.Cbor.Pack.{
  pack_uint, pack_nint, pack_int, pack_blob, pack_str, pack_bool, pack_null, pack_break,
  pack_single, pack_double, pack_array_start, pack_map_start, pack_cbor_type, pack_cbor_type_byte,
  pack_cstr_len, strlen,
}
use suscan.Cbor.Items.{
  Item, uint, nint, single, double, array, map, int, blob, str, bool, null, stop, pack_items,
  pack_item,
}

module _ ⦃g : GrowBuf⦄ where
  open g use {Buf, append}

  -- The call succeeds on every buffer.
  abbrev pub Succeeds : Call Buf (Unit {0}) → Type 0
  Succeeds m = (b : Buf) → (m b).0 ≡ ok tt

  pub bind-Succeeds : (m k : Call Buf (Unit {0})) → Succeeds m → Succeeds k → Succeeds (m >> k)
  bind-Succeeds m k p q b = go (m b) (p b)
    where
      go : (o : Result (Unit {0}) × Buf) → o.0 ≡ ok tt → (and_then o (λ _. k)).0 ≡ ok tt
      go (ok a, c) h = q c
      go (err e, c) h = h

  pub if-Succeeds :
      (c : Bool) (m k : Call Buf (Unit {0}))
      → Succeeds m
      → Succeeds k
      → Succeeds (if c then m else k)
  if-Succeeds true m k p q = p
  if-Succeeds false m k p q = q

  module _ (room : (bs : List ℕ) → Succeeds (append bs)) where
    word-Succeeds :
        (type extra : ℕ) (bs : List ℕ) → Succeeds (pack_cbor_type_byte type extra >> append bs)
    unfolding pack_cbor_type_byte
    word-Succeeds type extra bs = bind-Succeeds _ _ (room _) (room bs)

    pub pack_cbor_type-Succeeds : (type v : ℕ) → Succeeds (pack_cbor_type type v)
    unfolding pack_cbor_type
    pack_cbor_type-Succeeds type v =
        if-Succeeds (leb v 23) _ _ (unfold pack_cbor_type_byte in room _) (
          if-Succeeds (leb v 0xff) _ _ (word-Succeeds type 24 _) (
            if-Succeeds (leb v 0xffff) _ _ (word-Succeeds type 25 _) (
              if-Succeeds (leb v 0xffff_ffff) _ _ (word-Succeeds type 26 _)
                (word-Succeeds type 27 _))))

    pack_item-Succeeds : (i : Item) → Succeeds (pack_item i)
    unfolding pack_item pack_uint pack_nint pack_int pack_blob pack_str pack_cstr_len pack_bool
        pack_null pack_break pack_single pack_double pack_array_start pack_map_start
    pack_item-Succeeds (uint v) = pack_cbor_type-Succeeds 0 v
    pack_item-Succeeds (nint v) = pack_cbor_type-Succeeds 1 v
    pack_item-Succeeds (single v) = word-Succeeds 7 26 _
    pack_item-Succeeds (double v) = word-Succeeds 7 27 _
    pack_item-Succeeds (array n) =
        if-Succeeds (n == unknown_nelem) _ _ (room _) (pack_cbor_type-Succeeds 4 n)
    pack_item-Succeeds (map n) =
        if-Succeeds (n == unknown_nelem) _ _ (room _) (pack_cbor_type-Succeeds 5 n)
    pack_item-Succeeds (int (pos n)) = pack_cbor_type-Succeeds 0 _
    pack_item-Succeeds (int (negsuc n)) = pack_cbor_type-Succeeds 1 _
    pack_item-Succeeds (blob bytes) = bind-Succeeds _ _ (pack_cbor_type-Succeeds 2 _) (room bytes)
    pack_item-Succeeds (str s) =
        bind-Succeeds _ _ (pack_cbor_type-Succeeds 3 _)
          (if-Succeeds (strlen s == 0) _ _ (λ b. refl) (room _))
    pack_item-Succeeds (bool true) = pack_cbor_type-Succeeds 7 21
    pack_item-Succeeds (bool false) = pack_cbor_type-Succeeds 7 20
    pack_item-Succeeds null = pack_cbor_type-Succeeds 7 22
    pack_item-Succeeds stop = room _

    -- Where every append to the buffer succeeds, so does the packing of any sequence of items.
    pub pack_items-Succeeds : (is : List Item) → Succeeds (pack_items is)
    unfolding pack_items
    pack_items-Succeeds [] = λ b. refl
    pack_items-Succeeds (i ∷ is) = bind-Succeeds _ _ (pack_item-Succeeds i) (pack_items-Succeeds is)
