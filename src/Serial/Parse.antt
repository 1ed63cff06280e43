-- ===== src/Serial/Parse.antt =====
-- What a deserializer reads, item by item: rules for `search`, one for each way to build one.
use suscan.Prelude.{
  ℕ, ◌%◌, ◌^◌, ◌<◌, ◌≡◌, refl, ap, ◌∙◌, List, [], ◌∷◌, ◌++◌, arith, Bool, true, false, length,
  append_assoc, append-nil, lt→ltb, le→ltb, lt→==, ◌==◌, ◌-◌,
}
use suscan.Prelude.Int.{ℤ, pos, negsuc, IsI64}
use suscan.Prelude.Outcome.{Call, pure, ◌>>=◌}
use suscan.GrowBuf.{GrowBuf}
use suscan.Cbor.Format.{size_max, unknown_nelem}
use suscan.Cbor.Pack.{strlen}
use suscan.Cbor.Unpack.{
  unpack_int, unpack_blob, unpack_str, unpack_bool, unpack_single, unpack_double, unpack_uint_w,
  unpack_int_w, cut_int, unpack_map_start, unpack_array_start,
}
use suscan.Cbor.Items.{
  Item, uint, single, double, array, map, int, blob, str, bool, encode, encode_all, start_bytes,
}
use suscan.Cbor.Integers.{Reads-unpack_uint, Reads-unpack_int_pos, Reads-unpack_int_negsuc}
use suscan.Cbor.Blobs.{
  Reads-unpack_blob, Reads-unpack_cstr_len, Reads-unpack_single, Reads-unpack_double,
  Reads-unpack_bool,
}
use suscan.Cbor.Wire.Reads.{Reads, Reads-on_loan, Reads-bind, Reads-map, Reads-pure}
use suscan.Cbor.Wire.Header.{header}
use suscan.Cbor.Wire.Heads.{Reads-arraymap_known}
use suscan.Serial.{framed, give_up}

-- An `int32_t`
abbrev pub IsI32 : ℤ → Type 0
IsI32 (pos n) = n < 2 ^ 31
IsI32 (negsuc n) = n < 2 ^ 31

-- A string as the packers take it: no NUL, and not too long.
abbrev pub IsText : List ℕ → Type 0
IsText s = (strlen s ≡ length s) × (length s < size_max)

pub encode_all-append : (is js : List Item) → encode_all (is ++ js) ≡ encode_all is ++ encode_all js
unfolding encode_all
encode_all-append [] js = refl
encode_all-append (i ∷ is) js = rw (encode_all-append is js, append_assoc)

pub wider : (v : ℤ) → IsI32 v → IsI64 v
wider (pos n) h = omega arith
wider (negsuc n) h = omega arith

module _ ⦃g : GrowBuf⦄ where
  open g use {Buf, unread}

  -- `m` reads the item `i`, and gives `a`.
  pub record Field {A : Type 0} (m : Call Buf A) (a : A) (i : Item) : Type 0 where
    pub at : (rest : List ℕ) (b : Buf) → unread b ≡ encode i ++ rest → Reads m b a (encode i) rest

  -- `m` reads the items `is`, and gives `a`.
  pub record Parses {A : Type 0} (m : Call Buf A) (a : A) (is : List Item) : Type 0 where
    pub at :
        (rest : List ℕ) (b : Buf)
        → unread b ≡ encode_all is ++ rest
        → Reads m b a (encode_all is) rest

  pub Parses-pure : {A : Type 0} (a : A) → Parses (pure a) a []
  unfolding encode_all
  Parses-pure a = record { at = λ rest b h. Reads-pure a b h }

  pub Parses-Field :
      {A B : Type 0} {m : Call Buf A} (k : A → Call Buf B) {a : A} {c : B} {i : Item}
      {is : List Item}
      → Field m a i
      → Parses (k a) c is
      → Parses (m >>= k) c (i ∷ is)
  unfolding encode_all
  Parses-Field k {i} {is} f p = record {
    at = λ rest b h.
        Reads-bind k
          (f.at (encode_all is ++ rest) b (h ∙ append_assoc (encode i) (encode_all is) rest))
          λ b' h'. p.at rest b' h';
  }

  pub Parses-only :
      {A : Type 0} {m : Call Buf A} {a : A} {i : Item} → Field m a i → Parses m a (i ∷ [])
  unfolding encode_all
  Parses-only {i} f = record {
    at = λ rest b h. rw (append-nil (encode i)) (f.at rest b (h ∙ rw (append-nil (encode i)) refl));
  }

  -- A part with items of its own
  pub Parses-part :
      {A B : Type 0} {m : Call Buf A} (k : A → Call Buf B) {a : A} {c : B} {is js : List Item}
      → Parses m a is
      → Parses (k a) c js
      → Parses (m >>= k) c (is ++ js)
  Parses-part k {is} {js} f p = record {
    at = λ rest b h. rw encode_all-append (
        Reads-bind k
          (f.at (encode_all js ++ rest) b
            (h ∙ rw encode_all-append (append_assoc (encode_all is) (encode_all js) rest)))
          λ b' h'. p.at rest b' h');
  }

  pub Parses-framed :
      {A : Type 0} {m : Call Buf A} {a : A} {is : List Item}
      → Parses m a is
      → Parses (framed m) a is
  unfolding framed give_up
  Parses-framed p = record {
    at = λ rest b h.
        let r = p.at rest b h in
        record {
          after = r.after;
          run = ap (give_up (g.ptr b)) r.run;
          left = r.left;
          moved = r.moved;
        };
  }

  uint-Field : (w v : ℕ) → v < 2 ^ 64 → v % 2 ^ w ≡ v → Field (unpack_uint_w w) v (uint v)
  unfolding unpack_uint_w encode
  uint-Field w v h e = record {
    at = λ rest b h'. Reads-map (λ n. n % 2 ^ w) e (Reads-unpack_uint v rest b h h');
  }

  pub uint8-Field : (v : ℕ) → v < 2 ^ 8 → Field (unpack_uint_w 8) v (uint v)
  uint8-Field v h = uint-Field 8 v (omega arith) (omega arith)

  pub uint16-Field : (v : ℕ) → v < 2 ^ 16 → Field (unpack_uint_w 16) v (uint v)
  uint16-Field v h = uint-Field 16 v (omega arith) (omega arith)

  pub uint32-Field : (v : ℕ) → v < 2 ^ 32 → Field (unpack_uint_w 32) v (uint v)
  uint32-Field v h = uint-Field 32 v (omega arith) (omega arith)

  pub uint64-Field : (v : ℕ) → v < 2 ^ 64 → Field (unpack_uint_w 64) v (uint v)
  uint64-Field v h = uint-Field 64 v h (omega arith)

  -- A field that is packed as a signed integer and unpacked as an unsigned one
  pub uint_as_int-Field : (v : ℕ) → v < 2 ^ 32 → Field (unpack_uint_w 32) v (int (pos v))
  unfolding encode
  uint_as_int-Field v h = record { at = λ rest b h'. (uint32-Field v h).at rest b h' }

  int_item : (v : ℤ) → IsI64 v → Field unpack_int v (int v)
  unfolding encode
  int_item (pos n) h = record { at = λ rest b h'. Reads-unpack_int_pos n rest b h h' }
  int_item (negsuc n) h = record { at = λ rest b h'. Reads-unpack_int_negsuc n rest b h h' }

  cut-Field : (w : ℕ) (v : ℤ) → IsI64 v → cut_int w v ≡ v → Field (unpack_int_w w) v (int v)
  unfolding unpack_int_w
  cut-Field w v h e = record {
    at = λ rest b h'. Reads-map (cut_int w) e ((int_item v h).at rest b h');
  }

  cut_int-I32 : (v : ℤ) → IsI32 v → cut_int 32 v ≡ v
  unfolding cut_int
  cut_int-I32 (pos n) h =
      let e : n % 2 ^ 64 % 2 ^ 32 ≡ n = omega arith in rw (e, lt→ltb n (2 ^ 31) h)
  cut_int-I32 (negsuc n) h =
      let e : (2 ^ 64 - 1 - n % 2 ^ 64) % 2 ^ 32 ≡ 2 ^ 32 - 1 - n = omega arith in
      let back : 2 ^ 32 - 1 - (2 ^ 32 - 1 - n) ≡ n = omega arith in
      rw (e, le→ltb (2 ^ 32 - 1 - n) (2 ^ 31) (omega arith)) (ap negsuc back)

  cut_int-I64 : (v : ℤ) → IsI64 v → cut_int 64 v ≡ v
  unfolding cut_int
  cut_int-I64 (pos n) h =
      let e : n % 2 ^ 64 % 2 ^ 64 ≡ n = omega arith in rw (e, lt→ltb n (2 ^ 63) h)
  cut_int-I64 (negsuc n) h =
      let e : (2 ^ 64 - 1 - n % 2 ^ 64) % 2 ^ 64 ≡ 2 ^ 64 - 1 - n = omega arith in
      let back : 2 ^ 64 - 1 - (2 ^ 64 - 1 - n) ≡ n = omega arith in
      rw (e, le→ltb (2 ^ 64 - 1 - n) (2 ^ 63) (omega arith)) (ap negsuc back)

  pub int32-Field : (v : ℤ) → IsI32 v → Field (unpack_int_w 32) v (int v)
  int32-Field v h = cut-Field 32 v (wider v h) (cut_int-I32 v h)

  pub int64-Field : (v : ℤ) → IsI64 v → Field (unpack_int_w 64) v (int v)
  int64-Field v h = cut-Field 64 v h (cut_int-I64 v h)

  pub single-Field : (v : ℕ) → v < 2 ^ 32 → Field unpack_single v (single v)
  unfolding encode
  single-Field v h = record { at = λ rest b h'. Reads-unpack_single v rest b h h' }

  pub double-Field : (v : ℕ) → v < 2 ^ 64 → Field unpack_double v (double v)
  unfolding encode
  double-Field v h = record { at = λ rest b h'. Reads-unpack_double v rest b h h' }

  pub bool-Field : (x : Bool) → Field unpack_bool x (bool x)
  unfolding encode
  bool-Field x = record { at = λ rest b h'. Reads-unpack_bool x rest b h' }

  module _ (gives : ℕ → Bool) (mem : (n : ℕ) → gives n ≡ true) where
    pub str-Field : (s : List ℕ) → IsText s → Field (unpack_str gives) s (str s)
    unfolding encode unpack_str
    str-Field s h = record {
      at = λ rest b h'.
          Reads-map (λ x. x) refl (Reads-unpack_cstr_len gives s rest b h.1 (mem _) h');
    }

    pub blob-Field :
        (cached : ℕ) (bytes : List ℕ)
        → 0 < length bytes
        → length bytes < size_max
        → Field (unpack_blob gives cached) bytes (blob bytes)
    unfolding encode
    blob-Field cached bytes some_bytes short = record {
      at = λ rest b h'. Reads-unpack_blob gives cached bytes rest b some_bytes short (mem _) h';
    }

  -- The start of a map or an array of known length
  pub map-Field : (n : ℕ) → n < unknown_nelem → Field unpack_map_start (n, false) (map n)
  unfolding encode start_bytes unpack_map_start
  map-Field n h = record {
    at = λ rest b h'.
        let known : (n == unknown_nelem) ≡ false = lt→== n unknown_nelem h in
        rw known (
          Reads-on_loan (header 5 n) rest (rw known at h')
            λ t e. Reads-arraymap_known 5 n rest t (omega arith) (omega arith) e);
  }

  pub array-Field : (n : ℕ) → n < unknown_nelem → Field unpack_array_start (n, false) (array n)
  unfolding encode start_bytes unpack_array_start
  array-Field n h = record {
    at = λ rest b h'.
        let known : (n == unknown_nelem) ≡ false = lt→== n unknown_nelem h in
        rw known (
          Reads-on_loan (header 4 n) rest (rw known at h')
            λ t e. Reads-arraymap_known 4 n rest t (omega arith) (omega arith) e);
  }
