-- ===== src/Cbor/Wire/Heads.antt =====
-- Reading heads back.
use suscan.Prelude.{
  ℕ, ◌^◌, ◌<◌, ◌≡◌, refl, ap, List, [], ◌∷◌, ◌++◌, arith, length, ltb, ◌==◌, true, false, some,
  eq→==, length-append, le→ltb,
}
use suscan.Prelude.Outcome.{ok}
use suscan.GrowBuf.{GrowBuf}
use suscan.Cbor.Format.{mktype, cpu8_to_be, cpu16_to_be, cpu32_to_be, cpu64_to_be}
use suscan.Cbor.Unpack.{
  read_cbor_type, get_addl_bytes, split_type, get_addl_word, addl_size, addl_value, unpack_cbor_int,
  unpack_cbor_float, is_float_addl, unpack_cbor_arraymap_start,
}
use suscan.Cbor.Wire.Reads.{Reads, Reads-bind, Reads-then, Reads-read, Reads-seek_cur, Reads-pure}
use suscan.Cbor.Wire.Endian
use suscan.Cbor.Wire.Header.{header, Form, short, one, two, four, eight, has_form, Form-lt}

module _ ⦃g : GrowBuf⦄ where
  open g use {Buf, unread}

  -- A type byte is read back into its two parts.
  pub Reads-read_cbor_type :
      (type extra : ℕ) (rest : List ℕ) (b : Buf)
      → type < 8
      → extra < 32
      → unread b ≡ mktype type extra ∷ rest
      → Reads read_cbor_type b (type, extra) (mktype type extra ∷ []) rest
  unfolding read_cbor_type
  Reads-read_cbor_type type extra rest b ht he h =
      let parts : split_type (mktype type extra ∷ []) ≡ ok (type, extra) = ground arith in
      Reads-bind _ (Reads-read (mktype type extra ∷ []) rest b h)
        λ b' h'. record { after = b'; run = λ i. (parts i, b'); left = h'; moved = omega arith }

  -- The word behind a type byte.
  Reads-word :
      (extra n v : ℕ) (bytes rest : List ℕ) (b : Buf)
      → n ≡ length bytes
      → addl_size extra ≡ some n
      → addl_value extra n (bytes ++ rest) ≡ v
      → unread b ≡ bytes ++ rest
      → Reads (get_addl_bytes extra) b v bytes rest
  unfolding get_addl_bytes
  Reads-word extra n v bytes rest b len size value h = record {
    after = s.after;
    run = rw (size, get_addl_bytes) word;
    left = s.left;
    moved = s.moved;
  }
    where
      s : Reads (g.seek_cur n) b tt bytes rest
      s = Reads-seek_cur n bytes rest b len h

      there : ltb (length (unread b)) n ≡ false
      there = le→ltb _ _ (omega (arith, ap length h, length-append {0} bytes rest))

      found : addl_value extra n (unread b) ≡ v
      found = rw h value

      word : get_addl_word extra n b ≡ (ok v, s.after)
      word = unfold get_addl_word in rw (there, s.run) (λ i. (ok (found i), s.after))

  Reads-addl :
      (v extra : ℕ) (bytes rest : List ℕ) (b : Buf)
      → Form v extra bytes
      → unread b ≡ bytes ++ rest
      → Reads (get_addl_bytes extra) b v bytes rest
  unfolding addl_size addl_value cpu8_to_be cpu16_to_be cpu32_to_be cpu64_to_be
  Reads-addl v extra bytes rest b (short le) h =
      Reads-word v 0 v [] rest b refl (ground arith) refl h
  Reads-addl v extra bytes rest b (one lo hi) h =
      Reads-word 24 1 v _ rest b refl refl (Endian.be8_to_cpu-cpu8_to_be v rest (omega arith)) h
  Reads-addl v extra bytes rest b (two lo hi) h =
      Reads-word 25 2 v _ rest b refl refl (Endian.be16_to_cpu-cpu16_to_be v rest (omega arith)) h
  Reads-addl v extra bytes rest b (four lo hi) h =
      Reads-word 26 4 v _ rest b refl refl (Endian.be32_to_cpu-cpu32_to_be v rest (omega arith)) h
  Reads-addl v extra bytes rest b (eight lo hi) h =
      Reads-word 27 8 v _ rest b refl refl (Endian.be64_to_cpu-cpu64_to_be v rest hi) h

  -- A head of the expected major type is read back.
  pub Reads-unpack_cbor_int :
      (type v : ℕ) (rest : List ℕ) (b : Buf)
      → type < 8
      → v < 2 ^ 64
      → unread b ≡ header type v ++ rest
      → Reads (unpack_cbor_int type) b v (header type v) rest
  unfolding unpack_cbor_int
  Reads-unpack_cbor_int type v rest b ht hv h =
      let f = has_form v hv in
      rw (f.bytes type) (
        Reads-bind _
          (Reads-read_cbor_type type f.extra (f.more ++ rest) b ht
            (omega (arith, Form-lt _ _ _ f.form)) (rw (f.bytes type) at h))
          λ b' h'. rw (eq→== type type refl) (Reads-addl v f.extra f.more rest b' f.form h'))

  -- A type byte of major type 7 with an accepted value is read back.
  pub Reads-unpack_cbor_float :
      (extra : ℕ) (rest : List ℕ) (b : Buf)
      → extra < 32
      → is_float_addl extra ≡ true
      → unread b ≡ mktype 7 extra ∷ rest
      → Reads unpack_cbor_float b extra (mktype 7 extra ∷ []) rest
  unfolding unpack_cbor_float
  Reads-unpack_cbor_float extra rest b he known h =
      Reads-bind _ (Reads-read_cbor_type 7 extra rest b (omega arith) he h)
        λ b' h'. rw known (Reads-pure extra b' h')

  -- The start of an array or a map of known length.
  pub Reads-arraymap_known :
      (type v : ℕ) (rest : List ℕ) (b : Buf)
      → type < 8
      → v < 2 ^ 64
      → unread b ≡ header type v ++ rest
      → Reads (unpack_cbor_arraymap_start type 31) b (v, false) (header type v) rest
  unfolding unpack_cbor_arraymap_start
  Reads-arraymap_known type v rest b ht hv h =
      let f = has_form v hv in
      let known : (f.extra == 31) ≡ false = ground (arith, Form-lt v f.extra f.more f.form) in
      rw (f.bytes type) (
        Reads-bind _
          (Reads-read_cbor_type type f.extra (f.more ++ rest) b ht
            (omega (arith, Form-lt _ _ _ f.form)) (rw (f.bytes type) at h))
          λ b' h'.
            rw (eq→== type type refl, known)
              (Reads-then _ (Reads-addl v f.extra f.more rest b' f.form h')
                λ b'' h''. Reads-pure (v, false) b'' h''))

  -- The start of one that a break ends.
  pub Reads-arraymap_indef :
      (type : ℕ) (rest : List ℕ) (b : Buf)
      → type < 8
      → unread b ≡ mktype type 31 ∷ rest
      → Reads (unpack_cbor_arraymap_start type 31) b (0, true) (mktype type 31 ∷ []) rest
  unfolding unpack_cbor_arraymap_start
  Reads-arraymap_indef type rest b ht h =
      Reads-bind _ (Reads-read_cbor_type type 31 rest b ht (omega arith) h)
        λ b' h'. rw (eq→== type type refl) (Reads-pure (0, true) b' h')
