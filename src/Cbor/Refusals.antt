-- ===== src/Cbor/Refusals.antt =====
-- Input that the integer unpackers refuse: a cut item, an item of another type, a number that an
-- `int64_t` does not hold.
use suscan.Prelude.{
  ne→==, ◌/◌, ◌∷◌, ℕ, ◌≤◌, ◌<◌, ◌^◌, ◌≡◌, ◌≢◌, refl, ap, ◌∙◌, sym, List, [], ◌∷◌, ◌++◌, arith, true,
  length, length-append, ltb, lt→ltb, some, eq→==,
}
use suscan.Prelude.Outcome.{Result, ok, err, Errno, einval, eilseq, eoverflow, Call}
use suscan.GrowBuf.{GrowBuf}
use suscan.Cbor.Format.{mktype, cpu8_to_be, cpu16_to_be, cpu32_to_be, cpu64_to_be}
use suscan.Cbor.Unpack.{
  on_loan, finish, try_uint, try_nint, int_of_uint, int_of_nint, unpack_uint, unpack_int,
  unpack_cbor_int, read_cbor_type, split_type, get_addl_bytes, get_addl_word, addl_size,
}
use suscan.Cbor.Wire.Header.{header, Form, short, one, two, four, eight, has_form, Form-lt}
use suscan.Cbor.Wire.Heads.{Reads-read_cbor_type}
use suscan.Cbor.Integers.{Reads-unpack_uint, Reads-unpack_nint, unpack_uint_other}

Form-addl_size :
    (v extra : ℕ) (more : List ℕ) → Form v extra more → addl_size extra ≡ some (length more)
unfolding addl_size cpu8_to_be cpu16_to_be cpu32_to_be cpu64_to_be
Form-addl_size v extra more (short le) = ground arith
Form-addl_size v extra more (one lo hi) = refl
Form-addl_size v extra more (two lo hi) = refl
Form-addl_size v extra more (four lo hi) = refl
Form-addl_size v extra more (eight lo hi) = refl

module _ ⦃g : GrowBuf⦄ where
  open g use {Buf, unread, ptr, loan, read, seek_cur, unread-loan, read_bytes}

  -- A body that fails on the loan.
  on_loan_err :
      {A : Type 0} (m : Call Buf A) (b : Buf) (e : Errno)
      → (m (loan (unread b))).0 ≡ err e
      → on_loan m b ≡ (err e, b)
  unfolding on_loan
  on_loan_err {A} m b e h = go (m (loan (unread b))) h
    where
      go : (o : Result A × Buf) → o.0 ≡ err e → finish o b ≡ (err e, b)
      go (ok a, t) same = cc
      go (err x, t) same = unfold finish in cc

  unpack_cbor_int_first :
      (type byte : ℕ) (rest : List ℕ) (b : Buf)
      → type ≢ byte / 2 ^ 5
      → unread b ≡ byte ∷ rest
      → (unpack_cbor_int type b).0 ≡ err eilseq
  unfolding unpack_cbor_int read_cbor_type split_type
  unpack_cbor_int_first type byte rest b ne h =
      let first : (read 1 b).0 ≡ ok (byte ∷ []) = read_bytes 1 b ∙ rw h refl in
      rw (first, ne→== type (byte / 2 ^ 5) ne) refl

  -- Where the first unread byte has a major type other than 0, whatever its additional information and the bytes
  -- behind it, `unpack_uint` answers EILSEQ and leaves the buffer as it was.
  pub unpack_uint_other_type :
      (byte : ℕ) (rest : List ℕ) (b : Buf)
      → byte / 2 ^ 5 ≢ 0
      → unread b ≡ byte ∷ rest
      → unpack_uint b ≡ (err eilseq, b)
  unfolding unpack_uint
  unpack_uint_other_type byte rest b ne h = on_loan_err (unpack_cbor_int 0) b eilseq (
      unpack_cbor_int_first 0 byte rest (loan (unread b)) (λ e. ne (sym e))
        (unread-loan (unread b) ∙ h))

  unpack_cbor_int_empty :
      (type : ℕ) (b : Buf) → unread b ≡ [] → (unpack_cbor_int type b).0 ≡ err einval
  unfolding unpack_cbor_int read_cbor_type split_type
  unpack_cbor_int_empty type b h =
      let first : (read 1 b).0 ≡ ok [] = read_bytes 1 b ∙ rw h in rw first

  get_addl_bytes_cut :
      (extra n : ℕ) (b : Buf)
      → addl_size extra ≡ some n
      → ltb (length (unread b)) n ≡ true
      → (get_addl_bytes extra b).0 ≡ err einval
  unfolding get_addl_bytes
  get_addl_bytes_cut extra n b size missing =
      rw (size, get_addl_bytes) (unfold get_addl_word in rw missing)

  unpack_cbor_int_cut :
      (type v x : ℕ) (front back : List ℕ) (b : Buf)
      → type < 8
      → v < 2 ^ 64
      → header type v ≡ front ++ (x ∷ back)
      → unread b ≡ front
      → (unpack_cbor_int type b).0 ≡ err einval
  unpack_cbor_int_cut type v x [] back b ht hv cut h = unpack_cbor_int_empty type b h
  unpack_cbor_int_cut type v x (y ∷ front) back b ht hv cut h =
      let f = has_form v hv in
      let whole : mktype type f.extra ∷ f.more ≡ y ∷ (front ++ (x ∷ back)) =
        sym (f.bytes type) ∙ cut in
      let r =
        Reads-read_cbor_type type f.extra front b ht (omega (arith, Form-lt _ _ _ f.form))
          (h ∙ cc) in
      let size = Form-addl_size v f.extra f.more f.form in
      let missing : ltb (length (unread r.after)) (length f.more) ≡ true =
        lt→ltb _ _
          (omega (arith, ap length r.left, ap length whole, length-append {0} front (x ∷ back))) in
      unfold unpack_cbor_int in
      rw (r.run, eq→== type type refl)
        (get_addl_bytes_cut f.extra (length f.more) r.after size missing)

  -- On a proper prefix of an unsigned integer `unpack_uint` answers EINVAL, and leaves the buffer
  -- as it was.
  pub unpack_uint_truncated :
      (v x : ℕ) (front back : List ℕ) (b : Buf)
      → v < 2 ^ 64
      → header 0 v ≡ front ++ (x ∷ back)
      → unread b ≡ front
      → unpack_uint b ≡ (err einval, b)
  unfolding unpack_uint
  unpack_uint_truncated v x front back b hv cut h = on_loan_err (unpack_cbor_int 0) b einval (
      unpack_cbor_int_cut 0 v x front back (loan (unread b)) (omega arith) hv cut
        (unread-loan (unread b) ∙ h))

  finish_overflow :
      {A : Type 0} (r : Result A) (t b : Buf)
      → r ≡ err eoverflow
      → finish (r, t) b ≡ (err eoverflow, b)
  finish_overflow r t b e = rw e (unfold finish in refl)

  -- `unpack_int` answers EOVERFLOW, and leaves the buffer as it was, on an unsigned integer from
  -- 2 ^ 63 on.
  pub unpack_int_overflow :
      (v : ℕ) (rest : List ℕ) (b : Buf)
      → 2 ^ 63 ≤ v
      → v < 2 ^ 64
      → unread b ≡ header 0 v ++ rest
      → unpack_int b ≡ (err eoverflow, b)
  unfolding unpack_int
  unpack_int_overflow v rest b lo hi h =
      let r = Reads-unpack_uint v rest (loan (unread b)) hi (unread-loan (unread b) ∙ h) in
      let big : int_of_uint v ≡ err eoverflow = unfold int_of_uint in ground arith in
      ap (λ o. try_uint o b) r.run
      ∙ unfold try_uint in finish_overflow (int_of_uint v) r.after b big

  -- `unpack_int` answers EOVERFLOW, and leaves the buffer as it was, on a negative integer whose
  -- number is above 2 ^ 63.
  pub unpack_int_underflow :
      (v : ℕ) (rest : List ℕ) (b : Buf)
      → 2 ^ 63 < v
      → v < 2 ^ 64
      → unread b ≡ header 1 v ++ rest
      → unpack_int b ≡ (err eoverflow, b)
  unfolding unpack_int
  unpack_int_underflow v rest b lo hi h =
      let e = unread-loan (unread b) ∙ h in
      let other = unpack_uint_other v rest (loan (unread b)) hi e in
      let r = Reads-unpack_nint v rest (loan (unread b)) hi e in
      let big : int_of_nint v ≡ err eoverflow = unfold int_of_nint in ground arith in
      ap (λ o. try_uint o b) other
      ∙ unfold try_uint in
        (ap (λ o. try_nint o b) r.run
          ∙ unfold try_nint in finish_overflow (int_of_nint v) r.after b big)
