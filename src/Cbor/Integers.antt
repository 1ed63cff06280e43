-- ===== src/Cbor/Integers.antt =====
-- Reading the integers back.
use suscan.Prelude.{ℕ, ◌+◌, ◌^◌, ◌<◌, ◌≡◌, ◌≢◌, ap, ◌∙◌, List, ◌++◌, arith, false, ◌==◌}
use suscan.Prelude.Int.{pos, negsuc}
use suscan.Prelude.Outcome.{Result, ok, err, eilseq}
use suscan.GrowBuf.{GrowBuf}
use suscan.Cbor.Unpack.{
  unpack_cbor_int, unpack_uint, unpack_nint, unpack_int, int_of_uint, int_of_nint, try_uint,
  try_nint, on_loan, finish,
}
use suscan.Cbor.Wire.Reads.{Reads, Reads-on_loan, Reads-finish}
use suscan.Cbor.Wire.Header.{header, has_form, Form-lt}
use suscan.Cbor.Wire.Heads.{Reads-unpack_cbor_int, Reads-read_cbor_type}

module _ ⦃g : GrowBuf⦄ where
  open g use {Buf, unread, ptr, loan, unread-loan, ptr-loan}

  pub Reads-unpack_uint :
      (v : ℕ) (rest : List ℕ) (b : Buf)
      → v < 2 ^ 64
      → unread b ≡ header 0 v ++ rest
      → Reads unpack_uint b v (header 0 v) rest
  unfolding unpack_uint
  Reads-unpack_uint v rest b hv h =
      Reads-on_loan (header 0 v) rest h λ t e. Reads-unpack_cbor_int 0 v rest t (omega arith) hv e

  pub Reads-unpack_nint :
      (v : ℕ) (rest : List ℕ) (b : Buf)
      → v < 2 ^ 64
      → unread b ≡ header 1 v ++ rest
      → Reads unpack_nint b v (header 1 v) rest
  unfolding unpack_nint
  Reads-unpack_nint v rest b hv h =
      Reads-on_loan (header 1 v) rest h λ t e. Reads-unpack_cbor_int 1 v rest t (omega arith) hv e

  -- An item of another major type is refused.
  pub unpack_cbor_int_other :
      (expected type v : ℕ) (rest : List ℕ) (b : Buf)
      → type < 8
      → v < 2 ^ 64
      → expected ≢ type
      → unread b ≡ header type v ++ rest
      → (unpack_cbor_int expected b).0 ≡ err eilseq
  unfolding unpack_cbor_int
  unpack_cbor_int_other expected type v rest b ht hv ne h =
      let f = has_form v hv in
      let r =
        Reads-read_cbor_type type f.extra (f.more ++ rest) b ht
          (omega (arith, Form-lt _ _ _ f.form)) (rw (f.bytes type) at h) in
      let miss : (expected == type) ≡ false = ground arith in rw (r.run, miss)

  pub unpack_uint_other :
      (v : ℕ) (rest : List ℕ) (b : Buf)
      → v < 2 ^ 64
      → unread b ≡ header 1 v ++ rest
      → unpack_uint b ≡ (err eilseq, b)
  unfolding unpack_uint on_loan
  unpack_uint_other v rest b hv h = go (unpack_cbor_int 0 (loan (unread b))) (
      unpack_cbor_int_other 0 1 v rest (loan (unread b)) (omega arith) hv (λ e. omega arith)
        (unread-loan (unread b) ∙ h))
    where
      go : (o : Result ℕ × Buf) → o.0 ≡ err eilseq → finish o b ≡ (err eilseq, b)
      go (ok a, t) e = cc
      go (err x, t) e = unfold finish in cc

  -- `unpack_int` reads a nonnegative integer through its first attempt.
  pub Reads-unpack_int_pos :
      (n : ℕ) (rest : List ℕ) (b : Buf)
      → n < 2 ^ 63
      → unread b ≡ header 0 n ++ rest
      → Reads unpack_int b (pos n) (header 0 n) rest
  unfolding unpack_int int_of_uint
  Reads-unpack_int_pos n rest b hn h =
      let r =
        Reads-unpack_uint n rest (loan (unread b)) (omega arith) (unread-loan (unread b) ∙ h) in
      let fits : int_of_uint n ≡ ok (pos n) = ground arith in
      let s =
        Reads-finish (pos n) r.after (header 0 n) rest b
          (omega (arith, r.moved, ptr-loan (unread b))) h in
      record {
        after = s.after;
        run = ap (λ o. try_uint o b) r.run ∙ ap (λ o. finish (o, r.after) b) fits ∙ s.run;
        left = s.left;
        moved = s.moved;
      }

  -- A negative one through its second.
  pub Reads-unpack_int_negsuc :
      (n : ℕ) (rest : List ℕ) (b : Buf)
      → n < 2 ^ 63
      → unread b ≡ header 1 (n + 1) ++ rest
      → Reads unpack_int b (negsuc n) (header 1 (n + 1)) rest
  unfolding unpack_int int_of_nint
  Reads-unpack_int_negsuc n rest b hn h =
      let e = unread-loan (unread b) ∙ h in
      let other = unpack_uint_other (n + 1) rest (loan (unread b)) (omega arith) e in
      let r = Reads-unpack_nint (n + 1) rest (loan (unread b)) (omega arith) e in
      let fits : int_of_nint (n + 1) ≡ ok (negsuc n) = ground arith in
      let s =
        Reads-finish (negsuc n) r.after (header 1 (n + 1)) rest b
          (omega (arith, r.moved, ptr-loan (unread b))) h in
      record {
        after = s.after;
        run =
            ap (λ o. try_uint o b) other
            ∙ ap (λ o. try_nint o b) r.run
            ∙ ap (λ o. finish (o, r.after) b) fits
            ∙ s.run;
        left = s.left;
        moved = s.moved;
      }
