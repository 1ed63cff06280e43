-- ===== src/Cbor/Blobs.antt =====
-- Reading blobs, strings and the values of major type 7 back.
use suscan.Prelude.{
  ℕ, ◌+◌, ◌^◌, ◌<◌, ◌≡◌, refl, ap, ◌∙◌, List, [], ◌∷◌, ◌++◌, arith, Bool, true, false, ◌==◌, length,
  leb, ltb, if◌then◌else◌, not, ◌&&◌, take, append_assoc, lt→leb, le→ltb, eq→==, length-append,
  take-append,
}
use suscan.Prelude.Outcome.{ok, pure}
use suscan.GrowBuf.{GrowBuf}
use suscan.Cbor.Format.{mktype, size_max, cpu32_to_be, cpu64_to_be}
use suscan.Cbor.Unpack.{
  unpack_cbor_int, unpack_blob, finish, finish_blob, needs_alloc, unpack_cstr_len, read_exactly,
  exactly, unpack_single, unpack_double, unpack_bool, unpack_null, unpack_break, is_float_addl,
}
use suscan.Cbor.Wire.Reads.{
  Reads, Reads-on_loan, Reads-finish, Reads-bind, Reads-then, Reads-read, Reads-pure,
  Reads-seek_cur,
}
use suscan.Cbor.Wire.Header.{header}
use suscan.Cbor.Wire.Heads.{Reads-unpack_cbor_int, Reads-unpack_cbor_float}
use suscan.Cbor.Wire.Endian

and_not-true : (b : Bool) → (b && not true) ≡ false
and_not-true true = refl
and_not-true false = refl

module _ ⦃g : GrowBuf⦄ where
  open g use {Buf, unread, ptr, loan, seek_cur, unread-loan, ptr-loan}

  -- A blob that is not empty.
  pub Reads-unpack_blob :
      (gives : ℕ → Bool) (cached : ℕ) (bytes rest : List ℕ) (b : Buf)
      → 0 < length bytes
      → length bytes < size_max
      → gives (length bytes) ≡ true
      → unread b ≡ (header 2 (length bytes) ++ bytes) ++ rest
      → Reads (unpack_blob gives cached) b bytes (header 2 (length bytes) ++ bytes) rest
  unfolding unpack_blob
  Reads-unpack_blob gives cached bytes rest b pos hi mem h = record {
    after = s.after;
    run =
        ap (λ o. finish_blob gives cached o b) r.run
        ∙ unfold finish_blob in
          rw (small, there, some_bytes, mem, kept, and_not-true (needs_alloc cached (length bytes)))
            s.run;
    left = s.left;
    moved = s.moved;
  }
    where
      h' : unread b ≡ header 2 (length bytes) ++ (bytes ++ rest)
      h' = h ∙ append_assoc (header 2 (length bytes)) bytes rest

      r :
          Reads
            (unpack_cbor_int 2)
            (loan (unread b))
            (length bytes)
            (header 2 (length bytes))
            (bytes ++ rest)
      r =
          Reads-unpack_cbor_int 2 (length bytes) (bytes ++ rest) (loan (unread b)) (omega arith)
            (omega arith) (unread-loan (unread b) ∙ h')

      t : Reads (seek_cur (length bytes)) r.after tt bytes rest
      t = Reads-seek_cur (length bytes) bytes rest r.after refl r.left

      moved_by : ptr (seek_cur (length bytes) r.after).1 ≡ length (header 2 (length bytes) ++ bytes)
      moved_by = rw t.run (
          omega (
            arith,
            t.moved,
            r.moved,
            ptr-loan (unread b),
            length-append {0} (header 2 (length bytes)) bytes,
          ))

      s :
          Reads
            (finish (ok bytes, (seek_cur (length bytes) r.after).1))
            b
            bytes
            (header 2 (length bytes) ++ bytes)
            rest
      s =
          Reads-finish bytes (seek_cur (length bytes) r.after).1 (header 2 (length bytes) ++ bytes)
            rest b moved_by h

      small : leb size_max (length bytes) ≡ false
      small = lt→leb _ _ hi

      there : ltb (length (unread r.after)) (length bytes) ≡ false
      there = le→ltb _ _ (omega (arith, ap length r.left, length-append {0} bytes rest))

      some_bytes : (length bytes == 0) ≡ false
      some_bytes = ground arith

      kept : take (length bytes) (unread r.after) ≡ bytes
      kept = rw r.left (take-append bytes rest)

  -- A string.
  pub Reads-unpack_cstr_len :
      (gives : ℕ → Bool) (s rest : List ℕ) (b : Buf)
      → length s < size_max
      → gives (length s + 1) ≡ true
      → unread b ≡ (header 3 (length s) ++ s) ++ rest
      → Reads (unpack_cstr_len gives) b s (header 3 (length s) ++ s) rest
  unfolding unpack_cstr_len
  Reads-unpack_cstr_len gives s rest b hi mem h =
      Reads-on_loan (header 3 (length s) ++ s) rest h λ t e.
        Reads-bind _
          (Reads-unpack_cbor_int 3 (length s) (s ++ rest) t (omega arith) (omega arith)
            (e ∙ append_assoc (header 3 (length s)) s rest))
          λ t' e'.
            rw (lt→leb size_max (length s) hi, mem)
              (Reads-then _ (Reads-read s rest t' e')
                λ t'' e''. rw (eq→== (length s) (length s) refl) (Reads-pure s t'' e''))

  -- A word of four or eight bytes.
  pub Reads-read_exactly :
      (bytes rest : List ℕ) (b : Buf)
      → unread b ≡ bytes ++ rest
      → Reads (read_exactly (length bytes)) b bytes bytes rest
  unfolding read_exactly
  Reads-read_exactly bytes rest b h =
      let r = Reads-read bytes rest b h in
      record {
        after = r.after;
        run =
            ap (exactly (length bytes)) r.run
            ∙ unfold exactly in rw (eq→== (length bytes) (length bytes) refl);
        left = r.left;
        moved = r.moved;
      }

  -- `pure` of what equals the value.
  Reads-eq :
      {A : Type 0} {a c : A} {b : Buf} {rest : List ℕ}
      → a ≡ c
      → unread b ≡ rest
      → Reads (pure a) b c [] rest
  Reads-eq {b} e h = record { after = b; run = λ i. (ok (e i), b); left = h; moved = omega arith }

  pub Reads-unpack_single :
      (v : ℕ) (rest : List ℕ) (b : Buf)
      → v < 2 ^ 32
      → unread b ≡ mktype 7 26 ∷ cpu32_to_be v ++ rest
      → Reads unpack_single b v (mktype 7 26 ∷ cpu32_to_be v) rest
  unfolding unpack_single cpu32_to_be is_float_addl
  Reads-unpack_single v rest b hv h = Reads-on_loan (mktype 7 26 ∷ cpu32_to_be v) rest h λ t e.
      Reads-bind _ (Reads-unpack_cbor_float 26 (cpu32_to_be v ++ rest) t (omega arith) refl e)
        λ t' e'.
          Reads-then _ (Reads-read_exactly (cpu32_to_be v) rest t' e')
            λ t'' e''. Reads-eq (Endian.be32_to_cpu-cpu32_to_be v [] hv) e''

  pub Reads-unpack_double :
      (v : ℕ) (rest : List ℕ) (b : Buf)
      → v < 2 ^ 64
      → unread b ≡ mktype 7 27 ∷ cpu64_to_be v ++ rest
      → Reads unpack_double b v (mktype 7 27 ∷ cpu64_to_be v) rest
  unfolding unpack_double cpu64_to_be is_float_addl
  Reads-unpack_double v rest b hv h = Reads-on_loan (mktype 7 27 ∷ cpu64_to_be v) rest h λ t e.
      Reads-bind _ (Reads-unpack_cbor_float 27 (cpu64_to_be v ++ rest) t (omega arith) refl e)
        λ t' e'.
          Reads-then _ (Reads-read_exactly (cpu64_to_be v) rest t' e')
            λ t'' e''. Reads-eq (Endian.be64_to_cpu-cpu64_to_be v [] hv) e''

  pub Reads-unpack_bool :
      (x : Bool) (rest : List ℕ) (b : Buf)
      → unread b ≡ mktype 7 (if x then 21 else 20) ∷ rest
      → Reads unpack_bool b x (mktype 7 (if x then 21 else 20) ∷ []) rest
  unfolding unpack_bool is_float_addl
  Reads-unpack_bool true rest b h = Reads-on_loan _ rest h λ t e.
      Reads-then _ (Reads-unpack_cbor_float 21 rest t (omega arith) refl e)
        λ t' e'. Reads-pure true t' e'
  Reads-unpack_bool false rest b h = Reads-on_loan _ rest h λ t e.
      Reads-then _ (Reads-unpack_cbor_float 20 rest t (omega arith) refl e)
        λ t' e'. Reads-pure false t' e'

  pub Reads-unpack_null :
      (rest : List ℕ) (b : Buf)
      → unread b ≡ mktype 7 22 ∷ rest
      → Reads unpack_null b tt (mktype 7 22 ∷ []) rest
  unfolding unpack_null is_float_addl
  Reads-unpack_null rest b h = Reads-on_loan _ rest h λ t e.
      Reads-then _ (Reads-unpack_cbor_float 22 rest t (omega arith) refl e)
        λ t' e'. Reads-pure tt t' e'

  pub Reads-unpack_break :
      (rest : List ℕ) (b : Buf)
      → unread b ≡ mktype 7 31 ∷ rest
      → Reads unpack_break b tt (mktype 7 31 ∷ []) rest
  unfolding unpack_break is_float_addl
  Reads-unpack_break rest b h = Reads-on_loan _ rest h λ t e.
      Reads-then _ (Reads-unpack_cbor_float 31 rest t (omega arith) refl e)
        λ t' e'. Reads-pure tt t' e'
