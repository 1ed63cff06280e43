-- ===== src/Serial/Overrun.antt =====
-- An array length from the wire that overflows (analyzer/serialize.c).
use suscan.Prelude.{
  ℕ, ◌<◌, ◌≤◌, ◌*◌, ◌%◌, ◌^◌, ◌≡◌, ◌∙◌, ap, true, Bool, List, [], ◌∷◌, ◌++◌, length, lt→ltb, eq→==,
  append_assoc, append-nil, arith,
}
use suscan.Prelude.Outcome.{Call, err, fault, and_then, ◌>>=◌}
use suscan.GrowBuf.{GrowBuf}
use suscan.Cbor.Items.{uint, blob, encode, encode_all}
use suscan.Cbor.Wire.Reads.{Reads}
use suscan.Serial.Parse.{uint64-Field, blob-Field}
use suscan.Serial.Arrays.{unpack_words, unpack_compact_single_array}
use suscan.Serial.ArrayReads.{array_short}

module _ ⦃g : GrowBuf⦄ where
  open g use {Buf, unread}

  -- A call goes on with what its first part reads.
  pub bind-run :
      {A B : Type 0} {m : Call Buf A} (k : A → Call Buf B) {b : Buf} {a : A} {used rest : List ℕ}
      (r : Reads m b a used rest)
      → (m >>= k) b ≡ k a r.after
  bind-run k r = ap (λ o. and_then o k) r.run

  module _ (gives : ℕ → Bool) (mem : (n : ℕ) → gives n ≡ true) (osize n : ℕ) (bytes : List ℕ) where
    words_overrun :
        (rest : List ℕ) (b : Buf)
        → n < 2 ^ 64
        → 2 ^ 64 ≤ n * 4
        → length bytes ≡ n * 4 % 2 ^ 64
        → 0 < length bytes
        → unread b ≡ encode (blob bytes) ++ rest
        → (unpack_words gives osize n b).0 ≡ err fault
    unfolding unpack_words
    words_overrun rest b fits wraps size some_bytes h =
        let r =
          (blob-Field gives mem (osize * 4 % 2 ^ 64) bytes some_bytes (omega (arith, size))).at rest
            b h in
        ap (λ o. o.0) (bind-run _ r)
        ∙ rw (eq→== (length bytes) (n * 4 % 2 ^ 64) size)
            (array_short bytes n (omega (arith, size)))

    -- An array length `n` below 2 ^ 64 whose size of 4 bytes each is 2 ^ 64 or more, with a blob behind it as long as
    -- that size modulo 2 ^ 64 and not empty, passes the test of the sizes, and the conversion of the words
    -- leaves the memory of the blob, where memory is at hand.
    pub unpack_array_overrun :
        (rest : List ℕ) (b : Buf)
        → n < 2 ^ 64
        → 2 ^ 64 ≤ n * 4
        → length bytes ≡ n * 4 % 2 ^ 64
        → 0 < length bytes
        → unread b ≡ encode_all (uint n ∷ blob bytes ∷ []) ++ rest
        → (unpack_compact_single_array gives osize b).0 ≡ err fault
    unfolding unpack_compact_single_array encode_all
    unpack_array_overrun rest b fits wraps size some_bytes h =
        let e : unread b ≡ encode (uint n) ++ (encode (blob bytes) ++ rest) =
          h
          ∙ rw (append-nil (encode (blob bytes)))
              (append_assoc (encode (uint n)) (encode (blob bytes)) rest) in
        let r = (uint64-Field n fits).at (encode (blob bytes) ++ rest) b e in
        ap (λ o. o.0) (bind-run _ r)
        ∙ rw (lt→ltb 0 n (omega arith))
            (words_overrun rest r.after fits wraps size some_bytes r.left)
