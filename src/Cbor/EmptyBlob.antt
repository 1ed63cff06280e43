-- ===== src/Cbor/EmptyBlob.antt =====
-- `cbor_unpack_blob` on an empty blob, and the sizes of what the packers write.
use suscan.Prelude.{ℕ, ◌≡◌, ap, ◌∙◌, List, [], ◌++◌, arith, Bool, length, leb, if◌then◌else◌}
use suscan.Prelude.Outcome.{ok}
use suscan.GrowBuf.{GrowBuf}
use suscan.Cbor.Format.{cpu8_to_be, cpu16_to_be, cpu32_to_be, cpu64_to_be}
use suscan.Cbor.Unpack.{unpack_blob, finish_blob}
use suscan.Cbor.Wire.Header.{header}
use suscan.Cbor.Wire.Heads.{Reads-unpack_cbor_int}

module _ ⦃g : GrowBuf⦄ where
  open g use {Buf, unread, loan, unread-loan}

  -- On an empty blob `unpack_blob` reports success with no bytes and does not move the buffer: the
  -- next call reads the same head again.
  pub unpack_blob_empty :
      (gives : ℕ → Bool) (cached : ℕ) (rest : List ℕ) (b : Buf)
      → unread b ≡ header 2 0 ++ rest
      → unpack_blob gives cached b ≡ (ok [], b)
  unfolding unpack_blob
  unpack_blob_empty gives cached rest b h =
      let r =
        Reads-unpack_cbor_int 2 0 rest (loan (unread b)) (omega arith) (omega arith)
          (unread-loan (unread b) ∙ h) in
      ap (λ o. finish_blob gives cached o b) r.run ∙ unfold finish_blob in ground arith

-- The head of an item takes one byte for a number up to 23, and one more than the least of 1, 2,
-- 4 and 8 bytes that hold it otherwise.
pub length-header :
    (type v : ℕ)
    → length (header type v) ≡ (
        if leb v 23
        then 1
        else if leb v 0xff
        then 2
        else if leb v 0xffff
        then 3
        else if leb v 0xffff_ffff
        then 5
        else 9)
unfolding header cpu8_to_be cpu16_to_be cpu32_to_be cpu64_to_be
length-header type v = ground arith
