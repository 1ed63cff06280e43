-- ===== src/Cbor/Pack.antt =====
-- The packers of util/cbor.c. Each appends to a buffer; one that fails may leave a part behind.
use suscan.Prelude.{
  ℕ, zero, suc, ◌%◌, ◌^◌, List, [], ◌∷◌, Bool, Option, none, some, leb, ◌==◌, if◌then◌else◌, length,
  take,
}
use suscan.Prelude.Int.{ℤ, pos, negsuc}
use suscan.Prelude.Outcome.{Call, pure, ◌>>◌}
use suscan.GrowBuf.{GrowBuf}
use suscan.Cbor.MajorType
use suscan.Cbor.Addl
use suscan.Cbor.Format.{unknown_nelem, mktype, cpu8_to_be, cpu16_to_be, cpu32_to_be, cpu64_to_be}

-- The length of a string up to its NUL; the list may hold what stands behind it.
unfoldable pub strlen : List ℕ → ℕ
strlen [] = 0
strlen (zero ∷ _) = 0
strlen (suc c ∷ s) = suc (strlen s)

module _ ⦃g : GrowBuf⦄ where
  open g use {Buf, append, append_hollow}

  unfoldable pub pack_cbor_type_byte : ℕ → ℕ → Call Buf (Unit {0})
  pack_cbor_type_byte type additional = append (mktype type additional ∷ [])

  unfoldable pub pack_cbor_type : ℕ → ℕ → Call Buf (Unit {0})
  pack_cbor_type type additional =
      if leb additional 23
      then pack_cbor_type_byte type additional
      else if leb additional 0xff
      then (pack_cbor_type_byte type Addl.uint8 >> append (cpu8_to_be additional))
      else if leb additional 0xffff
      then (pack_cbor_type_byte type Addl.uint16 >> append (cpu16_to_be additional))
      else if leb additional 0xffff_ffff
      then (pack_cbor_type_byte type Addl.uint32 >> append (cpu32_to_be additional))
      else (pack_cbor_type_byte type Addl.uint64 >> append (cpu64_to_be additional))

  -- A float is the word that holds its bits.
  unfoldable pub pack_single : ℕ → Call Buf (Unit {0})
  pack_single value = do pack_cbor_type_byte MajorType.float Addl.uint32; append (cpu32_to_be value)

  unfoldable pub pack_double : ℕ → Call Buf (Unit {0})
  pack_double value = do pack_cbor_type_byte MajorType.float Addl.uint64; append (cpu64_to_be value)

  unfoldable pub pack_uint : ℕ → Call Buf (Unit {0})
  pack_uint v = pack_cbor_type MajorType.uint v

  unfoldable pub pack_nint : ℕ → Call Buf (Unit {0})
  pack_nint v = pack_cbor_type MajorType.nint v

  -- `-v` of a negative `v`, as a `uint64_t`. For the least integer the source's negation
  -- overflows; two's complement gives 2 ^ 63, as here.
  unfoldable pub pack_int : ℤ → Call Buf (Unit {0})
  pack_int (pos n) = pack_uint n
  pack_int (negsuc n) = pack_nint (suc n % 2 ^ 64)

  unfoldable pub pack_blob : List ℕ → Call Buf (Unit {0})
  pack_blob bytes = do pack_cbor_type MajorType.byte (length bytes); append bytes

  -- `cbor_alloc_blob`, with the bytes that its caller then stores behind the pointer.
  unfoldable pub alloc_blob : List ℕ → Call Buf (Unit {0})
  alloc_blob bytes = do pack_cbor_type MajorType.byte (length bytes); append_hollow bytes

  -- `str` is the memory behind the pointer, of which the first `len` bytes are written.
  unfoldable pub pack_cstr_len : List ℕ → ℕ → Call Buf (Unit {0})
  pack_cstr_len str len = do
    pack_cbor_type MajorType.text len
    if len == 0 then pure tt else append (take len str)

  -- `none` is the null pointer.
  unfoldable pub pack_str : Option (List ℕ) → Call Buf (Unit {0})
  pack_str none = pack_cstr_len [] 0
  pack_str (some str) = pack_cstr_len str (strlen str)

  unfoldable pub pack_bool : Bool → Call Buf (Unit {0})
  pack_bool b = pack_cbor_type MajorType.float (if b then Addl.float_true else Addl.float_false)

  unfoldable pub pack_null : Call Buf (Unit {0})
  pack_null = pack_cbor_type MajorType.float Addl.float_null

  unfoldable pub pack_break : Call Buf (Unit {0})
  pack_break = append (mktype MajorType.float Addl.float_break ∷ [])

  unfoldable pub pack_array_start : ℕ → Call Buf (Unit {0})
  pack_array_start nelem =
      if nelem == unknown_nelem
      then append (mktype MajorType.array Addl.array_indef ∷ [])
      else pack_cbor_type MajorType.array nelem

  unfoldable pub pack_array_end : ℕ → Call Buf (Unit {0})
  pack_array_end nelem = if nelem == unknown_nelem then pack_break else pure tt

  unfoldable pub pack_map_start : ℕ → Call Buf (Unit {0})
  pack_map_start npairs =
      if npairs == unknown_nelem
      then append (mktype MajorType.map Addl.map_indef ∷ [])
      else pack_cbor_type MajorType.map npairs

  unfoldable pub pack_map_end : ℕ → Call Buf (Unit {0})
  pack_map_end npairs = if npairs == unknown_nelem then pack_break else pure tt
