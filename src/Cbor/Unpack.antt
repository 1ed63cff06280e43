-- ===== src/Cbor/Unpack.antt =====
-- The unpackers of util/cbor.c. Each reads through a loaned copy of what is unread, and moves the
-- buffer itself at its end. What an out-parameter receives is the result's value.
use suscan.Prelude.{
  ℕ, ◌+◌, ◌-◌, ◌/◌, ◌%◌, ◌^◌, List, [], ◌∷◌, Bool, true, false, Option, none, some, leb, ltb, ◌==◌,
  if◌then◌else◌, length, take, ◌&&◌, ◌||◌, not,
}
use suscan.Prelude.Int.{ℤ, pos, negsuc, signed64, word64}
use suscan.Prelude.Outcome.{
  Result, ok, err, einval, eilseq, eoverflow, enomem, eperm, Call, pure, fail, ◌>>=◌, ◌>>◌,
}
use suscan.GrowBuf.{GrowBuf}
use suscan.Cbor.MajorType
use suscan.Cbor.Addl
use suscan.Cbor.Format.{size_max, be8_to_cpu, be16_to_cpu, be32_to_cpu, be64_to_cpu}

-- `CBOR_MEM_REUSE_SIZE_LIMIT`
abbrev pub mem_reuse_size_limit : ℕ
mem_reuse_size_limit = 2 ^ 20

-- How many bytes follow a type byte with this additional information, if it is a known one.
unfoldable pub addl_size : ℕ → Option ℕ
addl_size extra =
    if extra == Addl.uint8
    then some 1
    else if extra == Addl.uint16
    then some 2
    else if extra == Addl.uint32
    then some 4
    else if extra == Addl.uint64
    then some 8
    else if ltb 23 extra
    then none
    else some 0

-- The number that the bytes at `ptr` hold.
unfoldable pub addl_value : ℕ → ℕ → List ℕ → ℕ
addl_value extra size ptr =
    if size == 0
    then extra
    else if size == 1
    then be8_to_cpu ptr
    else if size == 2
    then be16_to_cpu ptr
    else if size == 4
    then be32_to_cpu ptr
    else be64_to_cpu ptr

-- The values of the additional information that `unpack_cbor_float` accepts.
unfoldable pub is_float_addl : ℕ → Bool
is_float_addl extra =
    extra == Addl.float_false
    || extra == Addl.float_true
    || extra == Addl.float_null
    || extra == Addl.float_break
    || extra == Addl.float_float32
    || extra == Addl.float_float64

-- `*v = tmpv`
unfoldable pub int_of_uint : ℕ → Result ℤ
int_of_uint tmpv = if ltb (2 ^ 63 - 1) tmpv then err eoverflow else ok (pos tmpv)

-- `*v = ((~tmpv) + 1)`, a word of 64 bits read as a signed one
unfoldable pub int_of_nint : ℕ → Result ℤ
int_of_nint tmpv =
    if ltb (2 ^ 63) tmpv then err eoverflow else ok (signed64 ((2 ^ 64 - 1 - tmpv + 1) % 2 ^ 64))

-- A signed number of `w` bits, from a wider one: the last `w` bits of its two's complement.
unfoldable pub cut_int : ℕ → ℤ → ℤ
cut_int w v =
    let word : ℕ = word64 v % 2 ^ w in
    if ltb word (2 ^ (w - 1)) then pos word else negsuc (2 ^ w - 1 - word)

-- Whether the memory behind `*data` is allocated anew.
unfoldable pub needs_alloc : ℕ → ℕ → Bool
needs_alloc size parsed_len =
    if size == 0
    then true
    else ltb size parsed_len || not (size == parsed_len) && ltb mem_reuse_size_limit size

-- Major type and additional information of a type byte.
unfoldable pub split_type : List ℕ → Result (ℕ × ℕ)
split_type [] = err einval
split_type (byte ∷ _) = ok (byte / 2 ^ 5, byte % 2 ^ 5)

module _ ⦃g : GrowBuf⦄ where
  open g use {Buf, unread, ptr, loan, read, seek_cur}

  -- `sync_buffers`: moves `orig` by what `tmp` was moved.
  unfoldable pub sync_buffers : Buf → Call Buf (Unit {0})
  sync_buffers tmp = seek_cur (ptr tmp)

  -- How an unpacker ends: a failure on `tmp` leaves the buffer alone, a success moves it.
  unfoldable pub finish : {A : Type 0} → Result A × Buf → Call Buf A
  unfolding sync_buffers
  finish (ok a, tmp) = do sync_buffers tmp; pure a
  finish (err e, tmp) = fail e

  -- `grow_buf_init_loan (&tmp, …)`, the body on `tmp`, and the end.
  unfoldable pub on_loan : {A : Type 0} → Call Buf A → Call Buf A
  unfolding finish
  on_loan body buffer = finish (body (loan (unread buffer))) buffer

  unfoldable pub read_cbor_type : Call Buf (ℕ × ℕ)
  unfolding split_type
  read_cbor_type = do bytes ← read 1; λ s. (split_type bytes, s)

  -- `cbor_peek_type` reads a loaned copy.
  unfoldable pub peek_type : Call Buf (ℕ × ℕ)
  peek_type buffer = ((read_cbor_type (loan (unread buffer))).0, buffer)

  unfoldable pub get_addl_word : ℕ → ℕ → Call Buf ℕ
  get_addl_word extra size buffer =
      if ltb (length (unread buffer)) size
      then (err einval, buffer)
      else (do seek_cur size; pure (addl_value extra size (unread buffer))) buffer

  unfoldable pub get_addl_bytes : ℕ → Call Buf ℕ
  unfolding get_addl_word
  get_addl_bytes extra = elim (addl_size extra) [
    | none ↦ fail einval
    | some size ↦ get_addl_word extra size
  ]

  unfoldable pub unpack_cbor_int : ℕ → Call Buf ℕ
  unpack_cbor_int expected_type = do
    (type, extra) ← read_cbor_type
    if expected_type == type then get_addl_bytes extra else fail eilseq

  unfoldable pub unpack_cbor_float : Call Buf ℕ
  unpack_cbor_float = do
    (type, extra) ← read_cbor_type
    if type == MajorType.float && is_float_addl extra then pure extra else fail eilseq

  -- The length, and whether a break ends the items.
  unfoldable pub unpack_cbor_arraymap_start : ℕ → ℕ → Call Buf (ℕ × Bool)
  unpack_cbor_arraymap_start exp_type indef = do
    (type, extra) ← read_cbor_type
    (if not (type == exp_type)
        then fail eilseq
        else if extra == indef
        then pure (0, true)
        else (do len ← get_addl_bytes extra; pure (len, false)))

  unfoldable pub unpack_uint : Call Buf ℕ
  unpack_uint = on_loan (unpack_cbor_int MajorType.uint)

  unfoldable pub unpack_nint : Call Buf ℕ
  unpack_nint = on_loan (unpack_cbor_int MajorType.nint)

  unfoldable pub try_nint : Result ℕ × Buf → Call Buf ℤ
  try_nint (ok tmpv, tmp) = finish (int_of_nint tmpv, tmp)
  try_nint (err e, tmp) = fail e

  unfoldable pub try_uint : Result ℕ × Buf → Call Buf ℤ
  unfolding try_nint
  try_uint (ok tmpv, tmp) buffer = finish (int_of_uint tmpv, tmp) buffer
  try_uint (err e, tmp) buffer = try_nint (unpack_nint (loan (unread buffer))) buffer

  -- First an unsigned integer is tried, then a negative one.
  unfoldable pub unpack_int : Call Buf ℤ
  unfolding try_uint
  unpack_int buffer = try_uint (unpack_uint (loan (unread buffer))) buffer

  -- What `cbor_unpack_blob` does with the length that it has read.
  unfoldable pub finish_blob : (ℕ → Bool) → ℕ → Result ℕ × Buf → Call Buf (List ℕ)
  finish_blob gives cached (err e, tmp) = fail e
  finish_blob gives cached (ok parsed_len, tmp) =
      if leb size_max parsed_len
      then fail eoverflow
      else if ltb (length (unread tmp)) parsed_len
      then fail eilseq
      else if parsed_len == 0
      then pure []
      else if needs_alloc cached parsed_len && not (gives parsed_len)
      then fail eperm
      else finish (ok (take parsed_len (unread tmp)), (seek_cur parsed_len tmp).1)

  -- `cached` is `*size` at the call, and `gives` says of each size whether an allocation of it
  -- succeeds. The result is the memory behind `*data`, whose length is `*size`.
  unfoldable pub unpack_blob : (ℕ → Bool) → ℕ → Call Buf (List ℕ)
  unfolding finish_blob
  unpack_blob gives cached buffer =
      finish_blob gives cached (unpack_cbor_int MajorType.byte (loan (unread buffer))) buffer

  -- The characters; the source puts a NUL behind them.
  unfoldable pub unpack_cstr_len : (ℕ → Bool) → Call Buf (List ℕ)
  unpack_cstr_len gives = on_loan do
    parsed_len ← unpack_cbor_int MajorType.text
    (if leb size_max parsed_len
        then fail eoverflow
        else if not (gives (parsed_len + 1))
        then fail enomem
        else (do out ← read parsed_len; if length out == parsed_len then pure out else fail eilseq))

  unfoldable pub unpack_str : (ℕ → Bool) → Call Buf (List ℕ)
  unpack_str gives = do s ← unpack_cstr_len gives; pure s

  -- `grow_buf_read` of a word, which fails with `EILSEQ` on any other count.
  unfoldable pub exactly : ℕ → Result (List ℕ) × Buf → Result (List ℕ) × Buf
  exactly n (ok bytes, s) = (if length bytes == n then ok bytes else err eilseq, s)
  exactly n (err e, s) = (err eilseq, s)

  unfoldable pub read_exactly : ℕ → Call Buf (List ℕ)
  unfolding exactly
  read_exactly n s = exactly n (read n s)

  -- A float is the word that holds its bits.
  unfoldable pub unpack_single : Call Buf ℕ
  unpack_single = on_loan do
    extra ← unpack_cbor_float
    (if extra == Addl.float_float32
        then (do as_int ← read_exactly 4; pure (be32_to_cpu as_int))
        else fail eilseq)

  unfoldable pub unpack_double : Call Buf ℕ
  unpack_double = on_loan do
    extra ← unpack_cbor_float
    (if extra == Addl.float_float64
        then (do as_int ← read_exactly 8; pure (be64_to_cpu as_int))
        else fail eilseq)

  unfoldable pub unpack_bool : Call Buf Bool
  unpack_bool = on_loan do
    extra ← unpack_cbor_float
    (if extra == Addl.float_false
        then pure false
        else if extra == Addl.float_true
        then pure true
        else fail eilseq)

  unfoldable pub unpack_null : Call Buf (Unit {0})
  unpack_null =
      on_loan
        do extra ← unpack_cbor_float; if extra == Addl.float_null then pure tt else fail eilseq

  unfoldable pub unpack_break : Call Buf (Unit {0})
  unpack_break =
      on_loan
        do extra ← unpack_cbor_float; if extra == Addl.float_break then pure tt else fail eilseq

  unfoldable pub unpack_map_start : Call Buf (ℕ × Bool)
  unpack_map_start = on_loan (unpack_cbor_arraymap_start MajorType.map Addl.map_indef)

  unfoldable pub unpack_map_end : Bool → Call Buf (Unit {0})
  unpack_map_end end_required = if not end_required then pure tt else unpack_break

  unfoldable pub unpack_array_start : Call Buf (ℕ × Bool)
  unpack_array_start = on_loan (unpack_cbor_arraymap_start MajorType.array Addl.array_indef)

  unfoldable pub unpack_array_end : Bool → Call Buf (Unit {0})
  unpack_array_end end_required = if not end_required then pure tt else unpack_break

  -- `cbor_unpack_uint8` and its like, of `w` bits: the value is cut to the width.
  unfoldable pub unpack_uint_w : ℕ → Call Buf ℕ
  unpack_uint_w w = do gen_int ← unpack_uint; pure (gen_int % 2 ^ w)

  -- `cbor_unpack_int8` and its like, of `w` bits: the value is cut to the width, as a signed number.
  unfoldable pub unpack_int_w : ℕ → Call Buf ℤ
  unpack_int_w w = do gen_int ← unpack_int; pure (cut_int w gen_int)
