-- ===== src/Cbor/Errors.antt =====
-- The error paths of util/cbor.c.
use suscan.Prelude.{
  ℕ, ◌≡◌, refl, ap, ◌∙◌, sym, Bool, true, false, length, ◌==◌, ltb, leb, not, ◌&&◌, if◌then◌else◌,
}
use suscan.Prelude.Outcome.{Result, ok, err, Errno, Call, pure, fail, and_then, ◌>>=◌}
use suscan.GrowBuf.{GrowBuf}
use suscan.Cbor.Format.{size_max}
use suscan.Cbor.Unpack.{
  on_loan, finish, finish_blob, needs_alloc, try_uint, try_nint, int_of_uint, int_of_nint,
  unpack_uint, unpack_nint, unpack_int, unpack_blob, unpack_str, unpack_cstr_len, unpack_bool,
  unpack_null, unpack_break, unpack_single, unpack_double, unpack_array_start, unpack_map_start,
  unpack_cbor_int,
}
use suscan.Cbor.Items.{
  Kind, uint_kind, nint_kind, single_kind, double_kind, array_kind, map_kind, int_kind, blob_kind,
  str_kind, bool_kind, null_kind, stop_kind, blob, unpack_item,
}

module _ ⦃g : GrowBuf⦄ where
  open g use {Buf, unread, ptr, loan, seek_cur, unread-loan, seek_cur_err}

  -- A call whose failures leave the buffer as it was.
  abbrev Restores : {A : Type 0} → Call Buf A → Type 0
  Restores m = (b : Buf) (e : Errno) → (m b).0 ≡ err e → (m b).1 ≡ b

  finish-Restores : {A : Type 0} (o : Result A × Buf) → Restores (finish o)
  unfolding finish
  finish-Restores (ok a, tmp) b e h = go (seek_cur (ptr tmp) b) refl h
    where
      go :
          (o : Result (Unit {0}) × Buf)
          → seek_cur (ptr tmp) b ≡ o
          → (and_then o (λ _. pure a)).0 ≡ err e
          → (and_then o (λ _. pure a)).1 ≡ b
      go (ok u, c) same h' = cc
      go (err x, c) same h' =
          ap (λ p. p.1) (sym same) ∙ seek_cur_err (ptr tmp) b (ap (λ p. p.0) same)
  finish-Restores (err x, tmp) b e h = refl

  on_loan-Restores : {A : Type 0} (m : Call Buf A) → Restores (on_loan m)
  unfolding on_loan
  on_loan-Restores m b = finish-Restores (m (loan (unread b))) b

  fail-Restores : {A : Type 0} (x : Errno) → Restores (fail {A = A} x)
  fail-Restores x b e h = refl

  try_nint-Restores : (o : Result ℕ × Buf) → Restores (try_nint o)
  unfolding try_nint
  try_nint-Restores (ok v, tmp) = finish-Restores (int_of_nint v, tmp)
  try_nint-Restores (err x, tmp) = fail-Restores x

  try_uint-Restores : (o : Result ℕ × Buf) → Restores (try_uint o)
  unfolding try_uint
  try_uint-Restores (ok v, tmp) b = finish-Restores (int_of_uint v, tmp) b
  try_uint-Restores (err x, tmp) b = try_nint-Restores (unpack_nint (loan (unread b))) b

  if-Restores :
      {A : Type 0} (c : Bool) (m k : Call Buf A)
      → Restores m
      → Restores k
      → Restores (if c then m else k)
  if-Restores true m k p q = p
  if-Restores false m k p q = q

  finish_blob-Restores :
      (gives : ℕ → Bool) (cached : ℕ) (o : Result ℕ × Buf) → Restores (finish_blob gives cached o)
  unfolding finish_blob
  finish_blob-Restores gives cached (ok n, tmp) =
      if-Restores (leb size_max n) _ _ (fail-Restores _) (
        if-Restores (ltb (length (unread tmp)) n) _ _ (fail-Restores _) (
          if-Restores (n == 0) _ _ (λ b e h. refl)
            (if-Restores (needs_alloc cached n && not (gives n)) _ _ (fail-Restores _)
              (finish-Restores _))))
  finish_blob-Restores gives cached (err x, tmp) = fail-Restores x

  map-Restores :
      {A B : Type 0} (f : A → B) (m : Call Buf A) → Restores m → Restores (m >>= λ x. pure (f x))
  map-Restores f m p b e h = go (m b) refl h
    where
      go :
          (o : Result _ × Buf)
          → m b ≡ o
          → (and_then o (λ x. pure (f x))).0 ≡ err e
          → (and_then o (λ x. pure (f x))).1 ≡ b
      go (ok a, c) same h' = cc
      go (err x, c) same h' = ap (λ o. o.1) (sym same) ∙ p b x (ap (λ o. o.0) same)

  -- An unpacker that fails, on whatever bytes stand in the buffer and for whatever reason, leaves
  -- the buffer as it was.
  pub unpack_item_unchanged :
      (gives : ℕ → Bool) (cached : ℕ) (k : Kind) (b : Buf) (e : Errno)
      → (unpack_item gives cached k b).0 ≡ err e
      → (unpack_item gives cached k b).1 ≡ b
  unfolding unpack_item unpack_uint unpack_nint unpack_single unpack_double unpack_array_start
      unpack_map_start unpack_int unpack_blob unpack_str unpack_cstr_len unpack_bool unpack_null
      unpack_break
  unpack_item_unchanged gives cached uint_kind = map-Restores _ _ (on_loan-Restores _)
  unpack_item_unchanged gives cached nint_kind = map-Restores _ _ (on_loan-Restores _)
  unpack_item_unchanged gives cached single_kind = map-Restores _ _ (on_loan-Restores _)
  unpack_item_unchanged gives cached double_kind = map-Restores _ _ (on_loan-Restores _)
  unpack_item_unchanged gives cached array_kind = map-Restores _ _ (on_loan-Restores _)
  unpack_item_unchanged gives cached map_kind = map-Restores _ _ (on_loan-Restores _)
  unpack_item_unchanged gives cached int_kind = map-Restores _ _ λ b. try_uint-Restores _ b
  unpack_item_unchanged gives cached blob_kind =
      map-Restores blob _
        λ b. finish_blob-Restores gives cached (unpack_cbor_int 2 (loan (unread b))) b
  unpack_item_unchanged gives cached str_kind =
      map-Restores _ _ (map-Restores _ _ (on_loan-Restores _))
  unpack_item_unchanged gives cached bool_kind = map-Restores _ _ (on_loan-Restores _)
  unpack_item_unchanged gives cached null_kind = map-Restores _ _ (on_loan-Restores _)
  unpack_item_unchanged gives cached stop_kind = map-Restores _ _ (on_loan-Restores _)
