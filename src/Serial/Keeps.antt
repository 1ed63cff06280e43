-- ===== src/Serial/Keeps.antt =====
-- Unpackers and deserializers only move the position in a buffer, so that a failed deserializer can
-- go back: rules for `search`, one for each way to build one.
use suscan.Prelude.{
  ℕ, ◌≤◌, ◌≡◌, ◌≢◌, Bool-cases, inl, inr, refl, ◌∙◌, sym, [], Bool, true, false, length,
  if◌then◌else◌, ltb, leb, ◌==◌, not, ◌&&◌,
}
use suscan.Prelude.Outcome.{
  Result, ok, err, Errno, einval, eilseq, eoverflow, enomem, eperm, su_false, fault, other, Call,
  pure, fail, lift, ◌>>=◌, ◌>>◌, and_then,
}
use suscan.GrowBuf.{GrowBuf}
use suscan.Cbor.Format.{size_max}
use suscan.Cbor.Unpack.{
  on_loan, finish, finish_blob, needs_alloc, try_uint, try_nint, int_of_uint, int_of_nint,
  unpack_uint, unpack_nint, unpack_int, unpack_blob, unpack_str, unpack_cstr_len, unpack_bool,
  unpack_single, unpack_double, unpack_array_start, unpack_map_start, unpack_uint_w, unpack_int_w,
  unpack_cbor_int,
}
use suscan.Serial.{framed, give_up, is_fault}

module _ ⦃g : GrowBuf⦄ where
  open g use {
    Buf, contents, unread, ptr, loan, seek_cur, seek_set, unread-contents, ptr-le,
    contents-seek_cur, contents-seek_set, ptr-seek_set,
  }

  -- `m` changes no byte of the buffer.
  pub record Keeps {A : Type 0} (m : Call Buf A) : Type 0 where
    pub at : (b : Buf) → contents (m b).1 ≡ contents b

  pub Keeps-pure : {A : Type 0} (a : A) → Keeps (pure a)
  Keeps-pure a = record { at = λ b. refl }

  pub Keeps-fail : {A : Type 0} (e : Errno) → Keeps (fail {A = A} e)
  Keeps-fail e = record { at = λ b. refl }

  pub Keeps-lift : {A : Type 0} (r : Result A) → Keeps (lift r)
  Keeps-lift r = record { at = λ b. refl }

  pub Keeps-if :
      {A : Type 0} (c : Bool) (m k : Call Buf A) → Keeps m → Keeps k → Keeps (if c then m else k)
  Keeps-if true m k p q = p
  Keeps-if false m k p q = q

  pub Keeps-bind :
      {A B : Type 0} (m : Call Buf A) (k : A → Call Buf B)
      → Keeps m
      → ((a : A) → Keeps (k a))
      → Keeps (m >>= k)
  Keeps-bind m k p q = record { at = λ b. go b (m b) (p.at b) }
    where
      go :
          (b : Buf) (o : Result _ × Buf)
          → contents o.1 ≡ contents b
          → contents (and_then o k).1 ≡ contents b
      go b (ok a, c) same = (q a).at c ∙ same
      go b (err e, c) same = same

  pub Keeps-then :
      {A B : Type 0} (m : Call Buf A) (k : Call Buf B) → Keeps m → Keeps k → Keeps (m >> k)
  Keeps-then m k p q = Keeps-bind m (λ _. k) p λ _. q

  Keeps-seek_cur : (n : ℕ) → Keeps (seek_cur n)
  Keeps-seek_cur n = record { at = contents-seek_cur n }

  Keeps-finish : {A : Type 0} (o : Result A × Buf) → Keeps (finish o)
  unfolding finish
  Keeps-finish (ok a, tmp) =
      Keeps-bind (seek_cur (ptr tmp)) (λ _. pure a) (Keeps-seek_cur _) λ _. Keeps-pure a
  Keeps-finish (err e, tmp) = Keeps-fail e

  Keeps-on_loan : {A : Type 0} (m : Call Buf A) → Keeps (on_loan m)
  unfolding on_loan
  Keeps-on_loan m = record { at = λ b. (Keeps-finish (m (loan (unread b)))).at b }

  Keeps-try_nint : (o : Result ℕ × Buf) → Keeps (try_nint o)
  unfolding try_nint
  Keeps-try_nint (ok v, tmp) = Keeps-finish (int_of_nint v, tmp)
  Keeps-try_nint (err e, tmp) = Keeps-fail e

  Keeps-try_uint : (o : Result ℕ × Buf) → Keeps (try_uint o)
  unfolding try_uint
  Keeps-try_uint (ok v, tmp) = record { at = λ b. (Keeps-finish (int_of_uint v, tmp)).at b }
  Keeps-try_uint (err e, tmp) = record {
    at = λ b. (Keeps-try_nint (unpack_nint (loan (unread b)))).at b;
  }

  Keeps-finish_blob :
      (gives : ℕ → Bool) (cached : ℕ) (o : Result ℕ × Buf) → Keeps (finish_blob gives cached o)
  unfolding finish_blob
  Keeps-finish_blob gives cached (ok n, tmp) = Keeps-if (leb size_max n) _ _ (Keeps-fail _) (
      Keeps-if (ltb (length (unread tmp)) n) _ _ (Keeps-fail _) (
        Keeps-if (n == 0) _ _ (Keeps-pure [])
          (Keeps-if (needs_alloc cached n && not (gives n)) _ _ (Keeps-fail _) (Keeps-finish _))))
  Keeps-finish_blob gives cached (err e, tmp) = Keeps-fail e

  pub Keeps-unpack_uint_w : (w : ℕ) → Keeps (unpack_uint_w w)
  unfolding unpack_uint_w unpack_uint
  Keeps-unpack_uint_w w = Keeps-bind unpack_uint (λ v. pure _) (Keeps-on_loan _) λ v. Keeps-pure _

  Keeps-unpack_int : Keeps unpack_int
  unfolding unpack_int
  Keeps-unpack_int = record { at = λ b. (Keeps-try_uint (unpack_uint (loan (unread b)))).at b }

  pub Keeps-unpack_int_w : (w : ℕ) → Keeps (unpack_int_w w)
  unfolding unpack_int_w
  Keeps-unpack_int_w w = Keeps-bind unpack_int (λ v. pure _) Keeps-unpack_int λ v. Keeps-pure _

  pub Keeps-unpack_single : Keeps unpack_single
  unfolding unpack_single
  Keeps-unpack_single = Keeps-on_loan _

  pub Keeps-unpack_double : Keeps unpack_double
  unfolding unpack_double
  Keeps-unpack_double = Keeps-on_loan _

  pub Keeps-unpack_bool : Keeps unpack_bool
  unfolding unpack_bool
  Keeps-unpack_bool = Keeps-on_loan _

  pub Keeps-unpack_map_start : Keeps unpack_map_start
  unfolding unpack_map_start
  Keeps-unpack_map_start = Keeps-on_loan _

  pub Keeps-unpack_array_start : Keeps unpack_array_start
  unfolding unpack_array_start
  Keeps-unpack_array_start = Keeps-on_loan _

  pub Keeps-unpack_str : (gives : ℕ → Bool) → Keeps (unpack_str gives)
  unfolding unpack_str unpack_cstr_len
  Keeps-unpack_str gives = Keeps-bind (unpack_cstr_len gives) pure (Keeps-on_loan _) Keeps-pure

  pub Keeps-unpack_blob : (gives : ℕ → Bool) (cached : ℕ) → Keeps (unpack_blob gives cached)
  unfolding unpack_blob
  Keeps-unpack_blob gives cached = record {
    at = λ b. (Keeps-finish_blob gives cached (unpack_cbor_int 2 (loan (unread b)))).at b;
  }

  pub Keeps-framed : {A : Type 0} (m : Call Buf A) → Keeps m → Keeps (framed m)
  unfolding framed give_up
  Keeps-framed {A} m p = record { at = λ b. go b (m b) (p.at b) }
    where
      go :
          (b : Buf) (o : Result A × Buf)
          → contents o.1 ≡ contents b
          → contents (give_up (ptr b) o).1 ≡ contents b
      go b (ok a, c) same = same
      go b (err e, c) same = elim (Bool-cases (is_fault e)) [
        | inl x ↦ rw x same
        | inr x ↦ rw x (contents-seek_set (ptr b) c ∙ same)
      ]

  is_fault-other : (e : Errno) → e ≢ fault → is_fault e ≡ false
  unfolding is_fault
  is_fault-other einval h = refl
  is_fault-other eilseq h = refl
  is_fault-other eoverflow h = refl
  is_fault-other enomem h = refl
  is_fault-other eperm h = refl
  is_fault-other su_false h = refl
  is_fault-other fault h = absurd (h refl)
  is_fault-other (other n) h = refl

  -- A framed body that fails, but for an access outside its memory, leaves the position, and so what is unread, as they were.
  pub framed_unchanged :
      {A : Type 0} (m : Call Buf A) (b : Buf) (e : Errno)
      → Keeps m
      → e ≢ fault
      → (framed m b).0 ≡ err e
      → (ptr (framed m b).1 ≡ ptr b) × (unread (framed m b).1 ≡ unread b)
  unfolding framed give_up
  framed_unchanged {A} m b e p safe failed = go (m b) (p.at b) failed
    where
      go :
          (o : Result A × Buf)
          → contents o.1 ≡ contents b
          → (give_up (ptr b) o).0 ≡ err e
          → (ptr (give_up (ptr b) o).1 ≡ ptr b) × (unread (give_up (ptr b) o).1 ≡ unread b)
      go (ok a, c) same h = cc
      go (err x, c) same h =
          let known : is_fault x ≡ false = is_fault-other x λ f. safe (cc) in
          let there : ptr b ≤ length (contents c) = rw same (ptr-le b) in
          let at = ptr-seek_set (ptr b) c there in
          rw known (
            at,
            unread-contents (seek_set (ptr b) c).1
                ∙ rw (at, contents-seek_set (ptr b) c, same) (sym (unread-contents b)),
          )

  pub ruleset keeps_rules = (
    Keeps-pure, Keeps-fail, Keeps-lift, Keeps-if, Keeps-bind, Keeps-then, Keeps-unpack_uint_w,
    Keeps-unpack_int_w, Keeps-unpack_single, Keeps-unpack_double, Keeps-unpack_bool,
    Keeps-unpack_map_start, Keeps-unpack_array_start, Keeps-unpack_str, Keeps-unpack_blob,
    Keeps-framed,
  )
