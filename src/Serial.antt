-- ===== src/Serial.antt =====
-- analyzer/serialize.h and analyzer/serialize.c: how the structures of the analyzer are written as
-- sequences of items and read back.
pub mod Parse
pub mod Keeps
pub mod Arrays
pub mod ArrayReads
pub mod Codec
pub mod Ensures
pub mod Overrun
mod Runs
use suscan.Prelude.{ℕ, Bool, true, false, if◌then◌else◌}
use suscan.Prelude.Outcome.{
  Result, ok, err, Errno, einval, eilseq, eoverflow, enomem, eperm, su_false, fault, other, Call,
}
use suscan.GrowBuf.{GrowBuf}

-- The call has left the memory that it may use.
unfoldable pub is_fault : Errno → Bool
is_fault fault = true
is_fault einval = false
is_fault eilseq = false
is_fault eoverflow = false
is_fault enomem = false
is_fault eperm = false
is_fault su_false = false
is_fault (other n) = false

module _ ⦃g : GrowBuf⦄ where
  open g use {Buf, ptr, seek_set}

  -- The end of `SUSCAN_UNPACK_BOILERPLATE_FINALLY`. After an access outside its memory the program is not
  -- followed further, so the position then is no claim.
  unfoldable pub give_up : {A : Type 0} → ℕ → Result A × Buf → Result A × Buf
  unfolding is_fault
  give_up start (ok a, buffer) = (ok a, buffer)
  give_up start (err e, buffer) = (err e, if is_fault e then buffer else (seek_set start buffer).1)

  -- `SUSCAN_UNPACK_BOILERPLATE_START` and `SUSCAN_UNPACK_BOILERPLATE_END` around a body: a failure goes
  -- back to the position at the start.
  unfoldable pub framed : {A : Type 0} → Call Buf A → Call Buf A
  unfolding give_up
  framed body buffer = give_up (ptr buffer) (body buffer)
