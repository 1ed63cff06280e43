-- ===== src/Prelude/Outcome.antt =====
-- The outcome of a C call that returns 0 or a negative error number, and runs over a state.
use Prim.Native.Nat.{ℕ}

-- `other n` is an error number that a library hands through. Two more stand for no number: `su_false`
-- for a call that returns `SU_FALSE`, and `fault` for one that leaves the memory it may use.
pub data Errno : Type 0 where
  einval eilseq eoverflow enomem eperm su_false fault : Errno
  other : ℕ → Errno

pub data Result {ℓ} (A : Type ℓ) : Type ℓ where
  ok : A → Result A
  err : Errno → Result A

-- A call over a state `S`: the state is what the call leaves, also where it fails.
abbrev pub Call : Type 0 → Type 0 → Type 0
Call S A = S → Result A × S

module _ {S : Type 0} where
  abbrev pub pure : {A : Type 0} → A → Call S A
  pure a s = (ok a, s)

  abbrev pub fail : {A : Type 0} → Errno → Call S A
  fail e s = (err e, s)

  abbrev pub and_then : {A B : Type 0} → Result A × S → (A → Call S B) → Result B × S
  and_then (ok a, s) k = k a s
  and_then (err e, s) k = (err e, s)

  infixl 5 ◌>>=◌ ◌>>◌
  abbrev pub ◌>>=◌ : {A B : Type 0} → Call S A → (A → Call S B) → Call S B
  ◌>>=◌ m k s = and_then (m s) k

  abbrev pub ◌>>◌ : {A B : Type 0} → Call S A → Call S B → Call S B
  ◌>>◌ m k s = and_then (m s) (λ _. k)

  -- A branch on a computed flag, taken when the state is given.
  abbrev pub lift : {A : Type 0} → Result A → Call S A
  lift r s = (r, s)
