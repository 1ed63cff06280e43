-- ===== src/Multicast/Repeats.antt =====
-- How often a byte of a message counts that suscli_multicast_processor_encap_copy
-- (analyzer/impl/processors/encap.c) meets more than once.

use suscan.Prelude.{
  ℕ, Bool, lt→ltb, ◌∙◌, if◌then◌else◌, ◌+◌, ◌-◌, ◌/◌, ◌%◌, ◌^◌, ◌≤◌, ◌<◌, ◌≡◌, refl, some,
  Bool-cases, inl, inr,
}
use suscan.Multicast.Encap.{Encap, copy_byte, mask, is_masked}
use suscan.Multicast.Copy.{
  IsReady, written, copy_byte_free, copy_byte_masked, copy_byte_twice_low, mask_high,
}

is_masked_low : (f : ℕ → ℕ → Bool) (b i : ℕ) → i < 32 → is_masked f b (mask i) ≡ f b i
unfolding is_masked mask
is_masked_low f b i h = rw (lt→ltb i 32 h) refl

module _ (p x : ℕ) (self : Encap) (lt : p < self.pdu_size) (r : IsReady self) where
  open r use {bytes, bitmap}

  -- A byte inside the message at a position whose last six bits are 32 or more counts each time it
  -- arrives: whatever the bitmap says, one less byte is awaited.
  pub copy_byte_counts :
      32 ≤ p % 64
      → (self' : Encap) × copy_byte p x self ≡ some self'
        × self'.pdu_remaining ≡ (self.pdu_remaining + 2 ^ 32 - 1) % 2 ^ 32
  copy_byte_counts high = (
    written p x bytes bitmap self,
    copy_byte_free p x self lt r (mask_high p x x self lt r high),
    refl,
  )

  -- At any other position inside the message a byte counts once: a first copy awaits one less byte where the bit
  -- of the position is clear, and the same number where it is set; after it, a copy of any byte to the position
  -- changes nothing.
  pub copy_byte_counts_once :
      (y : ℕ)
      → p % 64 < 32
      → (self' : Encap) × copy_byte p x self ≡ some self'
        × self'.pdu_remaining ≡ (
            if bitmap (p / 64) (p % 64)
            then self.pdu_remaining
            else (self.pdu_remaining + 2 ^ 32 - 1) % 2 ^ 32)
        × copy_byte p y self' ≡ some self'
  copy_byte_counts_once y low = elim (Bool-cases (bitmap (p / 64) (p % 64))) [
    | inl m ↦
        let marked = is_masked_low bitmap (p / 64) (p % 64) low ∙ m in
        (
          self,
          copy_byte_masked p x self lt r marked,
          rw m refl,
          copy_byte_masked p y self lt r marked,
        )
    | inr m ↦
        let clear = is_masked_low bitmap (p / 64) (p % 64) low ∙ m in
        (
          written p x bytes bitmap self,
          copy_byte_free p x self lt r clear,
          rw m refl,
          copy_byte_twice_low p x y self lt r low clear,
        )
  ]
