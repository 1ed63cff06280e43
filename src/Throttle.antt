-- ===== src/Throttle.antt =====
-- analyzer/throttle.c: how many samples may be read by now. The numbers are 64-bit; the time is a parameter of each
-- call, and the sleep of a call is its result.
pub mod Pace
mod Runs
use suscan.Prelude.{
  ℕ, ◌+◌, ◌-◌, ◌*◌, ◌/◌, ◌%◌, ◌^◌, min, if◌then◌else◌, ltb, ◌==◌, Option, none, some,
}

-- `struct suscan_throttle`
pub record Throttle : Type 0 where
  pub t0 : ℕ
  pub avail : ℕ
  pub delta_s : ℕ
  pub delta_t : ℕ

abbrev pub late_delay_ns : ℕ
late_delay_ns = 5000000000

-- The subtraction of 64-bit numbers
unfoldable pub since : ℕ → ℕ → ℕ
since t t0 = (t + 2 ^ 64 - t0) % 2 ^ 64

-- Between two checkpoints: where nothing is left, the next one is taken.
unfoldable pub between : Throttle → Throttle
between self =
    if self.avail == 0
    then record self { t0 = (self.t0 + self.delta_t) % 2 ^ 64; avail = self.delta_s }
    else self

-- Several checkpoints behind
unfoldable pub catch_up : ℕ → Throttle → Throttle
catch_up delta_t self =
    let skipped = delta_t / self.delta_t in
    record self {
      t0 = (self.t0 + skipped * self.delta_t) % 2 ^ 64;
      avail = (self.avail + skipped * self.delta_s) % 2 ^ 64;
    }

-- What `suscan_throttle_get_portion` does to the throttle at the time `t`
unfoldable pub refresh : ℕ → Throttle → Throttle
unfolding since between catch_up
refresh t self =
    if ltb (since t self.t0) self.delta_t
    then between self
    else if ltb (since t self.t0) late_delay_ns
    then catch_up (since t self.t0) self
    else record self { t0 = t; avail = self.delta_s }

-- The nanoseconds that it sleeps, where it does
unfoldable pub sleep_nsec : ℕ → Throttle → Option ℕ
unfolding since
sleep_nsec t self =
    if ltb (since t self.t0) self.delta_t
    then (if self.avail == 0 then some (self.delta_t - since t self.t0) else none)
    else none

-- `suscan_throttle_get_portion`: the throttle, the sleep, and the number of samples
unfoldable pub get_portion : ℕ → Throttle → ℕ → Throttle × Option ℕ × ℕ
unfolding refresh sleep_nsec
get_portion t self h = (refresh t self, sleep_nsec t self, min h (refresh t self).avail)

-- `suscan_throttle_advance`
unfoldable pub advance : Throttle → ℕ → Throttle
advance throttle got = record throttle { avail = throttle.avail - min throttle.avail got }
