-- ===== src/Throttle/Pace.antt =====
-- The throttle (analyzer/throttle.c) lets through no more than its rate.
use suscan.Prelude.{
  ℕ, ◌+◌, ◌-◌, ◌*◌, ◌/◌, ◌%◌, ◌^◌, ◌<◌, ◌≤◌, ◌≡◌, ap, ◌∙◌, min, ltb, ◌==◌, ==→eq, arith, Bool-cases,
  inl, inr,
}
use native.Mathlib.Nat.{
  mul-add, add-mul, mul_assoc, mul_comm, mul_left_comm, mul-le-mul_left, mul-le-mul_right,
}
use suscan.Throttle.{
  Throttle, late_delay_ns, since, between, catch_up, refresh, get_portion, advance,
}

-- Since `start`, `granted` samples were read, and with those that may still be read they are at most those of the
-- checkpoints up to the last one and of the one that it begins.
abbrev pub IsPaced : ℕ → ℕ → Throttle → Type 0
IsPaced start granted s =
    (start ≤ s.t0)
    × (0 < s.delta_t)
    × ((granted + s.avail) * s.delta_t ≤ s.delta_s * (s.delta_t + (s.t0 - start)))

-- The time is not before the last checkpoint, and neither the clock nor the number of samples overflows.
abbrev pub InTime : ℕ → Throttle → Type 0
InTime t s =
    (s.t0 ≤ t) × (t + s.delta_t < 2 ^ 64) × (s.avail + (t - s.t0) / s.delta_t * s.delta_s < 2 ^ 64)

-- `k` more checkpoints bring the samples of `k` more checkpoints.
steps :
    (g a k ds dt x : ℕ)
    → (g + a) * dt ≤ ds * (dt + x)
    → (g + (a + k * ds)) * dt ≤ ds * (dt + (x + k * dt))
steps g a k ds dt x h =
    let l : (g + (a + k * ds)) * dt ≡ (g + a) * dt + k * ds * dt =
      ap (λ n. n * dt) (omega arith) ∙ add-mul (g + a) (k * ds) dt in
    let r : ds * (dt + (x + k * dt)) ≡ ds * (dt + x) + ds * (k * dt) =
      ap (λ n. ds * n) (omega arith) ∙ mul-add ds (dt + x) (k * dt) in
    let m : k * ds * dt ≡ ds * (k * dt) = mul_assoc k ds dt ∙ mul_left_comm k ds dt in
    omega (arith, l, r, m, h)

-- A reset at `y` nanoseconds or more after the last checkpoint
restart :
    (g a ds dt x y : ℕ)
    → dt ≤ y
    → (g + a) * dt ≤ ds * (dt + x)
    → (g + ds) * dt ≤ ds * (dt + (x + y))
restart g a ds dt x y late h =
    let less : g * dt ≤ (g + a) * dt = mul-le-mul_right dt (omega arith) in
    let more : ds * dt ≤ ds * y = mul-le-mul_left ds late in
    omega (
      arith,
      add-mul g ds dt,
      mul-add ds dt (x + y),
      mul-add ds x y,
      mul-add ds dt x,
      less,
      more,
      h,
    )

since_lem : (t t0 : ℕ) → t0 ≤ t → t < 2 ^ 64 → since t t0 ≡ t - t0
unfolding since
since_lem t t0 h l = omega arith

module _ (start granted : ℕ) where
  between-IsPaced :
      (s : Throttle)
      → s.t0 + s.delta_t < 2 ^ 64
      → IsPaced start granted s
      → IsPaced start granted (between s)
  unfolding between
  between-IsPaced s fits h = elim (Bool-cases (s.avail == 0)) [
    | inl e ↦
        let none_left : s.avail ≡ 0 = ==→eq s.avail 0 e in
        let next : (s.t0 + s.delta_t) % 2 ^ 64 ≡ s.t0 + s.delta_t = omega (arith, fits) in
        let more = steps granted s.avail 1 s.delta_s s.delta_t (s.t0 - start) h.2 in
        let left : s.avail + 1 * s.delta_s ≡ s.delta_s = omega (arith, none_left) in
        let right : s.t0 - start + 1 * s.delta_t ≡ s.t0 + s.delta_t - start = omega (arith, h.0) in
        rw (e, next) (omega (arith, h.0), h.1, rw (left, right) at more)
    | inr e ↦ rw e h
  ]

  catch_up-IsPaced :
      (t : ℕ) (s : Throttle)
      → InTime t s
      → IsPaced start granted s
      → IsPaced start granted (catch_up (t - s.t0) s)
  unfolding catch_up
  catch_up-IsPaced t s now h =
      let k : ℕ = (t - s.t0) / s.delta_t in
      let whole : k * s.delta_t ≤ t - s.t0 =
        omega (arith, mul_comm ((t - s.t0) / s.delta_t) s.delta_t) in
      let next : (s.t0 + k * s.delta_t) % 2 ^ 64 ≡ s.t0 + k * s.delta_t =
        omega (arith, whole, now.0, now.1) in
      let room : (s.avail + k * s.delta_s) % 2 ^ 64 ≡ s.avail + k * s.delta_s =
        omega (arith, now.2) in
      let more = steps granted s.avail k s.delta_s s.delta_t (s.t0 - start) h.2 in
      let right : s.t0 - start + k * s.delta_t ≡ s.t0 + k * s.delta_t - start =
        omega (arith, h.0) in
      rw (next, room) (omega (arith, h.0), h.1, rw right at more)

  reset-IsPaced :
      (t : ℕ) (s : Throttle)
      → s.t0 ≤ t
      → s.delta_t ≤ t - s.t0
      → IsPaced start granted s
      → IsPaced start granted (record s { t0 = t; avail = s.delta_s })
  reset-IsPaced t s now late h =
      let more = restart granted s.avail s.delta_s s.delta_t (s.t0 - start) (t - s.t0) late h.2 in
      let right : s.t0 - start + (t - s.t0) ≡ t - start = omega (arith, h.0, now) in
      (omega (arith, h.0, now), h.1, rw right at more)

  refresh-IsPaced :
      (t : ℕ) (s : Throttle)
      → InTime t s
      → IsPaced start granted s
      → IsPaced start granted (refresh t s)
  unfolding refresh
  refresh-IsPaced t s now h =
      let d : since t s.t0 ≡ t - s.t0 = since_lem t s.t0 now.0 (omega (arith, now.1)) in
      elim (Bool-cases (ltb (t - s.t0) s.delta_t)) [
        | inl e ↦ rw (d, e) (between-IsPaced s (omega (arith, now.0, now.1)) h)
        | inr e ↦ elim (Bool-cases (ltb (t - s.t0) late_delay_ns)) [
          | inl l ↦ rw (d, e, l) (catch_up-IsPaced t s now h)
          | inr l ↦ rw (d, e, l) (reset-IsPaced t s now.0 (ground arith) h)
        ]
      ]

  -- A portion that is asked for at a time that is not before the last checkpoint, with no overflow, and of which
  -- `got` samples are then read: it is no larger than what was asked for, and of a throttle that lets through no more than
  -- `delta_s` samples in each `delta_t` nanoseconds since `start`, one such block ahead, the same is true
  -- after the samples are counted.
  pub get_portion-IsPaced :
      (t h got : ℕ) (s : Throttle)
      → InTime t s
      → IsPaced start granted s
      → got ≤ (get_portion t s h).2
      → ((get_portion t s h).2 ≤ h)
        × IsPaced start (granted + got) (advance (get_portion t s h).0 got)
  unfolding get_portion advance
  get_portion-IsPaced t h got s now paced read =
      let p = refresh-IsPaced t s now paced in
      let within : got ≤ (refresh t s).avail = omega (arith, read) in
      let same : granted + got + ((refresh t s).avail - min (refresh t s).avail got)
          ≡ granted + (refresh t s).avail =
        omega (arith, within) in
      (omega arith, (p.0, p.1, rw same p.2))
