-- ===== src/Serial/Ensures.antt =====
-- What a deserializer promises of whatever it accepts: rules, one for each way to build one.
use suscan.Prelude.{Bool, true, false, ◌≡◌, if◌then◌else◌}
use suscan.Prelude.Outcome.{
  Result, ok, err, Call, pure, fail, ◌>>=◌, ◌>>◌, and_then, su_false, Errno,
}
use suscan.GrowBuf.{GrowBuf}
use suscan.Serial.{framed, give_up}

abbrev pub IfOk : {A : Type 0} → (A → Type 0) → Result A → Type 0
IfOk P (ok v) = P v
IfOk P (err e) = Unit {0}

module _ ⦃g : GrowBuf⦄ where
  open g use {Buf, ptr}

  -- Where `m` succeeds, what it gives has the property.
  pub record Ensures {A : Type 0} (P : A → Type 0) (m : Call Buf A) : Type 0 where
    pub at : (b : Buf) → IfOk P (m b).0

  pub Ensures-pure : {A : Type 0} {P : A → Type 0} (v : A) → P v → Ensures P (pure v)
  Ensures-pure v h = record { at = λ b. h }

  pub Ensures-fail : {A : Type 0} {P : A → Type 0} (e : Errno) → Ensures P (fail e)
  Ensures-fail e = record { at = λ b. tt }

  pub Ensures-bind :
      {A B : Type 0} {P : B → Type 0} (m : Call Buf A) (k : A → Call Buf B)
      → ((a : A) → Ensures P (k a))
      → Ensures P (m >>= k)
  Ensures-bind {A} {P} m k q = record { at = λ b. go (m b) }
    where
      go : (o : Result A × Buf) → IfOk P (and_then o k).0
      go (ok a, t) = (q a).at t
      go (err e, t) = tt

  -- The same where the first part promises something too
  pub Ensures-after :
      {A B : Type 0} (Q : A → Type 0) {P : B → Type 0} (m : Call Buf A) (k : A → Call Buf B)
      → Ensures Q m
      → ((a : A) → Q a → Ensures P (k a))
      → Ensures P (m >>= k)
  Ensures-after {A} Q {P} m k p q = record { at = λ b. go (m b) (p.at b) }
    where
      go : (o : Result A × Buf) → IfOk Q o.0 → IfOk P (and_then o k).0
      go (ok a, t) h = (q a h).at t
      go (err e, t) h = tt

  -- A test whose failure fails the deserializer
  pub Ensures-check :
      {A : Type 0} {P : A → Type 0} (c : Bool) (k : Call Buf A)
      → (c ≡ true → Ensures P k)
      → Ensures P ((if c then pure tt else fail su_false) >> k)
  Ensures-check true k q = q λ i. true
  Ensures-check false k q = record { at = λ b. tt }

  pub Ensures-framed :
      {A : Type 0} {P : A → Type 0} (m : Call Buf A) → Ensures P m → Ensures P (framed m)
  unfolding framed give_up
  Ensures-framed {A} {P} m p = record { at = λ b. go b (m b) (p.at b) }
    where
      go : (b : Buf) (o : Result A × Buf) → IfOk P o.0 → IfOk P (give_up (ptr b) o).0
      go b (ok a, t) h = h
      go b (err e, t) h = tt
