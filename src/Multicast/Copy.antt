-- ===== src/Multicast/Copy.antt =====
-- The loop of suscli_multicast_processor_encap_copy (analyzer/impl/processors/encap.c) on bytes that
-- stand inside the message: where they go, and how often a byte counts.
use suscan.Prelude.{
  ℕ, zero, suc, ◌++◌, append_assoc, append-nil, length-append, lt→==, ◌+◌, ◌-◌, ◌/◌, ◌%◌, ◌^◌, ◌≤◌,
  ◌<◌, ◌≡◌, refl, ap, ◌∙◌, sym, Bool, true, false, Option, some, none, List, [], ◌∷◌, ltb,
  if◌then◌else◌, length, arith, lt→ltb, le→ltb, lt→leb, le→leb, eq→==,
}
use mathlib.Core.Path.{subst}
use suscan.Multicast.Encap.{
  Encap, copy_byte, put_byte, copy, mask, is_masked, set_mask, set_data, entries,
}

-- Both allocations are there.
pub record IsReady (self : Encap) : Type 0 where
  pub bytes : ℕ → ℕ
  pub bitmap : ℕ → ℕ → Bool
  pub has_data : self.pdu_data ≡ some bytes
  pub has_bitmap : self.pdu_bitmap ≡ some bitmap

abbrev pub written : ℕ → ℕ → (ℕ → ℕ) → (ℕ → ℕ → Bool) → Encap → Encap
written p x bytes bitmap self = record self {
  pdu_data = some (set_data bytes p x);
  pdu_bitmap = some (set_mask bitmap (p / 64) (mask (p % 64)));
  pdu_remaining = (self.pdu_remaining + 2 ^ 32 - 1) % 2 ^ 32;
}

module _ (p x : ℕ) (self : Encap) (lt : p < self.pdu_size) (r : IsReady self) where
  open r use {bytes, bitmap, has_data, has_bitmap}

  pub copy_byte_masked :
      is_masked bitmap (p / 64) (mask (p % 64)) ≡ true → copy_byte p x self ≡ some self
  unfolding copy_byte
  copy_byte_masked m = rw (has_bitmap, lt→leb (entries self.pdu_size) (p / 64) (omega arith), m)

  pub copy_byte_free :
      is_masked bitmap (p / 64) (mask (p % 64)) ≡ false
      → copy_byte p x self ≡ some (written p x bytes bitmap self)
  unfolding copy_byte put_byte
  copy_byte_free m = rw (
    has_bitmap,
    lt→leb (entries self.pdu_size) (p / 64) (omega arith),
    m,
    has_data,
    lt→leb self.pdu_size p lt,
  )

-- The bytes at the positions from `p` on
abbrev pub span : ℕ → (ℕ → ℕ) → List ℕ
span zero f = []
span (suc n) f = span n f ++ (f n ∷ [])

span-set_data : (n p x : ℕ) (f : ℕ → ℕ) → n ≤ p → span n (set_data f p x) ≡ span n f
unfolding set_data
span-set_data zero p x f le = refl
span-set_data (suc n) p x f le = rw (span-set_data n p x f (omega arith), lt→== n p (omega arith))

set_data_same : (p x : ℕ) (f : ℕ → ℕ) → set_data f p x p ≡ x
unfolding set_data
set_data_same p x f = rw (eq→== p p refl)

-- The bytes that stand at the start of a message of which nothing further has come.
pub record Holds (self : Encap) (got : List ℕ) : Type 0 where
  pub ready : IsReady self
  pub contents : span (length got) ready.bytes ≡ got
  pub fresh : (q : ℕ) → length got ≤ q → ready.bitmap (q / 64) (q % 64) ≡ false
  pub left : self.pdu_remaining ≡ self.pdu_size - length got

is_masked_clear : (f : ℕ → ℕ → Bool) (b i : ℕ) → f b i ≡ false → is_masked f b (mask i) ≡ false
unfolding is_masked mask
is_masked_clear f b i h = go (ltb i 32)
  where
    go : (c : Bool) → is_masked f b (if c then some i else none) ≡ false
    go true = h
    go false = refl

set_mask_other :
    (f : ℕ → ℕ → Bool) (p q : ℕ)
    → p < q
    → f (q / 64) (q % 64) ≡ false
    → set_mask f (p / 64) (mask (p % 64)) (q / 64) (q % 64) ≡ false
unfolding set_mask mask
set_mask_other f p q lt h = go (ltb (p % 64) 32)
  where
    go :
        (c : Bool)
        → set_mask f (p / 64) (if c then some (p % 64) else none) (q / 64) (q % 64) ≡ false
    go true = ground arith
    go false = h

written-Holds :
    (x : ℕ) (self : Encap) (got : List ℕ) (h : Holds self got)
    → length got < self.pdu_size
    → self.pdu_size < 2 ^ 32
    → Holds (written (length got) x h.ready.bytes h.ready.bitmap self) (got ++ (x ∷ []))
written-Holds x self got h lt small = record {
  ready = record { bytes = _; bitmap = _; has_data = refl; has_bitmap = refl };
  contents = rw (
    one_more,
    span-set_data n n x h.ready.bytes (omega arith),
    h.contents,
    set_data_same n x h.ready.bytes,
  );
  fresh = λ q le.
      set_mask_other h.ready.bitmap n q (omega (arith, one_more))
        (h.fresh q (omega (arith, one_more)));
  left = omega (arith, one_more, h.left);
}
  where
    n : ℕ
    n = length got

    one_more : length (got ++ (x ∷ [])) ≡ suc (length got)
    one_more = omega (arith, length-append got (x ∷ []))

-- What a copy leaves
pub record Copied (self : Encap) (got : List ℕ) (o : Option Encap) : Type 0 where
  pub self' : Encap
  pub result : o ≡ some self'
  pub holds : Holds self' got
  pub same_size : self'.pdu_size ≡ self.pdu_size
  pub same_id : self'.sf_id ≡ self.sf_id

copy_byte-Copied :
    (x : ℕ) (self : Encap) (got : List ℕ)
    → Holds self got
    → length got < self.pdu_size
    → self.pdu_size < 2 ^ 32
    → Copied self (got ++ (x ∷ [])) (copy_byte (length got) x self)
copy_byte-Copied x self got h lt small = record {
  self' = written (length got) x h.ready.bytes h.ready.bitmap self;
  result =
      copy_byte_free (length got) x self lt h.ready
        (is_masked_clear h.ready.bitmap _ _ (h.fresh (length got) (omega arith)));
  holds = written-Holds x self got h lt small;
  same_size = refl;
  same_id = refl;
}

copy_step :
    (x : ℕ) (xs : List ℕ) (p : ℕ) (self self' : Encap)
    → copy_byte p x self ≡ some self'
    → copy (x ∷ xs) p self ≡ copy xs ((p + 1) % 2 ^ 32) self'
unfolding copy
copy_step x xs p self self' h = rw (copy, h)

pub copy-Copied :
    (xs : List ℕ) (self : Encap) (got : List ℕ)
    → Holds self got
    → length got + length xs ≤ self.pdu_size
    → self.pdu_size < 2 ^ 32
    → Copied self (got ++ xs) (copy xs (length got) self)
unfolding copy
copy-Copied [] self got h le small = record {
  self' = self;
  result = refl;
  holds = subst (Holds self) (sym (append-nil got)) h;
  same_size = refl;
  same_id = refl;
}
copy-Copied (x ∷ xs) self got h le small =
    let one = copy_byte-Copied x self got h (omega arith) small in
    let all =
      copy-Copied xs one.self' (got ++ (x ∷ [])) one.holds
        (omega (arith, one.same_size, length-append got (x ∷ []))) (omega (arith, one.same_size)) in
    record {
      self' = all.self';
      result =
          copy_step x xs (length got) self one.self' one.result
          ∙ ap (λ p. copy xs p one.self') (omega (arith, length-append got (x ∷ [])))
          ∙ all.result;
      holds = subst (Holds all.self') (append_assoc got (x ∷ []) xs) all.holds;
      same_size = all.same_size ∙ one.same_size;
      same_id = all.same_id ∙ one.same_id;
    }

module _ (p x y : ℕ) (self : Encap) (lt : p < self.pdu_size) (r : IsReady self) where
  open r use {bytes, bitmap}

  -- A second copy of a byte whose bit the mask holds
  pub copy_byte_twice_low :
      p % 64 < 32
      → is_masked bitmap (p / 64) (mask (p % 64)) ≡ false
      → copy_byte p y (written p x bytes bitmap self) ≡ some (written p x bytes bitmap self)
  unfolding mask set_mask is_masked
  copy_byte_twice_low low free =
      copy_byte_masked p y (written p x bytes bitmap self) lt
        (record { bytes = _; bitmap = _; has_data = refl; has_bitmap = refl })
        (rw (lt→ltb (p % 64) 32 low, eq→== (p / 64) (p / 64) refl, eq→== (p % 64) (p % 64) refl))

  -- and of one whose bit it does not hold
  pub mask_high : 32 ≤ p % 64 → is_masked bitmap (p / 64) (mask (p % 64)) ≡ false
  unfolding mask is_masked
  mask_high high = rw (le→ltb (p % 64) 32 high)

pub copy_byte_outside :
    (p x : ℕ) (self : Encap) → self.pdu_size + 64 ≤ p → copy_byte p x self ≡ none
unfolding copy_byte
copy_byte_outside p x self out = go self.pdu_bitmap
  where
    go : (b : Option (ℕ → ℕ → Bool)) → copy_byte p x (record self { pdu_bitmap = b }) ≡ none
    go none = refl
    go (some f) = rw (le→leb (entries self.pdu_size) (p / 64) (omega arith))
