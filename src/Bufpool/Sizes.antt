-- ===== src/Bufpool/Sizes.antt =====
-- The size of the buffers of suscan_buffer_alloc, and what suscan_buffer_return does with the lock
-- (analyzer/bufpool.c).
use native.Mathlib.Nat.{eq-zero-or-pos, pow-le-pow_right}
use suscan.Prelude.{
  ℕ, zero, suc, ◌+◌, ◌*◌, ◌/◌, ◌^◌, ◌≤◌, ◌<◌, ◌≡◌, ◌≢◌, refl, ap, ◌∙◌, true, false, Option, some,
  none, arith, eq→==, lt→leb, le→ltb, ne→==, Bool-cases, ◌⊎◌, inl, inr,
}
use suscan.Bufpool.{
  pool_index, length_of, mark, Pool, Pools, min_pool, num_pools, set, halve, pool_of, alloc,
  alloc_from, lock, link, blocks, relock, give_back,
}

set_same {ℓ} : {A : Type ℓ} (f : ℕ → A) (i : ℕ) (x : A) → set f i x i ≡ x
unfolding set
set_same f i x = rw (eq→== i i refl)

relock_lem :
    (header i : ℕ) (w : Pools) → (w.pools i).locked ≡ true → lock i (link header i w) ≡ none
unfolding lock link set
relock_lem header i w held = rw (eq→== i i refl, held)

-- The call `suscan_buffer_return` never returns: it blocks, at its first lock where the lock is held and else
-- at its second one, which is the same lock. The exception is a header whose pool index is out of range, which ends
-- the program.
pub give_back_lem :
    (header : ℕ) (w : Pools)
    → pool_index (w.headers header) < num_pools
    → give_back header w ≡ blocks
unfolding give_back relock lock
give_back_lem header w lt =
    let i : ℕ = pool_index (w.headers header) in
    rw (lt→leb num_pools i lt) (go (Bool-cases (w.pools i).locked))
  where
    i : ℕ
    i = pool_index (w.headers header)

    locked : Pools
    locked = record w { pools = set w.pools i (record (w.pools i) { locked = true }) }

    relocks : relock header i (some locked) ≡ blocks
    relocks =
        rw (relock, relock_lem header i locked (ap (λ (q : Pool). q.locked) (set_same w.pools i _)))

    go :
        ((w.pools i).locked ≡ true) ⊎ ((w.pools i).locked ≡ false)
        → relock header i (lock i w) ≡ blocks
    go (inl held) = rw held
    go (inr free) = rw (free) relocks

pow_suc : (k : ℕ) → 2 ^ suc k ≡ 2 * 2 ^ k
pow_suc k = omega arith

record Halved (length i : ℕ) (o : ℕ × ℕ) : Type 0 where
  pub k : ℕ
  pub result : o ≡ (i + k, 0)
  pub low : 2 ^ k ≤ length
  pub high : length < 2 ^ suc k

halve_last : (fuel length i : ℕ) → length / 2 ≡ 0 → halve (suc fuel) length i ≡ (i, 0)
unfolding halve
halve_last fuel length i h = rw (h)

halve_more :
    (fuel length i : ℕ)
    → length / 2 ≢ 0
    → halve (suc fuel) length i ≡ halve fuel (length / 2) (suc i)
unfolding halve
halve_more fuel length i h = rw (ne→== (length / 2) 0 h)

halve-Halved :
    (fuel length i : ℕ) → 0 < length → length < 2 ^ fuel → Halved length i (halve fuel length i)
halve-Halved zero length i some_bits small = absurd (omega arith)
halve-Halved (suc fuel) length i some_bits small =
    go (eq-zero-or-pos (length / 2)) (halve-Halved fuel (length / 2) (suc i))
  where
    go :
        (length / 2 ≡ 0) ⊎ (0 < length / 2)
        → (0 < length / 2
            → length / 2 < 2 ^ fuel
            → Halved (length / 2) (suc i) (halve fuel (length / 2) (suc i)))
        → Halved length i (halve (suc fuel) length i)
    go (inl h) step = record {
      k = 0;
      result = halve_last fuel length i h ∙ ap (λ n. (n, 0)) (omega arith);
      low = omega arith;
      high = omega arith;
    }
    go (inr h) step =
        let r = step (omega arith) (omega (arith, pow_suc fuel)) in
        record {
          k = suc r.k;
          result =
              halve_more fuel length i (λ e. omega (arith, e, h))
              ∙ r.result
              ∙ ap (λ n. (n, 0)) (omega arith);
          low = omega (arith, r.low, pow_suc r.k);
          high = omega (arith, r.high, pow_suc (suc r.k));
        }

no_length : (i word : ℕ) → length_of (mark i 0 word) ≡ 0
no_length i word = omega arith

-- What a call that has to take new memory gives.
pub record Allocated (fresh length : ℕ) (o : Option (ℕ × Pools)) : Type 0 where
  pub i : ℕ
  pub pools : Pools
  pub result : o ≡ some (fresh, pools)
  pub has_samples : pools.samples fresh ≡ 2 ^ i
  pub at_most : 2 ^ i ≤ length
  pub more_than_half : length < 2 ^ suc i
  pub has_length : length_of (pools.headers fresh) ≡ 0

alloc_from_new :
    (fresh i : ℕ) (w : Pools)
    → min_pool ≤ i
    → i < num_pools
    → (w.pools i).first ≡ 0
    → (w.pools i).locked ≡ false
    → fresh ≢ 0
    → alloc_from fresh (i, 0) w
      ≡ some (
        fresh,
        record w {
          headers = set w.headers fresh (mark i 0 (w.headers fresh));
          samples = set w.samples fresh (2 ^ i);
        },
      )
unfolding alloc_from pool_of
alloc_from_new fresh i w low high empty free given =
    rw (le→ltb i min_pool low, lt→leb num_pools i high, empty, ne→== fresh 0 given, free)

le_or_lt : (a b : ℕ) → (a ≤ b) ⊎ (b < a)
le_or_lt zero b = inl (omega arith)
le_or_lt (suc a) zero = inr (omega arith)
le_or_lt (suc a) (suc b) = elim (le_or_lt a b) [
  | inl h ↦ inl (omega arith)
  | inr h ↦ inr (omega arith)
]

zero_plus : (k : ℕ) → 0 + k ≡ k
zero_plus k = omega arith

pow_low : (k : ℕ) → 32 < 2 ^ suc k → min_pool ≤ k
pow_low k h = elim (le_or_lt 5 k) [
  | inl le ↦ le
  | inr lt ↦
      absurd (omega (arith, h, pow-le-pow_right {n = 2} (omega arith) {i = suc k} {j = 5} lt))
]

pow_high : (k : ℕ) → 2 ^ k < 2 ^ 16 → k < num_pools
pow_high k h = elim (le_or_lt 16 k) [
  | inl le ↦ absurd (omega (arith, h, pow-le-pow_right {n = 2} (omega arith) {i = 16} {j = k} le))
  | inr lt ↦ lt
]

-- Where no pool has a buffer to give, no lock is held and `malloc` gives memory, a call of
-- `suscan_buffer_alloc` for 32 samples or more and less than 65536 gives a buffer of a power of two of samples that is
-- at most the number asked for and more than half of it, and records the length 0.
pub alloc-Allocated :
    (fresh length : ℕ) (w : Pools)
    → 32 ≤ length
    → length < 2 ^ 16
    → fresh ≢ 0
    → ((i : ℕ) → (w.pools i).first ≡ 0)
    → ((i : ℕ) → (w.pools i).locked ≡ false)
    → Allocated fresh length (alloc fresh length w)
unfolding alloc
alloc-Allocated fresh length w low high given empty free =
    let h = halve-Halved 32 length 0 (omega arith) (omega arith) in
    record {
      i = h.k;
      pools = _;
      result =
          ap (λ n. alloc_from fresh n w) h.result
          ∙ ap (λ k. alloc_from fresh (k, 0) w) (zero_plus h.k)
          ∙ alloc_from_new fresh h.k w (pow_low h.k (omega (arith, h.high)))
              (pow_high h.k (omega (arith, h.low))) (empty h.k) (free h.k) given;
      has_samples = set_same w.samples fresh (2 ^ h.k);
      at_most = h.low;
      more_than_half = h.high;
      has_length = ap length_of (set_same w.headers fresh _) ∙ no_length h.k (w.headers fresh);
    }
