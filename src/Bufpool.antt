-- ===== src/Bufpool.antt =====
-- analyzer/bufpool.c: pools of sample buffers, one for each power of two. A buffer is an address; the
-- header in front of the samples is kept with its address.
pub mod Sizes
mod Runs
use suscan.Prelude.{
  ℕ, zero, suc, ◌+◌, ◌*◌, ◌/◌, ◌%◌, ◌^◌, Bool, true, false, Option, some, none, ltb, leb, ◌==◌,
  if◌then◌else◌,
}

-- `struct suscan_buffer_header`, a union: one word, read as `next` or as two fields of 16 bits, on a machine that
-- is little-endian with pointers of 64 bits. The null pointer is 0.
abbrev pub Header : Type 0
Header = ℕ

abbrev pub pool_index : Header → ℕ
pool_index word = word % 2 ^ 16

abbrev pub length_of : Header → ℕ
length_of word = word / 2 ^ 16 % 2 ^ 16

-- The writes of both fields
abbrev pub mark : (i length : ℕ) → Header → Header
mark i length word = word / 2 ^ 32 * 2 ^ 32 + length % 2 ^ 16 * 2 ^ 16 + i % 2 ^ 16

-- `struct suscan_pool`, with whether its lock is held
pub record Pool : Type 0 where
  pub locked : Bool
  pub first : ℕ

-- The pools, the headers, and the number of samples behind each header.
pub record Pools : Type 0 where
  pub pools : ℕ → Pool
  pub headers : ℕ → Header
  pub samples : ℕ → ℕ

abbrev pub min_pool : ℕ
min_pool = 5

abbrev pub num_pools : ℕ
num_pools = 16

unfoldable pub set {ℓ} : {A : Type ℓ} → (ℕ → A) → ℕ → A → ℕ → A
set f i x j = if j == i then x else f j

-- `while ((length >>= 1) != 0) ++i`, from `i` on: `i` and the length that is left. One unit of fuel is
-- spent on each bit of the length.
unfoldable pub halve : ℕ → ℕ → ℕ → ℕ × ℕ
halve zero length i = (i, length)
halve (suc fuel) length i =
    let rest = halve fuel (length / 2) (suc i) in if length / 2 == 0 then (i, length / 2) else rest

unfoldable pub pool_of : ℕ → ℕ
pool_of i = if ltb i min_pool then min_pool else i

-- `suscan_buffer_alloc`: a buffer and the pools, or nothing where the call blocks on a lock that is
-- held. `fresh` is the address that `malloc` gives, the null pointer where it fails.
unfoldable pub take_buffer : (fresh i length : ℕ) → Pools → ℕ × Pools
take_buffer fresh i length w =
    let first : ℕ = (w.pools i).first in
    if first == 0
    then (if fresh == 0 then (0, w) else (
      fresh,
      record w {
        headers = set w.headers fresh (mark i length (w.headers fresh));
        samples = set w.samples fresh (2 ^ i);
      },
    ))
    else (
      first,
      record w {
        pools = set w.pools i (record (w.pools i) { first = w.headers first });
        headers = set w.headers first (mark i length (w.headers first));
      },
    )

unfoldable pub alloc_from : (fresh : ℕ) → ℕ × ℕ → Pools → Option (ℕ × Pools)
unfolding pool_of take_buffer
alloc_from fresh (i, length) w =
    if leb num_pools (pool_of i)
    then some (0, w)
    else if (w.pools (pool_of i)).locked
    then none
    else some (take_buffer fresh (pool_of i) length w)

unfoldable pub alloc : (fresh length : ℕ) → Pools → Option (ℕ × Pools)
unfolding halve alloc_from
alloc fresh length w = alloc_from fresh (halve 32 length 0) w

-- `suscan_buffer_return`: nothing where the call blocks. The second call of `pthread_mutex_lock`, in
-- the place of an unlock, meets the lock that the first one took.
unfoldable pub lock : ℕ → Pools → Option Pools
lock i w =
    if (w.pools i).locked
    then none
    else some (record w { pools = set w.pools i (record (w.pools i) { locked = true }) })

unfoldable pub link : ℕ → ℕ → Pools → Pools
link header i w = record w {
  headers = set w.headers header (w.pools i).first;
  pools = set w.pools i (record (w.pools i) { first = header });
}

-- `fault` is the abort on an index out of range.
pub data Returned : Type 0 where
  aborts blocks : Returned
  back : Pools → Returned

unfoldable pub relock : ℕ → ℕ → Option Pools → Returned
unfolding lock link
relock header i none = blocks
relock header i (some w) = elim (lock i (link header i w)) [ none ↦ blocks | some w' ↦ back w' ]

unfoldable pub give_back : ℕ → Pools → Returned
unfolding relock
give_back header w =
    let i : ℕ = pool_index (w.headers header) in
    if leb num_pools i then aborts else relock header i (lock i w)
