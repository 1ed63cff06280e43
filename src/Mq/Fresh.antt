-- ===== src/Mq/Fresh.antt =====
-- Making a message: from the pool, or from `malloc`.
use suscan.Prelude.{
  ℕ, suc, ◌-◌, ◌≡◌, ◌≢◌, refl, ◌∙◌, true, false, ◌⊎◌, some, none, List, [], ◌∷◌, arith, ◌==◌,
  length,
}
use suscan.Mq.Store.{Ptr, null, Msg, Heap, World, Run, done, put}
use suscan.Mq.Seg.{Cell, cell, Apart, ◌∉◌, Seg, nil, cons, frame-put, not-mem_of_none}
use suscan.Mq.Pool.{Malloc, alloc_msg, take_pooled, take_fresh, msg_new}
use suscan.Mq.Queue.{Mq}
use suscan.Mq.Chain.{IsQueue, not_null, load_done}
use suscan.Mq.Free.{IsPool}

-- A queue of the messages `xs` beside the pool, which share no message.
pub record IsState (w : World) (q : Mq) (xs : List Cell) : Type 0 where
  pub queue : IsQueue w.heap q xs
  pub spare : List Cell
  pub pool : IsPool w spare
  pub apart : Apart spare xs

-- `malloc` hands out the null pointer, or memory that is not in use.
abbrev pub IsFresh : World → Malloc → Type 0
IsFresh w fresh = fresh.ptr ≢ null → w.heap fresh.ptr ≡ none

-- A message was made that is in no queue and in no pool.
pub record Made (w : World) (q : Mq) (xs : List Cell) (run : Run Ptr) : Type 0 where
  pub ptr : Ptr
  pub message : Msg
  pub world : World
  pub result : run ≡ done ptr world
  pub live : ptr ≢ null
  pub held : world.heap ptr ≡ some message
  pub out : ptr ∉ xs
  pub queue : IsQueue world.heap q xs
  pub spare : List Cell
  pub pool : IsPool world spare
  pub apart : Apart spare xs
  pub off_pool : ptr ∉ spare

pool_end : {link : Msg → Ptr} {h : Heap} {p : Ptr} → Seg link h null p [] → p ≡ null
pool_end nil = refl

pool_start :
    {link : Msg → Ptr} {h : Heap} {p : Ptr} {c : Cell} {ps : List Cell}
    → Seg link h null p (c ∷ ps)
    → (p ≡ c.0) × (p ≢ null)
pool_start (cons ne e to out s) = (refl, ne)

module _ (w : World) (q : Mq) (xs : List Cell) (fresh : Malloc) (is_fresh : IsFresh w fresh)
    (queue : IsQueue w.heap q xs) where
  -- A pool that holds a message gives its first one.
  take_pooled-Made :
      {p : Ptr} (c : Cell) (ps : List Cell)
      → Seg (λ m. m.free_next) w.heap null p (c ∷ ps)
      → p ≡ w.pool
      → w.pool_size ≡ suc (length ps)
      → IsPool w (c ∷ ps)
      → Apart (c ∷ ps) xs
      → Made w q xs (take_pooled w)
  unfolding take_pooled
  take_pooled-Made c ps (cons {m} ne e to out s) at size is apart = record {
    ptr = w.pool;
    message = m;
    world = record w { pool = m.free_next; pool_size = w.pool_size - 1 };
    result = rw (load_done w.pool m w (λ z. ne (at ∙ z)) (rw at at e));
    live = λ z. ne (at ∙ z);
    held = rw at at e;
    out = ground (arith, apart c.0);
    queue = queue;
    spare = ps;
    pool = record { chain = rw to s; size = omega arith; bound = omega (arith, is.bound) };
    apart = λ a i. ground (arith, apart a);
    off_pool = ground arith;
  }

  -- Without one the message is what `malloc` gives.
  take_fresh-Made : fresh.ptr ≢ null → IsPool w [] → Made w q xs (take_fresh fresh w)
  unfolding take_fresh put
  take_fresh-Made live is = record {
    ptr = fresh.ptr;
    message = fresh.garbage;
    world = record w { heap = put w.heap fresh.ptr (some fresh.garbage) };
    result = ground arith;
    live = live;
    held = ground arith;
    out = out;
    queue = record {
      chain = frame-put fresh.ptr _ queue.chain out;
      tail = queue.tail;
      count = queue.count;
    };
    spare = [];
    pool = record { chain = frame-put fresh.ptr _ is.chain refl; size = is.size; bound = is.bound };
    apart = λ a i. cc;
    off_pool = refl;
  }
    where
      out : fresh.ptr ∉ xs
      out = not-mem_of_none fresh.ptr queue.chain (is_fresh live)

  pool_cases :
      (ps : List Cell)
      → IsPool w ps
      → Apart ps xs
      → (w.pool ≢ null) ⊎ (fresh.ptr ≢ null)
      → Made w q xs (alloc_msg fresh w)
  unfolding alloc_msg
  pool_cases [] is apart room =
      let empty : w.pool ≡ null = pool_end is.chain in
      let e : (w.pool == null) ≡ true = ground arith in
      let live : fresh.ptr ≢ null = ground arith in rw e (take_fresh-Made live is)
  pool_cases (c ∷ ps) is apart room =
      let (at, ne) = pool_start is.chain in
      let e : (w.pool == null) ≡ false = ground arith in
      rw e (take_pooled-Made c ps is.chain refl is.size is apart)

  -- The message that `msg_new` makes has the type and the data that were asked for, and no
  -- successor.
  pub msg_new-Made :
      (type private : ℕ) (ps : List Cell)
      → IsPool w ps
      → Apart ps xs
      → (w.pool ≢ null) ⊎ (fresh.ptr ≢ null)
      → (d : Made w q xs (msg_new fresh type private w)) × (cell d.ptr d.message
          ≡ (d.ptr, (type, private)))
        × (d.message.next ≡ null)
  unfolding msg_new put
  msg_new-Made type private ps is apart room =
      let d = pool_cases ps is apart room in
      let m : Msg = record d.message { type = type; privdata = private; next = null } in
      (
        record {
          ptr = d.ptr;
          message = m;
          world = record d.world { heap = put d.world.heap d.ptr (some m) };
          result = rw (
            d.result,
            not_null d.ptr d.message d.world d.live d.held,
            load_done d.ptr d.message d.world d.live d.held,
          );
          live = d.live;
          held = ground arith;
          out = d.out;
          queue = record {
            chain = frame-put d.ptr _ d.queue.chain d.out;
            tail = d.queue.tail;
            count = d.queue.count;
          };
          spare = d.spare;
          pool = record {
            chain = frame-put d.ptr _ d.pool.chain d.off_pool;
            size = d.pool.size;
            bound = d.pool.bound;
          };
          apart = d.apart;
          off_pool = d.off_pool;
        },
        refl,
        refl,
      )
