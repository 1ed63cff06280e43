-- ===== src/Mq/State.antt =====
-- Writing to and polling a queue beside the pool.
use suscan.Prelude.{
  ℕ, ◌+◌, ◌<◌, ◌≡◌, ◌≢◌, refl, Bool, true, false, ◌⊎◌, Option, some, none, List, [], ◌∷◌, ◌++◌,
  arith, ◌==◌, length, if◌then◌else◌,
}
use suscan.Mq.Store.{Ptr, null, Msg, World, Run, done, and_then, pure, ◌>>=◌, ◌>>◌, load}
use suscan.Mq.Seg.{Cell, cell, has-append, ◌∈◌, ◌∉◌, frame, split}
use suscan.Mq.Pool.{Malloc, msg_new, alloc_msg, take_fresh, msg_destroy}
use suscan.Mq.Queue.{Mq, write, write_urgent, poll_internal, poll_msg_internal, pop, pop_w_type}
use suscan.Mq.Chain.{not_null, load_done}
use suscan.Mq.Free.{IsPool, msg_destroy_lem}
use suscan.Mq.Remove.{
  Taken, Head-of, not-mem_of_apart, before-append-from, before, from, pop-Taken, pop_w_type-Taken,
}
use suscan.Mq.Cleanup.{Ends, apart_of_near}
use suscan.Mq.Settle.{settled, push-Ends, push_front-Ends}
use suscan.Mq.Fresh.{IsState, IsFresh, Made, msg_new-Made}

-- The call succeeded, and the queue holds the messages that `ys` gives for the new one.
pub record Wrote (q : Mq) (type private : ℕ) (ys : Cell → List Cell) (run : Run (Bool × Mq))
    : Type 0 where
  pub ptr : Ptr
  pub mq : Mq
  pub world : World
  pub result : run ≡ done (true, mq) world
  pub state : IsState world mq (settled q.cleanup_watermark q.callbacks (ys (ptr, (type, private))))
  pub settings : (mq.cleanup_watermark ≡ q.cleanup_watermark) × (mq.callbacks ≡ q.callbacks)

module _ (fuel : ℕ) (fresh : Malloc) (w : World) (q : Mq) (xs : List Cell) (type private : ℕ)
    (is : IsState w q xs) (is_fresh : IsFresh w fresh) (enough : length xs + 1 < fuel) where
  Made-Wrote :
      (d : Made w q xs (msg_new fresh type private w)) (ys : Cell → List Cell) (run : Run Mq)
      → cell d.ptr d.message ≡ (d.ptr, (type, private))
      → Ends d.world q
          (cell d.ptr d.message ∷ xs)
          (settled q.cleanup_watermark q.callbacks (ys (cell d.ptr d.message)))
          run
      → Wrote q type private ys (and_then run (λ mq. pure (true, mq)))
  Made-Wrote d ys run same e =
      let (spare, pool, apart) =
        e.pool d.spare d.pool (λ a i. ground (arith, d.apart a, d.off_pool)) in
      rw e.result (record {
        ptr = d.ptr;
        mq = e.mq;
        world = e.world;
        result = refl;
        state = rw (← same) (record { queue = e.queue; spare = spare; pool = pool; apart = apart });
        settings = e.settings;
      })

  -- With memory at hand `write` succeeds, and puts the message behind the others; what a cleanup
  -- drops, and only that, is gone, and the pool shares no message with the queue.
  pub write-Wrote :
      (w.pool ≢ null) ⊎ (fresh.ptr ≢ null)
      → Wrote q type private (λ c. xs ++ (c ∷ [])) (write fuel fresh q type private w)
  unfolding write
  write-Wrote room =
      let (d, same, free) =
        msg_new-Made w q xs fresh is_fresh is.queue type private is.spare is.pool is.apart room in
      rw (d.result, not_null d.ptr d.message d.world d.live d.held)
        (Made-Wrote d (λ c. xs ++ (c ∷ [])) _ same
          (push-Ends fuel d.world q d.ptr d.message d.live d.held xs d.queue free d.out enough))

  -- With memory at hand `write_urgent` succeeds, and puts the message before the others; what a
  -- cleanup drops, and only that, is gone, and the pool shares no message with the queue.
  pub write_urgent-Wrote :
      (w.pool ≢ null) ⊎ (fresh.ptr ≢ null)
      → Wrote q type private (λ c. c ∷ xs) (write_urgent fuel fresh q type private w)
  unfolding write_urgent
  write_urgent-Wrote room =
      let (d, same, free) =
        msg_new-Made w q xs fresh is_fresh is.queue type private is.spare is.pool is.apart room in
      rw (d.result, not_null d.ptr d.message d.world d.live d.held)
        (Made-Wrote d (λ c. c ∷ xs) _ same
          (push_front-Ends fuel d.world q d.ptr d.message d.live d.held xs d.queue d.out enough))

-- Without memory `write` and `write_urgent` report failure, and change nothing.
pub write_no_memory :
    (fuel : ℕ) (fresh : Malloc) (w : World) (q : Mq) (type private : ℕ)
    → w.pool ≡ null
    → fresh.ptr ≡ null
    → (write fuel fresh q type private w ≡ done (false, q) w)
      × (write_urgent fuel fresh q type private w ≡ done (false, q) w)
unfolding write write_urgent msg_new alloc_msg take_fresh
write_no_memory fuel fresh w q type private no_pool no_heap =
    let a : (w.pool == null) ≡ true = ground arith in
    let b : (fresh.ptr == null) ≡ true = ground arith in (rw (a, b), rw (a, b))

-- The call handed out the type and the data `c.1`, and the messages `ys` are left.
pub record PolledOne (q : Mq) (c : Cell) (ys : List Cell) (run : Run (Option (ℕ × Ptr) × Mq))
    : Type 0 where
  pub mq : Mq
  pub world : World
  pub result : run ≡ done (some c.1, mq) world
  pub state : IsState world mq ys
  pub settings : (mq.cleanup_watermark ≡ q.cleanup_watermark) × (mq.callbacks ≡ q.callbacks)

-- What polling for the first message of `back`, behind `front`, comes to.
abbrev pub Polled : World → Mq → List Cell → List Cell → Run (Option (ℕ × Ptr) × Mq) → Type 0
Polled w q front [] run = run ≡ done (none, q) w
Polled w q front (c ∷ rest) run = PolledOne q c (front ++ rest) run

-- `poll_internal` behind the call that takes the message off the queue.
abbrev hand_out : Ptr × Mq → World → Run (Option (ℕ × Ptr) × Mq)
hand_out r =
    if r.0 == null
    then pure (none, r.1)
    else (do m ← load r.0; msg_destroy r.0; pure (some (m.type, m.privdata), r.1))

hand_out-Polled :
    (w : World) (q : Mq) (front back : List Cell) (run : Run (Ptr × Mq))
    → IsState w q (front ++ back)
    → Taken w q front back run
    → Polled w q front back (and_then run hand_out)
hand_out-Polled w q front [] run is taken = rw taken
hand_out-Polled w q front (c ∷ rest) run is r =
    let (mid, before_it, back, apart) = split front (c ∷ rest) is.queue.chain in
    let hd = Head-of back in
    let w₁ : World = record w { heap = r.heap } in
    let m : Msg = record r.message { next = null } in
    let d = msg_destroy_lem w₁ c.0 m hd.ne r.held in
    let pool₁ : IsPool w₁ is.spare = record {
      chain = frame is.pool.chain λ a i. r.same a (is.apart a i);
      size = is.pool.size;
      bound = is.pool.bound;
    } in
    let off_pool : c.0 ∉ is.spare = ground (arith, is.apart c.0, has-append c.0 front (c ∷ rest)) in
    let out = not-mem_of_apart front c rest apart in
    let (spare, pool, near) = d.pool is.spare pool₁ off_pool in
    let far : (a : Ptr) → a ∈ (front ++ rest) → (a == c.0) ≡ false =
      λ a i. ground (arith, has-append a front rest, hd.out) in
    rw (r.result, not_null c.0 m w₁ hd.ne r.held, load_done c.0 m w₁ hd.ne r.held, d.result)
      (record {
        mq = r.mq;
        world = d.world;
        result = λ i. done (some (r.contents i).1, r.mq) d.world;
        state = record {
          queue = record {
            chain = frame r.queue.chain λ a i. d.same a (far a i);
            tail = r.queue.tail;
            count = r.queue.count;
          };
          spare = spare;
          pool = pool;
          apart =
              λ a i. apart_of_near a front c rest is.spare spare out hd.out (is.apart a) (near a) i;
        };
        settings = r.settings;
      })

-- `poll` hands out the type and the data of the first message, the rest stay in order, and the
-- message goes back; on an empty queue it reports that and changes nothing.
pub poll-Polled :
    (fuel : ℕ) (w : World) (q : Mq) (xs : List Cell)
    → IsState w q xs
    → Polled w q [] xs (poll_internal fuel q none w)
unfolding poll_internal poll_msg_internal
poll-Polled fuel w q xs is = hand_out-Polled w q [] xs (pop q w) is (pop-Taken w q xs is.queue)

-- `poll_w_type` hands out the data of the first message of the type, the others stay in order, and
-- the message goes back; without such a message it reports that and changes nothing.
pub poll_w_type-Polled :
    (fuel : ℕ) (w : World) (q : Mq) (xs : List Cell) (type : ℕ)
    → IsState w q xs
    → length xs < fuel
    → Polled w q (before type xs) (from type xs) (poll_internal fuel q (some type) w)
unfolding poll_internal poll_msg_internal
poll_w_type-Polled fuel w q xs type is enough =
    hand_out-Polled w q (before type xs) (from type xs) (pop_w_type fuel q type w)
      (rw (before-append-from type xs) is) (pop_w_type-Taken fuel type w q xs is.queue enough)
