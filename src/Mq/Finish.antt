-- ===== src/Mq/Finish.antt =====
-- suscan_mq_finalize (analyzer/mq.c): the messages of a queue go back, one after the other.
use suscan.Prelude.{ℕ, zero, suc, ◌<◌, ◌≡◌, refl, false, List, [], ◌∷◌, arith, ◌==◌, length, ◌∙◌}
use suscan.Mq.Store.{Ptr, null, Msg, World, Run, done}
use suscan.Mq.Seg.{Cell, ◌∈◌, ◌∉◌, frame}
use suscan.Mq.Queue.{Mq, finalize, pop}
use suscan.Mq.Chain.{not_null}
use suscan.Mq.Free.{IsPool, msg_destroy_lem}
use suscan.Mq.Remove.{Removed, Head-of, pop-Taken}
use suscan.Mq.Cleanup.{apart_of_near}
use suscan.Mq.Fresh.{IsState}

-- The queue is empty, and the pool well formed.
pub record Finished (run : Run Mq) : Type 0 where
  pub mq : Mq
  pub world : World
  pub result : run ≡ done mq world
  pub state : IsState world mq []

-- The first message is off the queue and has gone back.
record Released (fuel : ℕ) (w : World) (q : Mq) (rest : List Cell) : Type 0 where
  pub mq : Mq
  pub world : World
  pub result : finalize (suc fuel) q w ≡ finalize fuel mq world
  pub state : IsState world mq rest

drop_first :
    (fuel : ℕ) (w : World) (q : Mq) (c : Cell) (rest : List Cell)
    → IsState w q (c ∷ rest)
    → Released fuel w q rest
unfolding finalize
drop_first fuel w q c rest is =
    let r : Removed w q [] c rest (pop q w) = pop-Taken w q (c ∷ rest) is.queue in
    let hd = Head-of is.queue.chain in
    let w₁ : World = record w { heap = r.heap } in
    let m : Msg = record r.message { next = null } in
    let d = msg_destroy_lem w₁ c.0 m hd.ne r.held in
    let pool₁ : IsPool w₁ is.spare = record {
      chain = frame is.pool.chain λ a i. r.same a (is.apart a i);
      size = is.pool.size;
      bound = is.pool.bound;
    } in
    let off_pool : c.0 ∉ is.spare = ground (arith, is.apart c.0) in
    let (spare, pool, near) = d.pool is.spare pool₁ off_pool in
    let far : (a : Ptr) → a ∈ rest → (a == c.0) ≡ false = λ a i. ground (arith, hd.out) in
    record {
      mq = r.mq;
      world = d.world;
      result = rw (r.result, not_null c.0 m w₁ hd.ne r.held, d.result);
      state = record {
        queue = record {
          chain = frame r.queue.chain λ a i. d.same a (far a i);
          tail = r.queue.tail;
          count = r.queue.count;
        };
        spare = spare;
        pool = pool;
        apart = λ a i. apart_of_near a [] c rest is.spare spare refl hd.out (is.apart a) (near a) i;
      };
    }

-- With fuel above the number of messages, `finalize` on a well-formed queue beside the pool ends without a
-- fault, and leaves an empty queue and a well-formed pool.
pub finalize-Finished :
    (fuel : ℕ) (w : World) (q : Mq) (xs : List Cell)
    → IsState w q xs
    → length xs < fuel
    → Finished (finalize fuel q w)
unfolding finalize
finalize-Finished zero w q xs is enough = absurd (omega arith)
finalize-Finished (suc fuel) w q [] is enough = record {
  mq = q;
  world = w;
  result = rw (pop-Taken w q [] is.queue);
  state = is;
}
finalize-Finished (suc fuel) w q (c ∷ rest) is enough =
    let d = drop_first fuel w q c rest is in
    let r = finalize-Finished fuel d.world d.mq rest d.state (omega arith) in
    record { mq = r.mq; world = r.world; result = d.result ∙ r.result; state = r.state }
