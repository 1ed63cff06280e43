-- ===== src/Mq/Free.antt =====
-- The pool of free messages, and what giving a message back does.
use suscan.Prelude.{
  ◌+◌, ◌≤◌, ◌≡◌, ◌≢◌, refl, true, false, some, none, List, ◌∷◌, arith, ◌==◌, ltb, length,
  if◌then◌else◌, Bool-cases, inl, inr,
}
use suscan.Mq.Store.{Ptr, null, Msg, World, Run, done, put, free, set_free_next}
use suscan.Mq.Seg.{Cell, cell, ◌∉◌, Seg, cons, frame, frame-put}
use suscan.Mq.Pool.{return_msg, msg_destroy}
use suscan.Mq.Chain.{load_done}

-- From `g_msg_pool` the messages `ps` lead to the null pointer, `g_msg_pool_size` is their number,
-- and they are at most the threshold.
pub record IsPool (w : World) (ps : List Cell) : Type 0 where
  pub chain : Seg (λ m. m.free_next) w.heap null w.pool ps
  pub size : w.pool_size ≡ length ps
  pub bound : length ps ≤ 300

-- Giving a message back writes no other message.
pub record Returned (w : World) (msg : Ptr) (run : Run (Unit {0})) : Type 0 where
  pub world : World
  pub result : run ≡ done tt world
  pub same : (a : Ptr) → (a == msg) ≡ false → world.heap a ≡ w.heap a
  pub pool :
      (ps : List Cell)
      → IsPool w ps
      → msg ∉ ps
      → (ps' : List Cell) × IsPool world ps' × ((a : Ptr) → (a == msg) ≡ false → a ∉ ps → a ∉ ps')

-- The world with a message put on the pool.
pub pooled : World → Ptr → Msg → World
pooled w msg m = record {
  heap = put w.heap msg (some (record m { free_next = w.pool }));
  pool = msg;
  pool_size = w.pool_size + 1;
  pool_peak = if ltb w.pool_peak (w.pool_size + 1) then w.pool_size + 1 else w.pool_peak;
}

module _ (w : World) (msg : Ptr) (m : Msg) (ne : msg ≢ null) (held : w.heap msg ≡ some m) where
  pub msg_destroy_room : ltb w.pool_size 300 ≡ true → msg_destroy msg w ≡ done tt (pooled w msg m)
  unfolding msg_destroy return_msg set_free_next pooled
  msg_destroy_room room = rw (room, load_done msg m w ne held)

  pub msg_destroy_full :
      ltb w.pool_size 300 ≡ false
      → msg_destroy msg w ≡ done tt (record w { heap = put w.heap msg none })
  unfolding msg_destroy return_msg free
  msg_destroy_full full = rw (full, load_done msg m w ne held)

  pooled-IsPool :
      (ps : List Cell)
      → IsPool w ps
      → msg ∉ ps
      → ltb w.pool_size 300 ≡ true
      → IsPool (pooled w msg m) (cell msg m ∷ ps)
  unfolding pooled put
  pooled-IsPool ps is out room = record {
    chain =
        cons {m = record m { free_next = w.pool }} ne (ground arith) refl out
          (frame is.chain λ a i. ground arith);
    size = omega (arith, is.size);
    bound = ground (arith, is.size);
  }

  pub msg_destroy_lem : Returned w msg (msg_destroy msg w)
  unfolding put pooled
  msg_destroy_lem = elim (Bool-cases (ltb w.pool_size 300)) [
    | inl room ↦ record {
      world = pooled w msg m;
      result = msg_destroy_room room;
      same = λ a off. rw off;
      pool = λ ps is out. (cell msg m ∷ ps, pooled-IsPool ps is out room, λ a off o. ground arith);
    }
    | inr full ↦ record {
      world = record w { heap = put w.heap msg none };
      result = msg_destroy_full full;
      same = λ a off. rw off;
      pool = λ ps is out. (
        ps,
        record { chain = frame-put msg none is.chain out; size = is.size; bound = is.bound },
        λ a off o. o,
      );
    }
  ]
