-- ===== src/Mq/Chain.antt =====
-- The list that a queue stands for, and what a write to one link does to it.
use suscan.Prelude.{◌%◌, ◌^◌, ◌≡◌, ◌≢◌, refl, false, some, List, [], ◌∷◌, arith, ◌==◌, length}
use suscan.Mq.Store.{Ptr, null, Msg, Heap, World, done, put, load, set_next}
use suscan.Mq.Seg.{Cell, SameOutside, last, Seg, nil, last_holds, retarget_lem}
use suscan.Mq.Queue.{Mq, bypass}

abbrev pub Chain : Heap → Ptr → Ptr → List Cell → Type 0
Chain = Seg (λ m. m.next)

-- From `head` the messages `xs` lead to the null pointer, `tail` is the last one, and `count` is
-- their number as an `unsigned int`.
pub record IsQueue (h : Heap) (q : Mq) (xs : List Cell) : Type 0 where
  pub chain : Chain h null q.head xs
  pub tail : q.tail ≡ last null xs
  pub count : q.count ≡ length xs % 2 ^ 32

module _ (p : Ptr) (m : Msg) (w : World) (ne : p ≢ null) (e : w.heap p ≡ some m) where
  pub not_null : (p == null) ≡ false
  not_null = ground arith

  pub load_done : load p w ≡ done m w
  unfolding load
  load_done = ground arith

  pub set_next_done :
      (q : Ptr)
      → set_next p q w ≡ done tt (record w { heap = put w.heap p (some (record m { next = q })) })
  unfolding set_next
  set_next_done q = rw load_done

-- The outcome of `bypass`.
pub record Bypassed (w : World) (mq : Mq) (prev next : Ptr) (kept : List Cell) : Type 0 where
  pub head : Ptr
  pub heap : Heap
  pub run : bypass prev next mq w ≡ done (record mq { head = head }) (record w { heap = heap })
  pub chain : Chain heap next head kept
  pub same : SameOutside kept w.heap heap

-- The segment up to `this` is made to lead to `next`.
pub bypass_lem :
    (w : World) (mq : Mq) (prev this next : Ptr) (kept : List Cell)
    → Chain w.heap this mq.head kept
    → prev ≡ last null kept
    → Bypassed w mq prev next kept
unfolding bypass put
bypass_lem w mq prev this next [] s e = record {
  head = next;
  heap = w.heap;
  run = ground arith;
  chain = nil;
  same = λ a o. refl;
}
bypass_lem w mq prev this next (x ∷ kept) s e =
    let (m, held, ne, i) = last_holds kept s in
    let live : (prev == null) ≡ false = ground arith in
    record {
      head = mq.head;
      heap = put w.heap (last x.0 kept) (some (record m { next = next }));
      run = rw (live, e, set_next_done (last x.0 kept) m w ne held next);
      chain = retarget_lem next m s held;
      same = λ a o. ground arith;
    }
