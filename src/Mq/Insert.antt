-- ===== src/Mq/Insert.antt =====
-- Putting messages into a queue, up to the cleanup that may follow.
use suscan.Prelude.{
  ℕ, ◌+◌, ◌%◌, ◌^◌, ◌≡◌, ◌≢◌, refl, sym, ◌∙◌, true, false, some, List, [], ◌∷◌, ◌++◌, arith, ◌==◌,
  length-append, if◌then◌else◌,
}
use suscan.Mq.Store.{Ptr, null, Msg, Heap, World, Run, put}
use suscan.Mq.Seg.{
  Cell, cell, ◌∉◌, SameOutside, last, nil, cons, frame-put, append, last_holds, last-snoc,
  retarget_lem,
}
use suscan.Mq.Queue.{Mq, push, push_front, cleanup_if_needed}
use suscan.Mq.Chain.{Chain, IsQueue, set_next_done}
use suscan.Mq.Remove.{empty_head, Head-of}

-- The call went on to the cleanup with a queue of the messages `ys`.
pub record Inserted (fuel : ℕ) (w : World) (q : Mq) (c : Cell) (xs ys : List Cell) (run : Run Mq)
    : Type 0 where
  pub mq : Mq
  pub heap : Heap
  pub result : run ≡ cleanup_if_needed fuel mq (record w { heap = heap })
  pub queue : IsQueue heap mq ys
  pub same : SameOutside (c ∷ xs) w.heap heap
  pub settings : (mq.cleanup_watermark ≡ q.cleanup_watermark) × (mq.callbacks ≡ q.callbacks)

front_tail :
    {h : Heap} {p : Ptr} (msg t : Ptr) (xs : List Cell)
    → Chain h null p xs
    → t ≡ last null xs
    → (if t == null then msg else t) ≡ last msg xs
front_tail msg t [] s e = ground arith
front_tail msg t (x ∷ xs) s e = let (m, at, live, i) = last_holds xs s in ground arith

module _ (fuel : ℕ) (w : World) (q : Mq) (msg : Ptr) (m : Msg) (ne : msg ≢ null)
    (held : w.heap msg ≡ some m) where
  -- `push` puts a message that has no successor behind all others.
  pub push-Inserted :
      (xs : List Cell)
      → IsQueue w.heap q xs
      → m.next ≡ null
      → msg ∉ xs
      → Inserted fuel w q (cell msg m) xs (xs ++ (cell msg m ∷ [])) (push fuel q msg w)
  unfolding push put
  push-Inserted [] is free out = record {
    mq = record q { tail = msg; head = msg; count = (q.count + 1) % 2 ^ 32 };
    heap = w.heap;
    result = rw (no_tail, no_head);
    queue = record {
      chain = cons ne held free refl nil;
      tail = refl;
      count = omega (arith, is.count);
    };
    same = λ a o. refl;
    settings = (refl, refl);
  }
    where
      no_tail : (q.tail == null) ≡ true
      no_tail = ground (arith, is.tail)

      no_head : (q.head == null) ≡ true
      no_head = ground (arith, empty_head is.chain)
  push-Inserted (x ∷ xs) is free out =
      let (t, at, live, i) = last_holds xs is.chain in
      let has_tail : (q.tail == null) ≡ false = ground (arith, is.tail) in
      let live' : q.tail ≢ null = λ e. live (sym is.tail ∙ e) in
      let has_head : (q.head == null) ≡ false =
        let hd = Head-of is.chain in ground (arith, hd.at, hd.ne) in
      let there : w.heap q.tail ≡ some t = rw is.tail at in
      record {
        mq = record q { tail = msg; count = (q.count + 1) % 2 ^ 32 };
        heap = put w.heap q.tail (some (record t { next = msg }));
        result = rw (has_tail, set_next_done q.tail t w live' there msg, has_head);
        queue = record {
          chain = rw is.tail (
              append (retarget_lem msg t is.chain at) (cons {m = m} ne (ground arith) free refl nil)
                λ a j. ground arith);
          tail = sym (last-snoc null (x ∷ xs) (cell msg m));
          count = omega (arith, is.count, length-append {0} xs (cell msg m ∷ []));
        };
        same = λ a o. ground arith;
        settings = (refl, refl);
      }

  -- `push_front` puts a message before all others.
  pub push_front-Inserted :
      (xs : List Cell)
      → IsQueue w.heap q xs
      → msg ∉ xs
      → Inserted fuel w q (cell msg m) xs (cell msg m ∷ xs) (push_front fuel q msg w)
  unfolding push_front put
  push_front-Inserted xs is out = record {
    mq = record q {
      head = msg;
      tail = if q.tail == null then msg else q.tail;
      count = (q.count + 1) % 2 ^ 32;
    };
    heap = put w.heap msg (some (record m { next = q.head }));
    result = rw (set_next_done msg m w ne held q.head);
    queue = record {
      chain =
          cons {m = record m { next = q.head }} ne (ground arith) refl out
            (frame-put msg _ is.chain out);
      tail = front_tail msg q.tail xs is.chain is.tail;
      count = omega (arith, is.count);
    };
    same = λ a o. ground arith;
    settings = (refl, refl);
  }
