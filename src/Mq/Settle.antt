-- ===== src/Mq/Settle.antt =====
-- Putting a message into a queue, with the cleanup that may follow.
use suscan.Prelude.{
  ℕ, ◌+◌, ◌%◌, ◌^◌, ◌<◌, ◌≡◌, ◌≢◌, refl, ◌∙◌, Bool, true, false, ◌&&◌, Option, none, some, List, [],
  ◌∷◌, ◌++◌, arith, length, length-append, if◌then◌else◌, ltb, leb,
}
use mathlib.Core.Path.{subst}
use suscan.Mq.Store.{Ptr, null, Msg, World, Run, done, and_then, pure}
use suscan.Mq.Seg.{Cell, cell, has-append, ◌∉◌, frame}
use suscan.Mq.Queue.{
  Mq, Callbacks, cleanup_context, cleanup_with, trigger_cleanup, cleanup_if_needed, push,
  push_front,
}
use suscan.Mq.Chain.{IsQueue}
use suscan.Mq.Insert.{Inserted, push-Inserted, push_front-Inserted}
use suscan.Mq.Cleanup.{Ends, spared, cleanup_loop-Ends}

-- What a cleanup leaves of a queue.
unfoldable pub cleaned_with : Option Ptr → Option (Ptr → ℕ → Ptr → Bool) → List Cell → List Cell
cleaned_with none try_destroy ys = ys
cleaned_with (some user) none ys = ys
cleaned_with (some user) (some destroy) ys = spared (destroy user) ys

unfoldable pub cleaned : Callbacks → List Cell → List Cell
unfolding cleaned_with
cleaned c = cleaned_with (cleanup_context c) c.try_destroy

-- What is left of a queue once the cleanup has run, if the queue has reached its watermark.
unfoldable pub settled : ℕ → Callbacks → List Cell → List Cell
settled watermark c ys =
    if ltb 0 watermark && leb watermark (length ys % 2 ^ 32) then cleaned c ys else ys

unchanged : (w : World) (q : Mq) (ys : List Cell) → IsQueue w.heap q ys → Ends w q ys ys (done q w)
unchanged w q ys is = record {
  mq = q;
  world = w;
  result = refl;
  queue = is;
  same = λ a o. refl;
  pool = λ ps isp apart. (ps, isp, apart);
  settings = (refl, refl);
}

-- What `cleanup_if_needed` does at the watermark.
cleanup-Ends :
    (fuel : ℕ) (user : Option Ptr) (try_destroy : Option (Ptr → ℕ → Ptr → Bool)) (w : World)
    (q : Mq) (ys : List Cell)
    → IsQueue w.heap q ys
    → length ys < fuel
    → Ends w q ys
        (cleaned_with user try_destroy ys)
        (and_then (cleanup_with fuel user try_destroy q w) (λ r. pure r.1))
unfolding cleanup_with cleaned_with
cleanup-Ends fuel none try_destroy w q ys is enough = unchanged w q ys is
cleanup-Ends fuel (some user) none w q ys is enough = unchanged w q ys is
cleanup-Ends fuel (some user) (some destroy) w q ys is enough =
    let e = cleanup_loop-Ends fuel (destroy user) q.head w q [] ys is is.chain enough in
    rw e.result (record {
      mq = e.mq;
      world = e.world;
      result = refl;
      queue = e.queue;
      same = e.same;
      pool = e.pool;
      settings = e.settings;
    })

if-Ends :
    (c : Bool) (w : World) (q : Mq) (xs ys zs : List Cell) (m k : World → Run Mq)
    → Ends w q xs ys (m w)
    → Ends w q xs zs (k w)
    → Ends w q xs (if c then ys else zs) ((if c then m else k) w)
if-Ends true w q xs ys zs m k a b = a
if-Ends false w q xs ys zs m k a b = b

cleanup_if_needed-Ends :
    (fuel : ℕ) (w : World) (q : Mq) (ys : List Cell)
    → IsQueue w.heap q ys
    → length ys < fuel
    → Ends w q ys (settled q.cleanup_watermark q.callbacks ys) (cleanup_if_needed fuel q w)
unfolding cleanup_if_needed settled trigger_cleanup cleaned
cleanup_if_needed-Ends fuel w q ys is enough =
    subst
      (λ n.
        Ends w q ys
          (if ltb 0 q.cleanup_watermark && leb q.cleanup_watermark n
            then cleaned q.callbacks ys
            else ys)
          (cleanup_if_needed fuel q w))
      is.count
      (if-Ends (ltb 0 q.cleanup_watermark && leb q.cleanup_watermark q.count) w q ys _ _ _ _
        (cleanup-Ends fuel (cleanup_context q.callbacks) q.callbacks.try_destroy w q ys is enough)
        (unchanged w q ys is))

Inserted-Ends :
    (fuel : ℕ) (w : World) (q : Mq) (c : Cell) (xs ys : List Cell) (run : Run Mq)
    → Inserted fuel w q c xs ys run
    → length ys < fuel
    → ((a : Ptr) → a ∉ (c ∷ xs) → a ∉ ys)
    → Ends w q (c ∷ xs) (settled q.cleanup_watermark q.callbacks ys) run
Inserted-Ends fuel w q c xs ys run i enough within =
    let e = cleanup_if_needed-Ends fuel (record w { heap = i.heap }) i.mq ys i.queue enough in
    rw (← i.settings.0, ← i.settings.1)
      (record {
        mq = e.mq;
        world = e.world;
        result = i.result ∙ e.result;
        queue = e.queue;
        same = λ a o. e.same a (within a o) ∙ i.same a o;
        pool = λ ps isp far.
            e.pool ps
              (record {
                chain = frame isp.chain λ a j. i.same a (far a j);
                size = isp.size;
                bound = isp.bound;
              })
              λ a j. within a (far a j);
        settings = (e.settings.0, e.settings.1);
      })

module _ (fuel : ℕ) (w : World) (q : Mq) (msg : Ptr) (m : Msg) (ne : msg ≢ null)
    (held : w.heap msg ≡ some m) where
  -- `push` ends, and the queue is its messages with the new one behind them, less those that a
  -- cleanup drops; the others keep their order.
  pub push-Ends :
      (xs : List Cell)
      → IsQueue w.heap q xs
      → m.next ≡ null
      → msg ∉ xs
      → length xs + 1 < fuel
      → Ends w q
          (cell msg m ∷ xs)
          (settled q.cleanup_watermark q.callbacks (xs ++ (cell msg m ∷ [])))
          (push fuel q msg w)
  push-Ends xs is free out enough =
      Inserted-Ends fuel w q (cell msg m) xs _ _
        (push-Inserted fuel w q msg m ne held xs is free out)
        (omega (arith, length-append {0} xs (cell msg m ∷ [])))
        λ a o. ground (arith, has-append a xs (cell msg m ∷ []))

  -- `push_front` ends, and the queue is its messages with the new one before them, less those that a
  -- cleanup drops; the others keep their order.
  pub push_front-Ends :
      (xs : List Cell)
      → IsQueue w.heap q xs
      → msg ∉ xs
      → length xs + 1 < fuel
      → Ends w q
          (cell msg m ∷ xs)
          (settled q.cleanup_watermark q.callbacks (cell msg m ∷ xs))
          (push_front fuel q msg w)
  push_front-Ends xs is out enough =
      Inserted-Ends fuel w q (cell msg m) xs _ _
        (push_front-Inserted fuel w q msg m ne held xs is out) (omega arith) λ a o. o
