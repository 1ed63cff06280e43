-- ===== src/Mq/Cleanup.antt =====
-- The cleanup of a queue that has grown to its watermark.
use suscan.Prelude.{
  ℕ, zero, suc, ◌<◌, ◌≡◌, refl, ◌∙◌, Bool, false, some, List, [], ◌∷◌, ◌++◌, arith, ◌==◌, length,
  length-append, append_assoc, if◌then◌else◌, Bool-cases, inl, inr,
}
use suscan.Mq.Store.{Ptr, null, World, Run, done, ◌>>=◌, ◌>>◌}
use suscan.Mq.Seg.{
  Cell, cell, Apart, has-append, ◌∈◌, ◌∉◌, SameOutside, last, nil, cons, frame, split, last-snoc,
  not-mem-append_inv, not-mem-append,
}
use suscan.Mq.Pool.{msg_destroy}
use suscan.Mq.Free.{IsPool, msg_destroy_lem}
use suscan.Mq.Queue.{Mq, bypass, cleanup_loop, decr}
use suscan.Mq.Chain.{Chain, IsQueue, not_null, load_done, bypass_lem}
use suscan.Mq.Remove.{Head, closed, ends, last-append, tail_removed, not-mem_of_apart}

-- The messages that `destroy` spares.
unfoldable pub spared : (ℕ → Ptr → Bool) → List Cell → List Cell
spared destroy [] = []
spared destroy ((p, (type, privdata)) ∷ xs) =
    if destroy type privdata then spared destroy xs else (p, (type, privdata)) ∷ spared destroy xs

-- A pool apart from the messages `xs` became one apart from the messages `ys`.
abbrev pub PoolKept : World → World → List Cell → List Cell → Type 0
PoolKept w w' xs ys =
    (ps : List Cell) → IsPool w ps → Apart ps xs → (ps' : List Cell) × IsPool w' ps' × Apart ps' ys

-- A run that ends with a queue of the messages `ys`, and writes only messages of `xs`.
pub record Ends (w : World) (q : Mq) (xs ys : List Cell) (run : Run Mq) : Type 0 where
  pub mq : Mq
  pub world : World
  pub result : run ≡ done mq world
  pub queue : IsQueue world.heap mq ys
  pub same : SameOutside xs w.heap world.heap
  pub pool : PoolKept w world xs ys
  pub settings : (mq.cleanup_watermark ≡ q.cleanup_watermark) × (mq.callbacks ≡ q.callbacks)

-- One round that drops the message `c`, up to the next round.
record Dropped (fuel : ℕ) (destroy : ℕ → Ptr → Bool) (w : World) (q : Mq) (kept : List Cell)
    (c : Cell) (next : Ptr) (rest : List Cell) : Type 0 where
  mq : Mq
  world : World
  result :
      (do
        mq' ← bypass (last null kept) next q
        msg_destroy c.0
        cleanup_loop fuel destroy (last null kept) next (record mq' {
          tail = if next == null then last null kept else mq'.tail;
          count = decr mq'.count;
        }))
        w
      ≡ cleanup_loop fuel destroy (last null kept) next mq world
  queue : IsQueue world.heap mq (kept ++ rest)
  chain : Chain world.heap null next rest
  same : SameOutside (kept ++ (c ∷ rest)) w.heap world.heap
  pool : PoolKept w world (kept ++ (c ∷ rest)) (kept ++ rest)
  settings : (mq.cleanup_watermark ≡ q.cleanup_watermark) × (mq.callbacks ≡ q.callbacks)

pub apart_of_near :
    (a : Ptr) (kept : List Cell) (c : Cell) (rest ps ps' : List Cell)
    → c.0 ∉ kept
    → c.0 ∉ rest
    → (a ∈ ps → a ∉ (kept ++ (c ∷ rest)))
    → ((a == c.0) ≡ false → a ∉ ps → a ∉ ps')
    → a ∈ ps'
    → a ∉ (kept ++ rest)
apart_of_near a kept c rest ps ps' out out' far near i =
    ground (arith, has-append a kept (c ∷ rest), has-append a kept rest)

drop_one :
    (fuel : ℕ) (destroy : ℕ → Ptr → Bool) (w : World) (q : Mq) (kept : List Cell) (c : Cell)
    (rest : List Cell) {this : Ptr}
    → IsQueue w.heap q (kept ++ (c ∷ rest))
    → (hd : Head w.heap this c rest) → Dropped fuel destroy w q kept c hd.message.next rest
drop_one fuel destroy w q kept c rest is hd =
    let m = hd.message in
    let (mid, front, back, apart) = split kept (c ∷ rest) is.chain in
    let b = bypass_lem w q (last null kept) mid m.next kept front refl in
    let out = not-mem_of_apart kept c rest apart in
    let held : b.heap c.0 ≡ some m = b.same c.0 out ∙ hd.held in
    let r = msg_destroy_lem (record w { heap = b.heap }) c.0 m hd.ne held in
    let at_end : (m.next == null) ≡ (c.0 == q.tail) =
      rw (is.tail, last-append null kept c rest) (ends c rest hd.behind hd.out) in
    record {
      mq = record q {
        head = b.head;
        tail = if m.next == null then last null kept else q.tail;
        count = decr q.count;
      };
      world = r.world;
      result = rw (b.run, r.result);
      queue = record {
        chain = closed w q kept c rest hd b apart r.world.heap r.same;
        tail = rw at_end (tail_removed kept c rest q.tail is.tail hd.out);
        count =
            omega (arith, is.count, length-append {0} kept (c ∷ rest), length-append {0} kept rest);
      };
      chain =
          frame hd.behind
            λ a i. r.same a (ground (arith, hd.out)) ∙ b.same a (ground (arith, apart a));
      same = λ a o.
          let os = not-mem-append_inv a kept (c ∷ rest) o in
          r.same a (ground arith) ∙ b.same a os.0;
      pool = λ ps isp far.
          let isp' : IsPool (record w { heap = b.heap }) ps = record {
            chain =
                frame isp.chain λ a i. b.same a (not-mem-append_inv a kept (c ∷ rest) (far a i)).0;
            size = isp.size;
            bound = isp.bound;
          } in
          let (ps', is', near) =
            r.pool ps isp' (ground (arith, far c.0, has-append c.0 kept (c ∷ rest))) in
          (ps', is', λ a i. apart_of_near a kept c rest ps ps' out hd.out (far a) (near a) i);
      settings = (refl, refl);
    }

-- The loop of a cleanup, with fuel above the number of messages to look at, ends without a fault: the
-- messages behind those kept so far that the callback wants to go are gone, and the others are
-- linked in their order, with the head, the tail and the count that belong to them.
pub cleanup_loop-Ends :
    (fuel : ℕ) (destroy : ℕ → Ptr → Bool) (this : Ptr) (w : World) (q : Mq) (kept todo : List Cell)
    → IsQueue w.heap q (kept ++ todo)
    → Chain w.heap null this todo
    → length todo < fuel
    → Ends w q
        (kept ++ todo)
        (kept ++ spared destroy todo)
        (cleanup_loop fuel destroy (last null kept) this q w)
unfolding cleanup_loop spared
cleanup_loop-Ends zero destroy this w q kept todo is s enough = absurd (omega arith)
cleanup_loop-Ends (suc fuel) destroy this w q kept [] is nil enough = record {
  mq = q;
  world = w;
  result = refl;
  queue = is;
  same = λ a o. refl;
  pool = λ ps is apart. (ps, is, apart);
  settings = (refl, refl);
}
cleanup_loop-Ends (suc fuel) destroy this w q kept (c ∷ rest) is (cons {m} ne e to out s) enough =
    let hd : Head w.heap this (cell this m) rest = record {
      message = m;
      at = refl;
      ne = ne;
      held = e;
      contents = refl;
      out = out;
      behind = rw to s;
    } in
    rw (not_null this m w ne e, load_done this m w ne e)
      (elim (Bool-cases (destroy m.type m.privdata)) [
        | inl gone ↦
            let d = drop_one fuel destroy w q kept (cell this m) rest is hd in
            let rec =
              cleanup_loop-Ends fuel destroy m.next d.world d.mq kept rest d.queue d.chain
                (omega arith) in
            rw gone (record {
              mq = rec.mq;
              world = rec.world;
              result = d.result ∙ rec.result;
              queue = rec.queue;
              same = λ a o.
                  let os = not-mem-append_inv a kept (cell this m ∷ rest) o in
                  rec.same a (not-mem-append a kept rest os.0 (ground arith)) ∙ d.same a o;
              pool =
                  λ ps isp far. let (ps', is', far') = d.pool ps isp far in rec.pool ps' is' far';
              settings = (rec.settings.0 ∙ d.settings.0, rec.settings.1 ∙ d.settings.1);
            })
        | inr stays ↦
            let rec =
              cleanup_loop-Ends fuel destroy m.next w q (kept ++ (cell this m ∷ [])) rest
                (rw append_assoc is) hd.behind (omega arith) in
            rw stays (
              rw
                (
                  append_assoc kept (cell this m ∷ []) rest,
                  append_assoc kept (cell this m ∷ []) (spared destroy rest),
                  last-snoc null kept (cell this m),
                )
                at rec)
      ])
