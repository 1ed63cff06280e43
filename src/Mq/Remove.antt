-- ===== src/Mq/Remove.antt =====
-- Taking messages off a queue.
use suscan.Prelude.{
  ℕ, zero, suc, ◌<◌, ◌≡◌, ◌≢◌, refl, sym, ◌∙◌, true, false, some, List, [], ◌∷◌, ◌++◌, arith, ◌==◌,
  length, length-append, append-nil, if◌then◌else◌, inl, inr, Bool-cases,
}
use suscan.Mq.Store.{Ptr, null, Msg, Heap, World, Run, done, put, pure}
use suscan.Mq.Seg.{
  Cell, cell, ◌∈◌, ◌∉◌, Apart, SameOutside, last, nil, cons, frame, append, split,
  not-mem-append_inv,
}
use suscan.Mq.Queue.{Mq, bypass, unlink, pop, pop_w_type, find_type, decr}
use suscan.Mq.Chain.{Chain, IsQueue, not_null, load_done, set_next_done, Bypassed, bypass_lem}

pub last-append :
    (d : Ptr) (xs : List Cell) (y : Cell) (ys : List Cell) → last d (xs ++ (y ∷ ys)) ≡ last y.0 ys
last-append d [] y ys = refl
last-append d (x ∷ xs) y ys = last-append x.0 xs y ys

-- The message `c` was taken out between `kept` and `rest`, and stands alone.
pub record Removed (w : World) (q : Mq) (kept : List Cell) (c : Cell) (rest : List Cell)
    (run : Run (Ptr × Mq)) : Type 0 where
  pub mq : Mq
  pub heap : Heap
  pub message : Msg
  pub result : run ≡ done (c.0, mq) (record w { heap = heap })
  pub queue : IsQueue heap mq (kept ++ rest)
  pub held : heap c.0 ≡ some (record message { next = null })
  pub contents : cell c.0 message ≡ c
  pub same : SameOutside (kept ++ (c ∷ rest)) w.heap heap
  pub settings : (mq.cleanup_watermark ≡ q.cleanup_watermark) × (mq.callbacks ≡ q.callbacks)

-- What the head cell of a chain holds.
pub record Head (h : Heap) (this : Ptr) (c : Cell) (rest : List Cell) : Type 0 where
  pub message : Msg
  pub at : this ≡ c.0
  pub ne : c.0 ≢ null
  pub held : h c.0 ≡ some message
  pub contents : cell c.0 message ≡ c
  pub out : c.0 ∉ rest
  pub behind : Chain h null message.next rest

pub Head-of :
    {h : Heap} {this : Ptr} {c : Cell} {rest : List Cell}
    → Chain h null this (c ∷ rest)
    → Head h this c rest
Head-of (cons {m} ne e to out s) = record {
  message = m;
  at = refl;
  ne = ne;
  held = e;
  contents = refl;
  out = out;
  behind = rw to s;
}

pub not-mem_of_apart :
    (kept : List Cell) (c : Cell) (rest : List Cell) → Apart kept (c ∷ rest) → c.0 ∉ kept
not-mem_of_apart kept c rest apart = ground (arith, apart c.0)

-- Past the message that was taken out the chain is closed again, in any heap that differs only there.
pub closed :
    (w : World) (q : Mq) (kept : List Cell) (c : Cell) (rest : List Cell) {this : Ptr}
    (hd : Head w.heap this c rest) (b : Bypassed w q (last null kept) hd.message.next kept)
    → Apart kept (c ∷ rest)
    → (g : Heap) → ((a : Ptr) → (a == c.0) ≡ false → g a ≡ b.heap a)
    → Chain g null b.head (kept ++ rest)
closed w q kept c rest hd b apart g near =
    let out = not-mem_of_apart kept c rest apart in
    append (frame b.chain λ a i. near a (ground (arith, apart a)))
      (frame hd.behind λ a i. near a (ground (arith, hd.out)) ∙ b.same a (ground (arith, apart a)))
      λ a i. ground (arith, apart a)

last-mem : (x : Cell) (xs : List Cell) → last x.0 xs ∈ (x ∷ xs)
last-mem x [] = ground arith
last-mem x (y ∷ xs) = ground (arith, last-mem y xs)

pub tail_removed :
    (kept : List Cell) (c : Cell) (rest : List Cell) (t : Ptr)
    → t ≡ last null (kept ++ (c ∷ rest))
    → c.0 ∉ rest
    → (if c.0 == t then last null kept else t) ≡ last null (kept ++ rest)
tail_removed kept c [] t e out =
    let at : t ≡ c.0 = e ∙ last-append null kept c [] in rw append-nil (ground arith)
tail_removed kept c (r ∷ rest) t e out =
    let at : t ≡ last r.0 rest = e ∙ last-append null kept c (r ∷ rest) in
    let to : last null (kept ++ (r ∷ rest)) ≡ last r.0 rest = last-append null kept r rest in
    ground (arith, last-mem r rest)

unlink-Removed :
    (w : World) (q : Mq) (kept : List Cell) (c : Cell) (rest : List Cell)
    → IsQueue w.heap q (kept ++ (c ∷ rest))
    → Removed w q kept c rest (unlink (last null kept) c.0 q w)
unfolding unlink put
unlink-Removed w q kept c rest is =
    let (this, front, back, apart) = split kept (c ∷ rest) is.chain in
    let hd = Head-of back in
    let m = hd.message in
    let b = bypass_lem w q (last null kept) this m.next kept front refl in
    let out : c.0 ∉ kept = not-mem_of_apart kept c rest apart in
    let held : b.heap c.0 ≡ some m = b.same c.0 out ∙ hd.held in
    record {
      mq = record q {
        head = b.head;
        tail = if c.0 == q.tail then last null kept else q.tail;
        count = decr q.count;
      };
      heap = put b.heap c.0 (some (record m { next = null }));
      message = m;
      result = rw (
        load_done c.0 m w hd.ne hd.held,
        b.run,
        set_next_done c.0 m (record w { heap = b.heap }) hd.ne held null,
      );
      queue = record {
        chain = closed w q kept c rest hd b apart _ λ a ne. ground arith;
        tail = tail_removed kept c rest q.tail is.tail hd.out;
        count =
            omega (arith, is.count, length-append {0} kept (c ∷ rest), length-append {0} kept rest);
      };
      held = ground arith;
      contents = hd.contents;
      same =
          λ a o. let os = not-mem-append_inv a kept (c ∷ rest) o in ground (arith, b.same a os.0);
      settings = (refl, refl);
    }

-- The first message of a type, and the messages before it.
unfoldable pub before : ℕ → List Cell → List Cell
before type [] = []
before type ((p, (t, d)) ∷ xs) = if t == type then [] else (p, (t, d)) ∷ before type xs

unfoldable pub from : ℕ → List Cell → List Cell
from type [] = []
from type ((p, (t, d)) ∷ xs) = if t == type then (p, (t, d)) ∷ xs else from type xs

pub before-append-from : (type : ℕ) (xs : List Cell) → before type xs ++ from type xs ≡ xs
unfolding before from
before-append-from type [] = refl
before-append-from type (x ∷ xs) = ground (arith, before-append-from type xs)

pub first : List Cell → Ptr
first [] = null
first (x ∷ _) = x.0

-- The search changes nothing, and stops at the first message of the type.
find_type_lem :
    (fuel type : ℕ) (prev this : Ptr) (w : World) (xs : List Cell)
    → Chain w.heap null this xs
    → length xs < fuel
    → find_type fuel type prev this w ≡ done (last prev (before type xs), first (from type xs)) w
unfolding find_type before from first
find_type_lem zero type prev this w xs s enough = absurd (omega arith)
find_type_lem (suc fuel) type prev this w [] nil enough = refl
find_type_lem (suc fuel) type prev this w (x ∷ xs) (cons {m} ne e to out s) enough =
    rw (not_null this m w ne e, load_done this m w ne e)
      (elim (Bool-cases (m.type == type)) [
        | inl hit ↦ rw hit
        | inr miss ↦ rw miss (find_type_lem fuel type this m.next w xs (rw to s) (omega arith))
      ])

-- What taking the first message of `back`, behind `front`, comes to.
abbrev pub Taken : World → Mq → List Cell → List Cell → Run (Ptr × Mq) → Type 0
Taken w q front [] run = run ≡ done (null, q) w
Taken w q front (c ∷ rest) run = Removed w q front c rest run

take_at :
    (w : World) (q : Mq) (type : ℕ) (front back : List Cell)
    → IsQueue w.heap q (front ++ back)
    → Taken w q front back
        ((if first back == null then pure (null, q) else unlink (last null front) (first back) q) w)
unfolding first
take_at w q type front [] is = refl
take_at w q type front (c ∷ rest) is =
    let (this, front_chain, back, apart) = split front (c ∷ rest) is.chain in
    let hd = Head-of back in
    rw (not_null c.0 hd.message w hd.ne hd.held) (unlink-Removed w q front c rest is)

-- `pop_w_type` on a queue of fewer messages than its fuel: if a message has the type, the first
-- such message is unlinked and handed out with no successor, the others stay linked in their
-- order, and only messages of the queue are written; otherwise the null pointer is handed out and
-- nothing changes.
pub pop_w_type-Taken :
    (fuel type : ℕ) (w : World) (q : Mq) (xs : List Cell)
    → IsQueue w.heap q xs
    → length xs < fuel
    → Taken w q (before type xs) (from type xs) (pop_w_type fuel q type w)
unfolding pop_w_type
pop_w_type-Taken fuel type w q xs is enough =
    rw (find_type_lem fuel type null q.head w xs is.chain enough)
      (take_at w q type (before type xs) (from type xs) (rw (before-append-from type xs) is))

pub ends :
    {h : Heap} {p : Ptr} (c : Cell) (rest : List Cell)
    → Chain h null p rest
    → c.0 ∉ rest
    → (p == null) ≡ (c.0 == last c.0 rest)
ends c [] nil out = ground arith
ends c (r ∷ rest) (cons ne e to out' s) out = ground (arith, last-mem r rest)

pop-unlink :
    (w : World) (q : Mq) (c : Cell) (rest : List Cell)
    → IsQueue w.heap q (c ∷ rest)
    → pop q w ≡ unlink null c.0 q w
unfolding pop unlink bypass
pop-unlink w q c rest is =
    let hd = Head-of is.chain in
    let m = hd.message in
    let ne : q.head ≢ null = λ e. hd.ne (sym hd.at ∙ e) in
    let held : w.heap q.head ≡ some m = rw hd.at hd.held in
    let same : (m.next == null) ≡ (c.0 == q.tail) = rw is.tail (ends c rest hd.behind hd.out) in
    rw
      (
        not_null q.head m w ne held,
        load_done q.head m w ne held,
        set_next_done q.head m w ne held null,
        load_done c.0 m w hd.ne hd.held,
        set_next_done c.0 m w hd.ne hd.held null,
        same,
      )
      (λ i.
        done
          (
            hd.at i,
            record q {
              head = m.next;
              tail = if c.0 == q.tail then null else q.tail;
              count = decr q.count;
            },
          )
          (record w { heap = put w.heap (hd.at i) (some (record m { next = null })) }))

pub empty_head : {h : Heap} {p : Ptr} → Chain h null p [] → p ≡ null
empty_head nil = refl

-- `pop` hands out the first message of the queue with no successor, the others stay linked in
-- their order, and only messages of the queue are written; on an empty queue it hands out the
-- null pointer and nothing changes.
pub pop-Taken :
    (w : World) (q : Mq) (xs : List Cell) → IsQueue w.heap q xs → Taken w q [] xs (pop q w)
unfolding pop
pop-Taken w q [] is = let e : (q.head == null) ≡ true = ground (arith, empty_head is.chain) in rw e
pop-Taken w q (c ∷ rest) is = rw (pop-unlink w q c rest is) (unlink-Removed w q [] c rest is)
