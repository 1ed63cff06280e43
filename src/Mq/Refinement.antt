-- ===== src/Mq/Refinement.antt =====
-- The queue in memory behaves as the list of its messages.
use suscan.Prelude.{
  ℕ, zero, suc, ◌+◌, ◌≤◌, ◌<◌, ◌≡◌, ◌≢◌, refl, sym, ap, ◌∙◌, true, false, ◌⊎◌, inl, inr, some, none,
  List, [], ◌∷◌, ◌++◌, arith, ◌==◌, length, length-append, Bool-cases, All, append-nil,
}
use suscan.Mq.Store.{Ptr, null, World, Run, done, and_then, pure}
use suscan.Mq.Seg.{Cell}
use suscan.Mq.Pool.{Malloc}
use suscan.Mq.Queue.{Mq, poll_internal}
use suscan.Mq.Remove.{before, from, before-append-from}
use suscan.Mq.Settle.{settled}
use suscan.Mq.Fresh.{IsState, IsFresh}
use suscan.Mq.State.{
  write-Wrote, write_urgent-Wrote, write_no_memory, Polled, poll-Polled, poll_w_type-Polled,
}
use suscan.Mq.Trace.{
  items, Op, write_op, urgent_op, poll_op, poll_type_op, Answer, wrote, polled, perform,
  perform_all, settled_items, Spec, wrote_last, wrote_first, failed_last, failed_first, first_out,
  none_out, type_out, no_type_out, Specs, end, next, items-append, items-settled, length-settled,
}

memory_cases : (p r : Ptr) → ((p ≢ null) ⊎ (r ≢ null)) ⊎ ((p ≡ null) × (r ≡ null))
memory_cases zero zero = inr (refl, refl)
memory_cases zero (suc r) = inl (inr (ground arith))
memory_cases (suc p) r = inl (inl (ground arith))

before-All : (type : ℕ) (xs : List Cell) → All (λ i. i.0 ≢ type) (items (before type xs))
unfolding before
before-All type [] = tt
before-All type ((p, (t, d)) ∷ xs) = elim (Bool-cases (t == type)) [
  | inl hit ↦ rw hit tt
  | inr miss ↦ rw miss (ground arith, before-All type xs)
]

from-type :
    (type : ℕ) (xs : List Cell) (c : Cell) (rest : List Cell)
    → from type xs ≡ c ∷ rest
    → c.1.0 ≡ type
unfolding from
from-type type [] c rest e = cc
from-type type ((p, (t, d)) ∷ xs) c rest e = ground (arith, from-type type xs c rest)

-- The call ended as a call on the list may end.
record Simulated (q : Mq) (xs : List Cell) (op : Op) (run : Run (Answer × Mq)) : Type 0 where
  answer : Answer
  mq : Mq
  world : World
  left : List Cell
  result : run ≡ done (answer, mq) world
  state : IsState world mq left
  spec : Spec q.cleanup_watermark q.callbacks (items xs) op answer (items left)
  bound : length left ≤ length xs + 1
  settings : (mq.cleanup_watermark ≡ q.cleanup_watermark) × (mq.callbacks ≡ q.callbacks)

module _ (fuel : ℕ) (fresh : Malloc) (w : World) (q : Mq) (xs : List Cell) (is : IsState w q xs)
    (is_fresh : IsFresh w fresh) (enough : length xs + 1 < fuel) where
  write-Simulated :
      (type private : ℕ)
      → Simulated q xs (write_op type private) (perform fuel fresh (write_op type private) q w)
  unfolding perform
  write-Simulated type private = elim (memory_cases w.pool fresh.ptr) [
    | inl room ↦
        let r = write-Wrote fuel fresh w q xs type private is is_fresh enough room in
        let ys : List Cell = xs ++ ((r.ptr, (type, private)) ∷ []) in
        let same : items (settled q.cleanup_watermark q.callbacks ys)
            ≡ settled_items q.cleanup_watermark q.callbacks (items xs ++ ((type, private) ∷ [])) =
          rw (items-settled, items-append xs ((r.ptr, (type, private)) ∷ [])) in
        record {
          answer = wrote true;
          mq = r.mq;
          world = r.world;
          left = settled q.cleanup_watermark q.callbacks ys;
          result = rw r.result;
          state = r.state;
          spec = rw same (wrote_last type private);
          bound = omega (
            arith,
            length-settled q.cleanup_watermark q.callbacks ys,
            length-append {0} xs ((r.ptr, (type, private)) ∷ []),
          );
          settings = r.settings;
        }
    | inr (a, b) ↦ record {
      answer = wrote false;
      mq = q;
      world = w;
      left = xs;
      result = rw (write_no_memory fuel fresh w q type private a b).0;
      state = is;
      spec = failed_last type private;
      bound = omega arith;
      settings = (refl, refl);
    }
  ]

  urgent-Simulated :
      (type private : ℕ)
      → Simulated q xs (urgent_op type private) (perform fuel fresh (urgent_op type private) q w)
  unfolding perform
  urgent-Simulated type private = elim (memory_cases w.pool fresh.ptr) [
    | inl room ↦
        let r = write_urgent-Wrote fuel fresh w q xs type private is is_fresh enough room in
        let ys : List Cell = (r.ptr, (type, private)) ∷ xs in
        record {
          answer = wrote true;
          mq = r.mq;
          world = r.world;
          left = settled q.cleanup_watermark q.callbacks ys;
          result = rw r.result;
          state = r.state;
          spec = rw (items-settled q.cleanup_watermark q.callbacks ys) (wrote_first type private);
          bound = omega (arith, length-settled q.cleanup_watermark q.callbacks ys);
          settings = r.settings;
        }
    | inr (a, b) ↦ record {
      answer = wrote false;
      mq = q;
      world = w;
      left = xs;
      result = rw (write_no_memory fuel fresh w q type private a b).1;
      state = is;
      spec = failed_first type private;
      bound = omega arith;
      settings = (refl, refl);
    }
  ]

  poll_type-Simulated :
      (type : ℕ) → Simulated q xs (poll_type_op type) (perform fuel fresh (poll_type_op type) q w)
  unfolding perform
  poll_type-Simulated type =
      go (from type xs) refl (poll_w_type-Polled fuel w q xs type is (omega arith))
    where
      whole : before type xs ++ from type xs ≡ xs
      whole = before-append-from type xs

      go :
          (back : List Cell)
          → from type xs ≡ back
          → Polled w q (before type xs) back (poll_internal fuel q (some type) w)
          → Simulated q xs
              (poll_type_op type)
              (and_then (poll_internal fuel q (some type) w) (λ r. pure (polled r.0, r.1)))
      go [] e r =
          let all : before type xs ≡ xs =
            sym (append-nil (before type xs)) ∙ ap (λ l. before type xs ++ l) (sym e) ∙ whole in
          rw r (record {
            answer = polled none;
            mq = q;
            world = w;
            left = xs;
            result = refl;
            state = is;
            spec = no_type_out type (rw all at (before-All type xs));
            bound = omega arith;
            settings = (refl, refl);
          })
      go ((p, (t, d)) ∷ rest) e r =
          let t_is : t ≡ type = from-type type xs (p, (t, d)) rest e in
          let parts : before type xs ++ ((p, (t, d)) ∷ rest) ≡ xs =
            ap (λ l. before type xs ++ l) (sym e) ∙ whole in
          record {
            answer = polled (some (t, d));
            mq = r.mq;
            world = r.world;
            left = before type xs ++ rest;
            result = rw r.result;
            state = r.state;
            spec =
                rw (t_is, items-append (before type xs) rest)
                  (type_out type d (items (before type xs)) (items rest)
                    (ap items (sym parts)
                      ∙ items-append (before type xs) ((p, (t, d)) ∷ rest)
                      ∙ ap (λ k. items (before type xs) ++ ((k, d) ∷ items rest)) t_is)
                    (before-All type xs));
            bound = omega (
              arith,
              ap length parts,
              length-append {0} (before type xs) ((p, (t, d)) ∷ rest),
              length-append {0} (before type xs) rest,
            );
            settings = r.settings;
          }

poll-Simulated :
    (fuel : ℕ) (fresh : Malloc) (w : World) (q : Mq) (xs : List Cell)
    → IsState w q xs
    → Simulated q xs poll_op (perform fuel fresh poll_op q w)
unfolding perform
poll-Simulated fuel fresh w q [] is = record {
  answer = polled none;
  mq = q;
  world = w;
  left = [];
  result = rw (poll-Polled fuel w q [] is);
  state = is;
  spec = none_out refl;
  bound = omega arith;
  settings = (refl, refl);
}
poll-Simulated fuel fresh w q (c ∷ rest) is =
    let r = poll-Polled fuel w q (c ∷ rest) is in
    record {
      answer = polled (some c.1);
      mq = r.mq;
      world = r.world;
      left = rest;
      result = rw r.result;
      state = r.state;
      spec = first_out c.1 (items rest) refl;
      bound = omega arith;
      settings = r.settings;
    }

perform-Simulated :
    (fuel : ℕ) (fresh : Malloc) (op : Op) (w : World) (q : Mq) (xs : List Cell)
    → IsState w q xs
    → IsFresh w fresh
    → length xs + 1 < fuel
    → Simulated q xs op (perform fuel fresh op q w)
perform-Simulated fuel fresh (write_op type private) w q xs is is_fresh enough =
    write-Simulated fuel fresh w q xs is is_fresh enough type private
perform-Simulated fuel fresh (urgent_op type private) w q xs is is_fresh enough =
    urgent-Simulated fuel fresh w q xs is is_fresh enough type private
perform-Simulated fuel fresh poll_op w q xs is is_fresh enough = poll-Simulated fuel fresh w q xs is
perform-Simulated fuel fresh (poll_type_op type) w q xs is is_fresh enough =
    poll_type-Simulated fuel fresh w q xs is is_fresh enough type

-- A run of calls ended as one on the list of messages may end.
pub record Refines (q : Mq) (xs : List Cell) (ops : List Op) (run : Run (List Answer × Mq))
    : Type 0 where
  pub answers : List Answer
  pub mq : Mq
  pub world : World
  pub left : List Cell
  pub result : run ≡ done (answers, mq) world
  pub state : IsState world mq left
  pub specs : Specs q.cleanup_watermark q.callbacks (items xs) ops answers (items left)

-- Any sequence of writes, urgent writes, polls and polls by type on a well-formed queue ends
-- without a fault, with the answers that a plain list of messages may give and a well-formed queue
-- of the messages that the list then holds: writes go to the end, urgent ones to the front, polls
-- take the first message, or the first of a type, and a cleanup drops what its callback names. It
-- holds for every `malloc` that hands out the null pointer or unused memory, and for fuel above
-- the number of messages that can be in the queue.
pub perform_all-Refines :
    (fuel : ℕ) (malloc : World → Malloc) (ops : List Op) (w : World) (q : Mq) (xs : List Cell)
    → ((w' : World) → IsFresh w' (malloc w'))
    → IsState w q xs
    → length xs + length ops + 1 < fuel
    → Refines q xs ops (perform_all fuel malloc ops q w)
unfolding perform_all
perform_all-Refines fuel malloc [] w q xs is_fresh is enough = record {
  answers = [];
  mq = q;
  world = w;
  left = xs;
  result = refl;
  state = is;
  specs = end;
}
perform_all-Refines fuel malloc (op ∷ ops) w q xs is_fresh is enough =
    let s = perform-Simulated fuel (malloc w) op w q xs is (is_fresh w) (omega arith) in
    let r =
      perform_all-Refines fuel malloc ops s.world s.mq s.left is_fresh s.state
        (omega (arith, s.bound)) in
    record {
      answers = s.answer ∷ r.answers;
      mq = r.mq;
      world = r.world;
      left = r.left;
      result = rw (s.result, r.result);
      state = r.state;
      specs = next s.spec (rw (s.settings.0, s.settings.1) at r.specs);
    }
