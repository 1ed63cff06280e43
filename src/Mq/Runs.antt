-- ===== src/Mq/Runs.antt =====
-- Runs of the queue (analyzer/mq.c): a queue of one message beside a pool of one, with a cleanup
-- at two messages that drops those of type 7.
use suscan.Prelude.{
  ◌≡◌, ◌≢◌, refl, false, inl, Option, some, none, List, [], ◌∷◌, ◌++◌, arith, ◌==◌, if◌then◌else◌,
}
use suscan.Mq.Store.{null, Msg, Heap, World, done}
use suscan.Mq.Seg.{Cell, nil, cons, cell, Apart}
use suscan.Mq.Pool.{Malloc}
use suscan.Mq.Queue.{
  Mq, finalize, write, write_urgent, poll_internal, pop, pop_w_type, push, push_front, cleanup_loop,
}
use suscan.Mq.Chain.{IsQueue}
use suscan.Mq.Remove.{Taken, before, from, pop-Taken, pop_w_type-Taken}
use suscan.Mq.Cleanup.{Ends, spared, cleanup_loop-Ends}
use suscan.Mq.Settle.{settled, push-Ends, push_front-Ends}
use suscan.Mq.Fresh.{IsState, IsFresh}
use suscan.Mq.State.{
  Wrote, write-Wrote, write_urgent-Wrote, write_no_memory, Polled, poll-Polled, poll_w_type-Polled,
}
use suscan.Mq.Finish.{Finished, finalize-Finished}
use suscan.Mq.Trace.{Op, write_op, urgent_op, poll_op, poll_type_op, perform_all}
use suscan.Mq.Refinement.{Refines, perform_all-Refines}

abbrev queued : Msg
queued = record { type = 7; privdata = 9; next = 0; free_next = 0 }

abbrev spare_msg : Msg
spare_msg = record { type = 1; privdata = 1; next = 0; free_next = 0 }

-- A message that is in no list, at 8
abbrev loose : Msg
loose = record { type = 3; privdata = 4; next = 0; free_next = 0 }

abbrev memory : Heap
memory a =
    if a == 5
    then some queued
    else if a == 6
    then some spare_msg
    else if a == 8
    then some loose
    else none

abbrev world : World
world = record { heap = memory; pool = 6; pool_size = 1; pool_peak = 1 }

abbrev queue : Mq
queue = record {
  head = 5;
  tail = 5;
  count = 1;
  cleanup_watermark = 2;
  callbacks = record { pre_cleanup = none; try_destroy = some (λ user type privdata. type == 7) };
}

abbrev one_message : List Cell
one_message = (5, (7, 9)) ∷ []

abbrev one_spare : List Cell
one_spare = (6, (1, 1)) ∷ []

-- Memory at 100, while that is not in use
abbrev answer : Option Msg → Malloc
answer none = record { ptr = 100; garbage = spare_msg }
answer (some m) = record { ptr = 0; garbage = spare_msg }

abbrev malloc : World → Malloc
malloc w = answer (w.heap 100)

malloc-IsFresh : (w : World) → IsFresh w (malloc w)
malloc-IsFresh w = go (w.heap 100) refl
  where
    go : (o : Option Msg) → w.heap 100 ≡ o → (answer o).ptr ≢ null → w.heap (answer o).ptr ≡ none
    go none e ne = e
    go (some m) e ne = absurd (ne refl)

queue-IsQueue : IsQueue memory queue one_message
queue-IsQueue = record {
  chain = cons {m = queued} (omega arith) refl refl refl nil;
  tail = refl;
  count = refl;
}

apart : Apart one_spare one_message
apart a i = ground arith

state : IsState world queue one_message
state = record {
  queue = queue-IsQueue;
  spare = one_spare;
  pool = record {
    chain = cons {m = spare_msg} (omega arith) refl refl refl nil;
    size = refl;
    bound = omega arith;
  };
  apart = apart;
}

abbrev ops : List Op
ops = write_op 3 4 ∷ urgent_op 2 1 ∷ poll_type_op 3 ∷ poll_op ∷ poll_op ∷ []

perform_all-Refines_example : Refines queue one_message ops (perform_all 10 malloc ops queue world)
perform_all-Refines_example =
    perform_all-Refines 10 malloc ops world queue one_message malloc-IsFresh state (omega arith)

write-Wrote_example :
    Wrote queue 3 4 (λ c. one_message ++ (c ∷ [])) (write 10 (malloc world) queue 3 4 world)
write-Wrote_example =
    write-Wrote 10 (malloc world) world queue one_message 3 4 state (malloc-IsFresh world)
      (omega arith) (inl (omega arith))

write_urgent-Wrote_example :
    Wrote queue 3 4 (λ c. c ∷ one_message) (write_urgent 10 (malloc world) queue 3 4 world)
write_urgent-Wrote_example =
    write_urgent-Wrote 10 (malloc world) world queue one_message 3 4 state (malloc-IsFresh world)
      (omega arith) (inl (omega arith))

abbrev no_malloc : Malloc
no_malloc = record { ptr = 0; garbage = spare_msg }

abbrev no_pool : World
no_pool = record { heap = memory; pool = 0; pool_size = 0; pool_peak = 1 }

write_no_memory_example :
    (write 10 no_malloc queue 3 4 no_pool ≡ done (false, queue) no_pool)
    × (write_urgent 10 no_malloc queue 3 4 no_pool ≡ done (false, queue) no_pool)
write_no_memory_example = write_no_memory 10 no_malloc no_pool queue 3 4 refl refl

poll-Polled_example : Polled world queue [] one_message (poll_internal 10 queue none world)
poll-Polled_example = poll-Polled 10 world queue one_message state

poll_w_type-Polled_example :
    Polled world queue
      (before 7 one_message)
      (from 7 one_message)
      (poll_internal 10 queue (some 7) world)
poll_w_type-Polled_example = poll_w_type-Polled 10 world queue one_message 7 state (omega arith)

pop-Taken_example : Taken world queue [] one_message (pop queue world)
pop-Taken_example = pop-Taken world queue one_message queue-IsQueue

pop_w_type-Taken_example :
    Taken world queue (before 7 one_message) (from 7 one_message) (pop_w_type 10 queue 7 world)
pop_w_type-Taken_example = pop_w_type-Taken 10 7 world queue one_message queue-IsQueue (omega arith)

push-Ends_example :
    Ends world queue
      (cell 8 loose ∷ one_message)
      (settled queue.cleanup_watermark queue.callbacks (one_message ++ (cell 8 loose ∷ [])))
      (push 10 queue 8 world)
push-Ends_example =
    push-Ends 10 world queue 8 loose (omega arith) refl one_message queue-IsQueue refl refl
      (omega arith)

push_front-Ends_example :
    Ends world queue
      (cell 8 loose ∷ one_message)
      (settled queue.cleanup_watermark queue.callbacks (cell 8 loose ∷ one_message))
      (push_front 10 queue 8 world)
push_front-Ends_example =
    push_front-Ends 10 world queue 8 loose (omega arith) refl one_message queue-IsQueue refl
      (omega arith)

cleanup_loop-Ends_example :
    Ends world queue one_message
      (spared (λ type privdata. type == 7) one_message)
      (cleanup_loop 10 (λ type privdata. type == 7) 0 5 queue world)
cleanup_loop-Ends_example =
    cleanup_loop-Ends 10 (λ type privdata. type == 7) 5 world queue [] one_message queue-IsQueue
      queue-IsQueue.chain (omega arith)

finalize-Finished_example : Finished (finalize 10 queue world)
finalize-Finished_example = finalize-Finished 10 world queue one_message state (omega arith)
