-- ===== src/Mq/Queue.antt =====
-- The queue of analyzer/mq.c. A `struct suscan_mq` lives outside the heap, so a function that
-- changes one returns it. The lock that each public function holds makes it one step; the
-- condition variable carries no data. A loop over the messages runs on fuel.
use suscan.Prelude.{
  ℕ, zero, suc, ◌+◌, ◌-◌, ◌%◌, ◌^◌, Bool, true, false, Option, some, none, ltb, leb, ◌==◌,
  if◌then◌else◌, ◌&&◌,
}
use suscan.Mq.Store.{Ptr, null, Cmd, out_of_fuel, pure, ◌>>=◌, ◌>>◌, load, set_next}
use suscan.Mq.Pool.{Malloc, msg_new, msg_destroy}

-- `struct suscan_mq_callbacks`, with what its callbacks answer: `pre_cleanup` a context, the null
-- pointer for a failure, and `try_destroy` whether the message is to go. `none` is no callback.
-- `post_cleanup` only releases the context, and is left out.
pub record Callbacks : Type 0 where
  pub pre_cleanup : Option Ptr
  pub try_destroy : Option (Ptr → ℕ → Ptr → Bool)

-- `struct suscan_mq`, whose `count` is an `unsigned int`
pub record Mq : Type 0 where
  pub head : Ptr
  pub tail : Ptr
  pub count : ℕ
  pub cleanup_watermark : ℕ
  pub callbacks : Callbacks

abbrev pub incr : ℕ → ℕ
incr count = (count + 1) % 2 ^ 32

abbrev pub decr : ℕ → ℕ
decr count = (count + 2 ^ 32 - 1) % 2 ^ 32

-- The message behind `prev`, or the head of the queue, becomes `next`.
unfoldable pub bypass : Ptr → Ptr → Mq → Cmd Mq
bypass prev next mq =
    if prev == null then pure (record mq { head = next }) else (set_next prev next >> pure mq)

-- The loop of `suscan_mq_trigger_cleanup`.
unfoldable pub cleanup_loop : ℕ → (ℕ → Ptr → Bool) → (prev this : Ptr) → Mq → Cmd Mq
cleanup_loop zero destroy prev this mq = λ _. out_of_fuel
cleanup_loop (suc fuel) destroy prev this mq = if this == null then pure mq else do
  m ← load this
  (if destroy m.type m.privdata
      then (do
        mq' ← bypass prev m.next mq
        msg_destroy this
        cleanup_loop fuel destroy prev m.next (record mq' {
          tail = if m.next == null then prev else mq'.tail;
          count = decr mq'.count;
        }))
      else cleanup_loop fuel destroy this m.next mq)

-- `cu_user`, or nothing where `pre_cleanup` fails
unfoldable pub cleanup_context : Callbacks → Option Ptr
cleanup_context c = elim c.pre_cleanup [
  | none ↦ some null
  | some user ↦ if user == null then none else some user
]

-- What follows, given the context and the callback.
unfoldable pub cleanup_with : ℕ → Option Ptr → Option (Ptr → ℕ → Ptr → Bool) → Mq → Cmd (Bool × Mq)
cleanup_with fuel none try_destroy mq = pure (false, mq)
cleanup_with fuel (some user) none mq = pure (true, mq)
cleanup_with fuel (some user) (some destroy) mq = do
  mq' ← cleanup_loop fuel (destroy user) null mq.head mq
  pure (true, mq')

-- `suscan_mq_trigger_cleanup`: whether it succeeds, and the queue.
unfoldable pub trigger_cleanup : ℕ → Mq → Cmd (Bool × Mq)
unfolding cleanup_context
trigger_cleanup fuel mq =
    cleanup_with fuel (cleanup_context mq.callbacks) mq.callbacks.try_destroy mq

-- `suscan_mq_cleanup_if_needed`
unfoldable pub cleanup_if_needed : ℕ → Mq → Cmd Mq
cleanup_if_needed fuel mq =
    if ltb 0 mq.cleanup_watermark && leb mq.cleanup_watermark mq.count
    then (do (_, mq') ← trigger_cleanup fuel mq; pure mq')
    else pure mq

-- `suscan_mq_push_front`
unfoldable pub push_front : ℕ → Mq → Ptr → Cmd Mq
push_front fuel mq msg = do
  set_next msg mq.head
  cleanup_if_needed fuel (record mq {
    head = msg;
    tail = if mq.tail == null then msg else mq.tail;
    count = incr mq.count;
  })

-- `suscan_mq_push`
unfoldable pub push : ℕ → Mq → Ptr → Cmd Mq
push fuel mq msg = do
  (if mq.tail == null then pure tt else set_next mq.tail msg)
  cleanup_if_needed fuel (record mq {
    tail = msg;
    head = if mq.head == null then msg else mq.head;
    count = incr mq.count;
  })

-- `suscan_mq_pop`
unfoldable pub pop : Mq → Cmd (Ptr × Mq)
pop mq = if mq.head == null then pure (null, mq) else do
  m ← load mq.head
  set_next mq.head null
  pure (
    mq.head,
    record mq {
      head = m.next;
      tail = if m.next == null then null else mq.tail;
      count = decr mq.count;
    },
  )

-- The search of `suscan_mq_pop_w_type`: the message of the type and the one before it.
unfoldable pub find_type : ℕ → ℕ → (prev this : Ptr) → Cmd (Ptr × Ptr)
find_type zero type prev this = λ _. out_of_fuel
find_type (suc fuel) type prev this = if this == null then pure (prev, this) else do
  m ← load this
  if m.type == type then pure (prev, this) else find_type fuel type this m.next

unfoldable pub unlink : (prev this : Ptr) → Mq → Cmd (Ptr × Mq)
unlink prev this mq = do
  m ← load this
  mq' ← bypass prev m.next mq
  set_next this null
  pure (
    this,
    record mq' { tail = if this == mq'.tail then prev else mq'.tail; count = decr mq'.count },
  )

-- `suscan_mq_pop_w_type`
unfoldable pub pop_w_type : ℕ → Mq → ℕ → Cmd (Ptr × Mq)
unfolding find_type unlink
pop_w_type fuel mq type = do
  (prev, this) ← find_type fuel type null mq.head
  if this == null then pure (null, mq) else unlink prev this mq

-- `suscan_mq_poll_msg_internal`; `none` stands for no type.
unfoldable pub poll_msg_internal : ℕ → Mq → Option ℕ → Cmd (Ptr × Mq)
poll_msg_internal fuel mq with_type = elim with_type [
  | none ↦ pop mq
  | some type ↦ pop_w_type fuel mq type
]

-- `suscan_mq_poll_internal`: the type and the data of the message, which is given back.
unfoldable pub poll_internal : ℕ → Mq → Option ℕ → Cmd (Option (ℕ × Ptr) × Mq)
poll_internal fuel mq with_type = do
  (msg, mq') ← poll_msg_internal fuel mq with_type
  (if msg == null
      then pure (none, mq')
      else (do m ← load msg; msg_destroy msg; pure (some (m.type, m.privdata), mq')))

-- `suscan_mq_write` and `suscan_mq_write_urgent`
unfoldable pub write : ℕ → Malloc → Mq → ℕ → Ptr → Cmd (Bool × Mq)
write fuel fresh mq type private = do
  msg ← msg_new fresh type private
  if msg == null then pure (false, mq) else (do mq' ← push fuel mq msg; pure (true, mq'))

unfoldable pub write_urgent : ℕ → Malloc → Mq → ℕ → Ptr → Cmd (Bool × Mq)
write_urgent fuel fresh mq type private = do
  msg ← msg_new fresh type private
  if msg == null then pure (false, mq) else (do mq' ← push_front fuel mq msg; pure (true, mq'))

-- `suscan_mq_init`, where the lock and the condition variable can be made
unfoldable pub init : Mq
init = record {
  head = null;
  tail = null;
  count = 0;
  cleanup_watermark = 0;
  callbacks = record { pre_cleanup = none; try_destroy = none };
}

-- The loop of `suscan_mq_finalize`.
unfoldable pub finalize : ℕ → Mq → Cmd Mq
finalize zero mq = λ _. out_of_fuel
finalize (suc fuel) mq = do
  (msg, mq') ← pop mq
  if msg == null then pure mq' else (do msg_destroy msg; finalize fuel mq')

-- `suscan_mq_set_cleanup_watermark` and `suscan_mq_set_callbacks`
unfoldable pub set_cleanup_watermark : Mq → ℕ → Mq
set_cleanup_watermark self watermark = record self { cleanup_watermark = watermark }

unfoldable pub set_callbacks : Mq → Callbacks → Mq
set_callbacks self callbacks = record self { callbacks = callbacks }
