-- ===== src/Mq/Pool.antt =====
-- The pool of free messages of analyzer/mq.c, built with `SUSCAN_MQ_USE_POOL`.
use suscan.Prelude.{ℕ, ◌+◌, ◌-◌, some, ltb, ◌==◌, if◌then◌else◌}
use suscan.Mq.Store.{Ptr, null, Msg, Cmd, pure, ◌>>=◌, ◌>>◌, load, store, set_free_next, free}

-- `SUSCAN_MQ_POOL_OVERFLOW_THRESHOLD`
abbrev pub pool_overflow_threshold : ℕ
pool_overflow_threshold = 300

-- What `malloc` answers: a pointer, and the bytes that stand there.
pub record Malloc : Type 0 where
  pub ptr : Ptr
  pub garbage : Msg

unfoldable pub take_pooled : Cmd Ptr
take_pooled w =
    (do
      msg ← load w.pool
      λ w'. pure w.pool (record w' { pool = msg.free_next; pool_size = w'.pool_size - 1 }))
      w

unfoldable pub take_fresh : Malloc → Cmd Ptr
take_fresh fresh =
    if fresh.ptr == null
    then pure null
    else (store fresh.ptr (some fresh.garbage) >> pure fresh.ptr)

-- `suscan_mq_alloc_msg`
unfoldable pub alloc_msg : Malloc → Cmd Ptr
unfolding take_pooled take_fresh
alloc_msg fresh w = (if w.pool == null then take_fresh fresh else take_pooled) w

unfoldable pub keep_pooled : Ptr → Cmd (Unit {0})
keep_pooled msg w =
    (do
      set_free_next msg w.pool
      λ w'.
          let size = w'.pool_size + 1 in
          pure tt (record w' {
            pool = msg;
            pool_size = size;
            pool_peak = if ltb w'.pool_peak size then size else w'.pool_peak;
          }))
      w

-- `suscan_mq_return_msg`, without its log line
unfoldable pub return_msg : Ptr → Cmd (Unit {0})
unfolding keep_pooled
return_msg msg w = (if ltb w.pool_size pool_overflow_threshold then keep_pooled msg else free msg) w

-- `suscan_msg_new`: the null pointer where there is no memory.
unfoldable pub msg_new : Malloc → ℕ → Ptr → Cmd Ptr
msg_new fresh type private = do
  new ← alloc_msg fresh
  (if new == null then pure null else (do
    m ← load new
    store new (some (record m { type = type; privdata = private; next = null }))
    pure new))

-- `suscan_msg_destroy`
unfoldable pub msg_destroy : Ptr → Cmd (Unit {0})
msg_destroy = return_msg
