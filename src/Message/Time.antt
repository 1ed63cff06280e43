-- ===== src/Message/Time.antt =====
-- `struct timeval` as the messages of analyzer/msg.h hold it. A number is its bits, so that one field of 64
-- bits has the seconds; the microseconds are those that the packers can send, below 2 ^ 32.
use suscan.Prelude.{ℕ}

pub record Time : Type 0 where
  pub sec : ℕ
  pub usec : ℕ
