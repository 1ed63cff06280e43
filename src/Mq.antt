-- ===== src/Mq.antt =====
-- analyzer/mq.c: queues of messages, the channels between the threads of the analyzer.
pub mod Store
pub mod Seg
pub mod Pool
pub mod Queue
pub mod Chain
pub mod Remove
pub mod Insert
pub mod Free
pub mod Cleanup
pub mod Settle
pub mod Fresh
pub mod State
pub mod Finish
pub mod Trace
pub mod Refinement
mod Runs
