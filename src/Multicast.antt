-- ===== src/Multicast.antt =====
-- analyzer/impl/mc_processor.c and analyzer/impl/processors/encap.c: the reassembly of a message
-- that a server sent to a multicast group in fragments.
pub mod Encap
pub mod Copy
pub mod Fragments
pub mod Delivery
pub mod Repeats
pub mod Processor
pub mod Dispatch
mod Runs
