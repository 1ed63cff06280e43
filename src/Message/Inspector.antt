-- ===== src/Message/Inspector.antt =====
-- `struct suscan_analyzer_inspector_msg`, of analyzer/msg.c.
pub mod Bodies
pub mod Orbit
pub mod Open
pub mod Kind
pub mod Body
pub mod Envelope
