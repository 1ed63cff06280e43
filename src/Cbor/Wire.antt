-- ===== src/Cbor/Wire.antt =====
-- What the packers put on the wire, in plain bytes, and the rules for calls that read and write.
pub mod Endian
pub mod Reads
pub mod Header
pub mod Heads
