-- ===== src/Cbor.antt =====
-- util/cbor.c and util/cbor.h: a compact binary encoding of integers, floats, blobs and strings,
-- by which the analyzer's messages travel between a client and a remote analyzer.
pub mod MajorType
pub mod Addl
pub mod Format
pub mod Pack
pub mod Unpack
pub mod Wire
pub mod Items
pub mod Writes
pub mod Success
pub mod Integers
pub mod Blobs
pub mod RoundTrip
pub mod Errors
pub mod Refusals
pub mod EmptyBlob
mod Runs
