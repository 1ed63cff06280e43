-- ===== src/Message.antt =====
-- The messages of the analyzer as they travel between a client and a remote analyzer: the
-- serializers of analyzer/analyzer.c, analyzer/msg.c and analyzer/impl/remote.c.
pub mod Time
pub mod Gain
pub mod Params
pub mod Notices
pub mod Channel
pub mod SourceParts
pub mod SourceInfo
pub mod Psd
pub mod Multicast
pub mod ClientAuth
pub mod Hello
pub mod Configs
pub mod ConfigCodec
pub mod Inspector
pub mod Types
pub mod Msg
pub mod RemoteTypes
pub mod RemoteCall
pub mod Delivery
pub mod Failures
pub mod Acceptance
mod Runs
