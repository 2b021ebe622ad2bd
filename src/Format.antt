-- ===== src/Format.antt =====
-- tracing/nvme-trace/src/lib.rs: the binary trace format.
pub mod Types
pub mod Readers
pub mod Parse
pub mod Layout
pub mod Accept
pub mod Reject
