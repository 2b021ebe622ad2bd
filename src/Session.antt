-- ===== src/Session.antt =====
-- tracing/nvme-trace/src/ftrace.rs, lines 86 to 356: the tracing session and the files of tracefs.
pub mod FormatFile
pub mod Declared
pub mod Offsets
pub mod Tracefs
pub mod Control
pub mod Effects
pub mod Order
pub mod Whole
pub mod Sequence
pub mod Losses
pub mod Complete
pub mod Failures
