-- ===== src/Ftrace.antt =====
-- tracing/nvme-trace/src/ftrace.rs: ring-buffer pages into trace records.
pub mod Run
pub mod Formats
pub mod Encode
pub mod Page
pub mod Safety
pub mod Values
pub mod Submit
pub mod Total
pub mod Ring
pub mod Rounds
pub mod Replay
pub mod Readback
