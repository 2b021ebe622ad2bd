-- ===== src/Capture.antt =====
-- tracing/nvme-trace/src/capture.rs: a CPU's pages read from its pipe and written as records.
pub mod Pipe
pub mod Drain
pub mod Thread
pub mod Finish
