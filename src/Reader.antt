-- ===== src/Reader.antt =====
-- tracing/nvme-trace/src/lib.rs, lines 292 to 348 and 594 to 609: `RecordReader` over a byte stream.
pub mod Source
pub mod Records
mod Steps
pub mod Streams
pub mod Cost
pub mod Loop
