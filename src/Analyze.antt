-- ===== src/Analyze.antt =====
-- tracing/nvme-trace/src/analyze.rs: queue depths and throughput over a list of records.
pub mod Maps
pub mod Keys
pub mod Depth
pub mod Outstanding
pub mod History
pub mod Samples
pub mod Percent
pub mod Distribution
pub mod Counts
pub mod Throughput
pub mod Buckets
pub mod Sampling
pub mod Timeline
pub mod Round
pub mod Stretches
pub mod Schedule
pub mod Transfers
pub mod Transferred
