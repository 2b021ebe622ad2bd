-- ===== src/Splice.antt =====
-- tracing/nvme-trace/src/lib.rs, lines 410 to 507: merging streams of records.
pub mod Heap
pub mod Merge
pub mod Total
pub mod Earliest
pub mod Update
pub mod Distinct
pub mod Interleave
pub mod Start
pub mod Merges
pub mod InOrder
pub mod Output
pub mod Ordered
