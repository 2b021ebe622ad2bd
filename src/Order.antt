-- ===== src/Order.antt =====
-- tracing/nvme-trace/src/lib.rs, lines 388 to 408: the order in which records are spliced.
pub mod Compare
pub mod Laws
