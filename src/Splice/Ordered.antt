-- ===== src/Splice/Ordered.antt =====
-- tracing/nvme-trace/src/lib.rs, lines 388 to 408 and 410 to 507: the order of what a merge writes.
use gds_traces.Splice.Interleave.{Interleaves}
use gds_traces.Ftrace.Replay.{flatten}
use gds_traces.Splice.Merge.{Merged, SpliceState, finished}
use gds_traces.Reader.Loop.{Stream}
use gds_traces.Base.{List, ℕ, ◌≡◌}
use gds_traces.Splice.InOrder.{InOrder}

-- A merge that finishes, with all records behind each other in their order.
abbrev pub Ordered : {E : Type 0} → List Stream → Merged E × SpliceState → Type 0
Ordered pss out =
    (out.0 ≡ finished out.1.written)
    × ((recs : List (List ℕ)) × Interleaves pss recs × InOrder recs × (out.1.output ≡ flatten recs))
