-- ===== src/Order/Compare.antt =====
-- tracing/nvme-trace/src/lib.rs, lines 388 to 408: `record_order`, and the orderings that it is
-- made of.
use gds_traces.Format.Types.{Header}
use gds_traces.Base.{Bool, Ordering, compare, if◌then◌else◌, not, ◌&&◌, ◌==◌}
use Prim.Native.Nat.{lt, eq, gt}

-- `Ordering::then_with`
abbrev pub then_with : Ordering → Ordering → Ordering
then_with eq y = y
then_with lt y = lt
then_with gt y = gt

-- `Ordering::reverse`
abbrev pub reverse : Ordering → Ordering
reverse lt = gt
reverse eq = eq
reverse gt = lt

-- Both records have a sequence number of the same controller.
abbrev pub by_seq : Header → Header → Bool
by_seq a b = (a.ctrl_id == b.ctrl_id) && (not (a.seq == 0) && not (b.seq == 0))

unfoldable pub record_order : Header → Header → Ordering
record_order a b =
    if by_seq a b
    then then_with (compare a.seq b.seq) (then_with (compare a.qid b.qid) (compare a.cid b.cid))
    else then_with (compare a.timestamp_ns b.timestamp_ns) (
        then_with (compare a.ctrl_id b.ctrl_id)
          (then_with (compare a.qid b.qid) (compare a.cid b.cid)))
