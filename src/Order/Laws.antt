-- ===== src/Order/Laws.antt =====
-- tracing/nvme-trace/src/lib.rs, lines 388 to 408: laws of `record_order`.
use gds_traces.Format.Types.{Header}
use gds_traces.Order.Compare.{by_seq, record_order, reverse, then_with}
use gds_traces.Base.{Bool, Ordering, arith, compare, false, if◌then◌else◌, true, ◌<◌, ◌≡◌, ◌≢◌, ℕ}
use Prim.Native.Nat.{lt, eq, gt}

-- `a` does not stand behind `b`.
abbrev pub NotAfter : Header → Header → Type 0
NotAfter a b = record_order a b ≢ gt

-- No record has a sequence number, as in an ftrace capture.
abbrev pub IsUnnumbered : Header → Type 0
IsUnnumbered h = h.seq ≡ 0

-- A record of the controller `c` with a sequence number, as in a relay capture of one controller.
abbrev pub IsNumbered : ℕ → Header → Type 0
IsNumbered c h = (h.ctrl_id ≡ c) × (h.seq ≢ 0)

compare-reverse : (a b : ℕ) → compare b a ≡ reverse (compare a b)
compare-reverse a b = ground arith

pub then_with-reverse :
    (x x' y y' : Ordering)
    → x' ≡ reverse x
    → y' ≡ reverse y
    → then_with x' y' ≡ reverse (then_with x y)
then_with-reverse lt x' y y' p q = rw p
then_with-reverse eq x' y y' p q = rw p q
then_with-reverse gt x' y y' p q = rw p

by_seq_comm : (a b : Header) → by_seq b a ≡ by_seq a b
by_seq_comm a b = ground arith

-- Swapping two records reverses their order.
pub record_order-reverse : (a b : Header) → record_order b a ≡ reverse (record_order a b)
unfolding record_order
record_order-reverse a b = rw (by_seq_comm a b) (split (by_seq a b))
  where
    tail :
        then_with (compare b.qid a.qid) (compare b.cid a.cid)
        ≡ reverse (then_with (compare a.qid b.qid) (compare a.cid b.cid))
    tail =
        then_with-reverse (compare a.qid b.qid) _ _ _ (compare-reverse a.qid b.qid)
          (compare-reverse a.cid b.cid)

    split :
        (c : Bool)
        → (if c
            then then_with
                (compare b.seq a.seq)
                (then_with (compare b.qid a.qid) (compare b.cid a.cid))
            else then_with (compare b.timestamp_ns a.timestamp_ns) (
                then_with
                  (compare b.ctrl_id a.ctrl_id)
                  (then_with (compare b.qid a.qid) (compare b.cid a.cid))))
          ≡ reverse (
              if c
              then then_with
                  (compare a.seq b.seq)
                  (then_with (compare a.qid b.qid) (compare a.cid b.cid))
              else then_with (compare a.timestamp_ns b.timestamp_ns) (
                  then_with
                    (compare a.ctrl_id b.ctrl_id)
                    (then_with (compare a.qid b.qid) (compare a.cid b.cid))))
    split true = then_with-reverse (compare a.seq b.seq) _ _ _ (compare-reverse a.seq b.seq) tail
    split false =
        then_with-reverse (compare a.timestamp_ns b.timestamp_ns) _ _ _
          (compare-reverse a.timestamp_ns b.timestamp_ns)
          (then_with-reverse (compare a.ctrl_id b.ctrl_id) _ _ _
            (compare-reverse a.ctrl_id b.ctrl_id) tail)

-- Between records without sequence numbers, as in an ftrace capture, the order is transitive.
pub record_order-trans_unnumbered :
    (a b c : Header)
    → IsUnnumbered a
    → IsUnnumbered b
    → IsUnnumbered c
    → NotAfter a b
    → NotAfter b c
    → NotAfter a c
unfolding record_order
record_order-trans_unnumbered a b c ha hb hc p q = ground arith

-- Between records of one controller that all have sequence numbers, as in a relay capture, the
-- order is transitive.
pub record_order-trans_numbered :
    (n : ℕ) (a b c : Header)
    → IsNumbered n a
    → IsNumbered n b
    → IsNumbered n c
    → NotAfter a b
    → NotAfter b c
    → NotAfter a c
unfolding record_order
record_order-trans_numbered n a b c ha hb hc p q = ground arith

-- Let `a` and `c` be records of one controller, `a` with a positive sequence number below that of
-- `c`, and `b` a record of another controller whose time lies after that of `c` and before that of
-- `a`. Then the order has a cycle: `a` before `c`, `c` before `b`, `b` before `a`.
pub record_order_cycle :
    (a b c : Header)
    → a.ctrl_id ≡ c.ctrl_id
    → b.ctrl_id ≢ a.ctrl_id
    → 0 < a.seq
    → a.seq < c.seq
    → c.timestamp_ns < b.timestamp_ns
    → b.timestamp_ns < a.timestamp_ns
    → (record_order a c ≡ lt) × (record_order c b ≡ lt) × (record_order b a ≡ lt)
unfolding record_order
record_order_cycle a b c h k p q r s = ground arith
