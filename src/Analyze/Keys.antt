-- ===== src/Analyze/Keys.antt =====
-- tracing/nvme-trace/src/analyze.rs, lines 11 to 78: the keys of commands and queues, and their order.

use gds_traces.Format.Types.{Header}
use gds_traces.Order.Compare.{then_with}
use gds_traces.Analyze.Maps.{Key}
use gds_traces.Base.{Ordering, ap, arith, compare, ℕ, ◌↔◌, ◌≡◌}
use Prim.Native.Nat.{eq}

pub record QueueKey : Type 0 where
  pub ctrl_id : ℕ
  pub qid : ℕ

pub record CommandKey : Type 0 where
  pub ctrl_id : ℕ
  pub qid : ℕ
  pub cid : ℕ

abbrev pub from_header : Header → CommandKey
from_header header = record { ctrl_id = header.ctrl_id; qid = header.qid; cid = header.cid }

abbrev pub queue : CommandKey → QueueKey
queue k = record { ctrl_id = k.ctrl_id; qid = k.qid }

-- What the program prints of a record that does not fit: `duplicate_submit_warning` and
-- `unmatched_completion_warning`.
pub data Warning : Type 0 where
  duplicate_submit unmatched_completion : CommandKey → Warning

-- The derived order: by controller, then by queue.
abbrev queue_cmp : QueueKey → QueueKey → Ordering
queue_cmp a b = then_with (compare a.ctrl_id b.ctrl_id) (compare a.qid b.qid)

-- Hashed keys have no order of their own; any one serves, since nothing goes through them in order.
abbrev command_cmp : CommandKey → CommandKey → Ordering
command_cmp a b =
    then_with (compare a.ctrl_id b.ctrl_id) (then_with (compare a.qid b.qid) (compare a.cid b.cid))

pub queue_cmp_iff : (a b : QueueKey) → (queue_cmp a b ≡ eq) ↔ (a ≡ b)
queue_cmp_iff a b = (
  (λ h.
      let p : a.ctrl_id ≡ b.ctrl_id = ground arith in
      let q : a.qid ≡ b.qid = ground arith in λ i. record { ctrl_id = p i; qid = q i }),
  λ e.
      let p : a.ctrl_id ≡ b.ctrl_id = ap (λ x. x.ctrl_id) e in
      let q : a.qid ≡ b.qid = ap (λ x. x.qid) e in ground arith,
)

pub command_cmp_iff : (a b : CommandKey) → (command_cmp a b ≡ eq) ↔ (a ≡ b)
command_cmp_iff a b = (
  (λ h.
      let p : a.ctrl_id ≡ b.ctrl_id = ground arith in
      let q : a.qid ≡ b.qid = ground arith in
      let r : a.cid ≡ b.cid = ground arith in λ i. record { ctrl_id = p i; qid = q i; cid = r i }),
  λ e.
      let p : a.ctrl_id ≡ b.ctrl_id = ap (λ x. x.ctrl_id) e in
      let q : a.qid ≡ b.qid = ap (λ x. x.qid) e in
      let r : a.cid ≡ b.cid = ap (λ x. x.cid) e in ground arith,
)

instance unfoldable pub queue_key : Key QueueKey
queue_key = record { cmp = queue_cmp; cmp_iff = queue_cmp_iff }

instance unfoldable pub command_key : Key CommandKey
command_key = record { cmp = command_cmp; cmp_iff = command_cmp_iff }

-- Depths as keys.
pub depth_cmp_iff : (a b : ℕ) → (compare a b ≡ eq) ↔ (a ≡ b)
depth_cmp_iff a b = ((λ h. ground arith), λ e. ground arith)

instance unfoldable pub depth_key : Key ℕ
depth_key = record { cmp = compare; cmp_iff = depth_cmp_iff }
