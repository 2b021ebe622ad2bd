-- ===== src/Examples/Records.antt =====
-- The properties of Format at concrete bytes, and those of Order.
use gds_traces.Format.Parse.{parse_record_bytes}
use gds_traces.Base.Outcome.{ok}
use gds_traces.Order.Laws.{record_order_cycle}
use gds_traces.Format.Accept.{HasFrame, IsRecord, parse_record_bytes_accepts, raw, submit_of}
use gds_traces.Format.Reject.{Decides, Explains, parse_record_bytes-Decides}
use gds_traces.Examples.Data.{
  completion_bytes, le_binrw, submission-HasFrame, submission-IsRecord, submission_bytes,
}
use gds_traces.Format.Types.{Header, TraceRecord, submit}
use gds_traces.Order.Compare.{record_order}
use gds_traces.Base.{Ordering, arith, refl, ℕ, ◌≡◌, ◌≢◌}

parse_record_bytes-Decides_example :
    Decides
      (λ x.
        (r : TraceRecord) × (x ≡ raw completion_bytes 3 r)
        × HasFrame completion_bytes
        × IsRecord completion_bytes r)
      (Explains completion_bytes 3)
      (parse_record_bytes le_binrw completion_bytes 3)
parse_record_bytes-Decides_example = parse_record_bytes-Decides le_binrw completion_bytes 3

parse_record_bytes_accepts_example :
    parse_record_bytes le_binrw submission_bytes 3
    ≡ ok (raw submission_bytes 3 (submit (submit_of submission_bytes)))
parse_record_bytes_accepts_example =
    parse_record_bytes_accepts le_binrw submission_bytes 3 _ submission-HasFrame submission-IsRecord

-- A header with a sequence number and a time, of a controller.
abbrev stamped : ℕ → ℕ → ℕ → Header
stamped ctrl_id seq timestamp_ns = record {
  magic = 0;
  version = 0;
  record_type = 0;
  len = 0;
  timestamp_ns = timestamp_ns;
  seq = seq;
  ctrl_id = ctrl_id;
  qid = 1;
  cid = 1;
}

differs : {x : Ordering} → (x ≡ Ordering.lt) → x ≢ Ordering.gt
differs e k = cc

record_order_cycle_example :
    (record_order (stamped 0 1 30) (stamped 0 2 10) ≡ Ordering.lt)
    × (record_order (stamped 0 2 10) (stamped 1 1 20) ≡ Ordering.lt)
    × (record_order (stamped 1 1 20) (stamped 0 1 30) ≡ Ordering.lt)
record_order_cycle_example =
    record_order_cycle (stamped 0 1 30) (stamped 1 1 20) (stamped 0 2 10) refl
      (λ (h : 1 ≡ 0). omega arith) (omega arith) (omega arith) (omega arith) (omega arith)
