-- ===== src/Examples/Depths.antt =====
-- The properties of Analyze at concrete records.

use gds_traces.Analyze.Distribution.{submissions_to, total}
use gds_traces.Analyze.Percent.{empty_percent, percent_records}
use gds_traces.Analyze.Counts.{CountsSamples, percent_records-CountsSamples}
use gds_traces.Analyze.Throughput.{bucket_at, no_throughput, throughput_records}
use gds_traces.Analyze.Transfers.{bytes_moved, pending, to_read, transferred}
use gds_traces.Analyze.Transferred.{throughput_records-transferred}
use gds_traces.Analyze.Maps.{lookup, contains, count_if, has_dup}
use gds_traces.Analyze.Depth.{apply_record, apply_records, default_state}
use gds_traces.Examples.Data.{zeros}
use gds_traces.Base.{◌*◌, ◌+◌, List, [], arith, false, refl, true, ℕ, ◌∷◌, ◌≡◌}
use gds_traces.Analyze.History.{apply_record-warnings, command, contains-apply_records, is_open}
use gds_traces.Format.Types.{
  Header, TraceRecord, complete, nvme_trace_magic, nvme_trace_version, prp, submit,
}
use gds_traces.Analyze.Outstanding.{IsDepthState, IsDepthState-default, apply_records-IsDepthState}
use gds_traces.Analyze.Keys.{unmatched_completion, queue_key, command_key}

abbrev header_of : ℕ → ℕ → ℕ → Header
header_of record_type cid timestamp_ns = record {
  magic = nvme_trace_magic;
  version = nvme_trace_version;
  record_type = record_type;
  len = 40;
  timestamp_ns = timestamp_ns;
  seq = 0;
  ctrl_id = 0;
  qid = 1;
  cid = cid;
}

abbrev submission : ℕ → ℕ → TraceRecord
submission cid timestamp_ns = submit (record {
  header = header_of 0 cid timestamp_ns;
  sqe = 2 ∷ zeros 63;
  data_len = 512;
  meta_len = 0;
  use_sgl = false;
  single_segment = true;
  nr_entries = 0;
  tail = prp [];
})

abbrev completion : ℕ → ℕ → TraceRecord
completion cid timestamp_ns = complete (record {
  header = header_of 1 cid timestamp_ns;
  result = 0;
  sq_head = 0;
  sq_id = 1;
  status = 0;
  retries = 0;
})

-- Two submissions, a third that repeats the first, a completion, and one without a submission.
abbrev five_records : List TraceRecord
five_records =
    submission 1 10 ∷ submission 2 20 ∷ submission 1 30 ∷ completion 2 40 ∷ completion 3 50 ∷ []

apply_records-IsDepthState_example : IsDepthState (apply_records five_records default_state)
unfolding count_if
apply_records-IsDepthState_example =
    apply_records-IsDepthState five_records default_state IsDepthState-default (omega arith)

contains-apply_records_example :
    contains (command (submission 2 0)) (apply_records five_records default_state).in_flight ≡ false
unfolding contains is_open has_dup command_key
contains-apply_records_example =
    contains-apply_records five_records default_state (command (submission 2 0)) refl

apply_record-warnings_example :
    ((apply_record (completion 3 50) default_state).1
      ≡ unmatched_completion (command (completion 3 50)) ∷ [])
    × ((apply_record (completion 3 50) default_state).0.global_depth ≡ 0)
unfolding contains
apply_record-warnings_example = apply_record-warnings (completion 3 50) default_state

empty_percent-CountsSamples : CountsSamples 0 (λ q. 0) empty_percent
unfolding total lookup
empty_percent-CountsSamples = record {
  global_total = refl;
  global_count = refl;
  queue_total = λ q. refl;
  queue_count = λ q. refl;
  queue_le = λ q. omega arith;
}

percent_records-CountsSamples_example :
    CountsSamples 3
      (λ q. 0 + submissions_to q five_records)
      (percent_records five_records empty_percent)
percent_records-CountsSamples_example =
    percent_records-CountsSamples five_records 0 (λ q. 0) empty_percent empty_percent-CountsSamples
      (omega arith)

throughput_records-transferred_example :
    bytes_moved to_read
      (bucket_at (1 * 20) (throughput_records 20 five_records no_throughput).bytes_by_bucket)
    ≡ 512
unfolding transferred pending command_key
throughput_records-transferred_example =
    throughput_records-transferred to_read 20 1 five_records (omega arith)
