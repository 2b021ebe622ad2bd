-- ===== src/Analyze/Sampling.antt =====
-- tracing/nvme-trace/src/analyze.rs, lines 257 to 304: the loop that takes the samples.
use gds_traces.Analyze.Throughput.{get_or_insert}
use gds_traces.Analyze.Keys.{Warning}
use gds_traces.Format.Types.{TraceRecord, record_header}
use gds_traces.Analyze.Samples.{Row, emit_due_samples}
use gds_traces.Analyze.Depth.{QueueDepthState, apply_record, default_state}
use gds_traces.Base.{
  Bool, List, Option, [], false, if◌then◌else◌, none, some, suc, true, ℕ, ◌++◌, ◌-◌, ◌==◌, ◌∷◌,
}

pub record Sampling : Type 0 where
  pub state : QueueDepthState
  pub first_ts : Option ℕ
  pub current_offset : Option ℕ
  pub next_sample : ℕ
  pub warnings : List Warning

abbrev pub start_sampling : Sampling
start_sampling = record {
  state = default_state;
  first_ts = none;
  current_offset = none;
  next_sample = 0;
  warnings = [];
}

-- One call of `emit_due_samples`, with fuel for every limit.
abbrev pub emit : ℕ → QueueDepthState → ℕ → ℕ → Bool → Option (List Row × ℕ)
emit scale_ns s next_sample limit include_limit =
    emit_due_samples (suc (suc limit)) s scale_ns next_sample limit include_limit

-- Rows in front of those that come later.
abbrev pub with_rows : List Row → Option (List Row × Sampling) → Option (List Row × Sampling)
with_rows rows none = none
with_rows rows (some (more, s)) = some (rows ++ more, s)

-- Rows, and then what `f` makes of the next sample's time.
abbrev pub and_then :
    Option (List Row × ℕ) → (ℕ → Option (List Row × Sampling)) → Option (List Row × Sampling)
and_then none f = none
and_then (some (rows, at)) f = with_rows rows (f at)

-- The samples that are due before a record of the offset is applied.
abbrev pub catch_up : ℕ → ℕ → Sampling → Option ℕ → Option (List Row × Sampling)
catch_up scale_ns offset s none = some ([], record s { current_offset = some offset })
catch_up scale_ns offset s (some previous) =
    if offset == previous
    then some ([], s)
    else and_then (emit scale_ns s.state s.next_sample previous true) λ at.
      and_then (emit scale_ns s.state at offset false)
        λ later. some ([], record s { next_sample = later; current_offset = some offset })

unfoldable pub apply_to : TraceRecord → Sampling → Sampling
apply_to r s =
    let (state, warned) = apply_record r s.state in
    record s { state = state; warnings = s.warnings ++ warned }

abbrev pub then_apply : TraceRecord → Option (List Row × Sampling) → Option (List Row × Sampling)
then_apply r none = none
then_apply r (some (rows, s)) = some (rows, apply_to r s)

-- One round: the rows that it writes, and what it leaves.
unfoldable pub sample_record : ℕ → TraceRecord → Sampling → Option (List Row × Sampling)
sample_record scale_ns r s =
    let ts = (record_header r).timestamp_ns in
    let base_ts = get_or_insert s.first_ts ts in
    then_apply r
      (catch_up scale_ns (ts - base_ts) (record s { first_ts = some base_ts }) s.current_offset)

abbrev pub finish : ℕ → Sampling → Option ℕ → Option (List Row × Sampling)
finish scale_ns s none = some ([], s)
finish scale_ns s (some offset) =
    and_then (emit scale_ns s.state s.next_sample offset true)
      λ at. some ([], record s { next_sample = at })

unfoldable pub analyze_queue_depth_records :
    ℕ → List TraceRecord → Sampling → Option (List Row × Sampling)
analyze_queue_depth_records scale_ns [] s = finish scale_ns s s.current_offset
analyze_queue_depth_records scale_ns (r ∷ rs) s = elim (sample_record scale_ns r s) [
  | none ↦ none
  | some (rows, s') ↦ with_rows rows (analyze_queue_depth_records scale_ns rs s')
]
