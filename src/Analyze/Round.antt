-- ===== src/Analyze/Round.antt =====
-- One round of the sampling loop, from a state of which all is known.
use gds_traces.Analyze.Timeline.{offset_of}
use gds_traces.Analyze.Samples.{Row}
use gds_traces.Analyze.Depth.{QueueDepthState, apply_record, default_state}
use gds_traces.Format.Types.{TraceRecord, record_header}
use gds_traces.Base.{List, [], arith, eq→==, false, ne→==, refl, some, true, ℕ, ◌++◌, ◌<◌, ◌∷◌, ◌≡◌}
use gds_traces.Analyze.Sampling.{
  Sampling, analyze_queue_depth_records, and_then, apply_to, catch_up, emit, sample_record,
  start_sampling, with_rows,
}
use gds_traces.Analyze.Keys.{Warning, queue_key, command_key}

-- The state of the loop behind a first record.
abbrev pub sampling : QueueDepthState → ℕ → ℕ → ℕ → List Warning → Sampling
sampling s base c t w = record {
  state = s;
  first_ts = some base;
  current_offset = some c;
  next_sample = t;
  warnings = w;
}

module _ (scale_ns : ℕ) where
  pub loop_step :
      (r : TraceRecord) (rs : List TraceRecord) (s s' : Sampling) (rows : List Row)
      → sample_record scale_ns r s ≡ some (rows, s')
      → analyze_queue_depth_records scale_ns (r ∷ rs) s
        ≡ with_rows rows (analyze_queue_depth_records scale_ns rs s')
  unfolding analyze_queue_depth_records
  loop_step r rs s s' rows e = rw (e, analyze_queue_depth_records)

  pub sample_record-same :
      (s : QueueDepthState) (base c t : ℕ) (w : List Warning) (r : TraceRecord)
      → offset_of base r ≡ c
      → sample_record scale_ns r (sampling s base c t w)
        ≡ some ([], sampling (apply_record r s).0 base c t (w ++ (apply_record r s).1))
  unfolding sample_record apply_to
  sample_record-same s base c t w r e = rw (eq→== (offset_of base r) c e, catch_up)

  pub sample_record-later :
      (s : QueueDepthState) (base c t : ℕ) (w : List Warning) (r : TraceRecord) (a b : List Row)
      (t1 t2 : ℕ)
      → c < offset_of base r
      → emit scale_ns s t c true ≡ some (a, t1)
      → emit scale_ns s t1 (offset_of base r) false ≡ some (b, t2)
      → sample_record scale_ns r (sampling s base c t w)
        ≡ some (
          a ++ (b ++ []),
          sampling (apply_record r s).0 base (offset_of base r) t2 (w ++ (apply_record r s).1),
        )
  unfolding sample_record apply_to
  sample_record-later s base c t w r a b t1 t2 l e f =
      rw (ne→== (offset_of base r) c (omega arith), catch_up) (rw (e, and_then) (rw (f, and_then)))

  pub sample_record-first :
      (r : TraceRecord)
      → sample_record scale_ns r start_sampling
        ≡ some (
          [],
          sampling
              (apply_record r default_state).0
              (record_header r).timestamp_ns
              (offset_of (record_header r).timestamp_ns r)
              0
              ([] ++ (apply_record r default_state).1),
        )
  unfolding sample_record apply_to
  sample_record-first r = refl
