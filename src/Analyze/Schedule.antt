-- ===== src/Analyze/Schedule.antt =====
-- tracing/nvme-trace/src/analyze.rs, lines 257 to 304: the loop of `queue-depth` on a sorted
-- trace.
use gds_traces.Analyze.Depth.{QueueDepthState}
use gds_traces.Analyze.Sampling.{Sampling}
use gds_traces.Analyze.Samples.{Row}
use gds_traces.Analyze.Timeline.{last_from, timeline}
use gds_traces.Format.Types.{TraceRecord}
use gds_traces.Base.{List, Option, some, ℕ, ◌*◌, ◌+◌, ◌<◌, ◌≡◌, ◌≤◌, ◌⊎◌}
use gds_traces.Analyze.Keys.{queue_key, command_key}

-- What the loop gives from the next sample at `t`: `n` samples of the timeline, the last one at the
-- last record or before it, and the next one behind.
abbrev pub IsSchedule :
    ℕ → ℕ → QueueDepthState → ℕ → ℕ → List TraceRecord → Option (List Row × Sampling) → Type 0
IsSchedule scale_ns t s base c rs out =
    (n : ℕ) × (s' : Sampling) × (out ≡ some (timeline n scale_ns t s base rs, s'))
    × (last_from base c rs < t + n * scale_ns)
    × ((n ≡ 0) ⊎ (t + n * scale_ns ≤ last_from base c rs + scale_ns))
