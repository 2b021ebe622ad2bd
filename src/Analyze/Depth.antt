-- ===== src/Analyze/Depth.antt =====
-- tracing/nvme-trace/src/analyze.rs, lines 343 to 382: `QueueDepthState`.
use gds_traces.Format.Types.{TraceRecord, complete, submit}
use gds_traces.Analyze.Keys.{
  queue_key, command_key, CommandKey, QueueKey, Warning, duplicate_submit, from_header, queue,
  unmatched_completion,
}
use gds_traces.Base.{List, Option, [], if◌then◌else◌, none, some, ℕ, ◌%◌, ◌+◌, ◌-◌, ◌^◌, ◌∷◌}
use gds_traces.Analyze.Maps.{contains, insert, lookup, set_insert, set_remove}

pub record QueueDepthState : Type 0 where
  pub in_flight : List CommandKey
  pub known_queues : List QueueKey
  pub queue_depths : List (QueueKey × ℕ)
  pub global_depth : ℕ

-- `QueueDepthState::default()`
abbrev pub default_state : QueueDepthState
default_state = record { in_flight = []; known_queues = []; queue_depths = []; global_depth = 0 }

abbrev pub unwrap_or_default : Option ℕ → ℕ
unwrap_or_default none = 0
unwrap_or_default (some n) = n

-- `x += 1` on a `u64`.
abbrev pub increment : ℕ → ℕ
increment n = (n + 1) % 2 ^ 64

-- `*map.entry(q).or_default() += 1`
abbrev pub bump : QueueKey → List (QueueKey × ℕ) → List (QueueKey × ℕ)
bump q m = insert q (increment (unwrap_or_default (lookup q m))) m

-- `if let Some(depth) = map.get_mut(&q) { *depth = depth.saturating_sub(1) }`
abbrev pub lower : QueueKey → List (QueueKey × ℕ) → List (QueueKey × ℕ)
lower q m = elim (lookup q m) [ none ↦ m | some depth ↦ insert q (depth - 1) m ]

unfoldable pub apply_submit : CommandKey → QueueDepthState → QueueDepthState × List Warning
apply_submit key s =
    let known = set_insert (queue key) s.known_queues in
    if contains key s.in_flight
    then (record s { known_queues = known }, duplicate_submit key ∷ [])
    else (
      record {
        in_flight = set_insert key s.in_flight;
        known_queues = known;
        queue_depths = bump (queue key) s.queue_depths;
        global_depth = increment s.global_depth;
      },
      [],
    )

unfoldable pub apply_complete : CommandKey → QueueDepthState → QueueDepthState × List Warning
apply_complete key s =
    if contains key s.in_flight
    then (
      record s {
        in_flight = set_remove key s.in_flight;
        queue_depths = lower (queue key) s.queue_depths;
        global_depth = s.global_depth - 1;
      },
      [],
    )
    else (s, unmatched_completion key ∷ [])

-- The state behind a record, and the warnings that it gives.
unfoldable pub apply_record : TraceRecord → QueueDepthState → QueueDepthState × List Warning
apply_record (submit r) s = apply_submit (from_header r.header) s
apply_record (complete r) s = apply_complete (from_header r.header) s

-- The records one after the other.
unfoldable pub apply_records : List TraceRecord → QueueDepthState → QueueDepthState
apply_records [] s = s
apply_records (r ∷ rs) s = apply_records rs (apply_record r s).0

-- `queue_depths.get(queue).copied().unwrap_or_default()`
abbrev pub depth_of : QueueDepthState → QueueKey → ℕ
depth_of s q = unwrap_or_default (lookup q s.queue_depths)
