-- ===== src/Analyze/Percent.antt =====
-- tracing/nvme-trace/src/analyze.rs, lines 384 to 437: the distribution of queue depths.

use gds_traces.Format.Types.{TraceRecord, complete, submit}
use gds_traces.Analyze.Depth.{increment, lower, unwrap_or_default}
use gds_traces.Analyze.Maps.{Key, contains, insert, lookup, set_insert, set_remove}
use gds_traces.Base.{List, [], if◌then◌else◌, none, some, ℕ, ◌-◌, ◌∷◌}
use gds_traces.Analyze.Keys.{
  CommandKey, QueueKey, Warning, duplicate_submit, from_header, queue, unmatched_completion,
  queue_key, command_key, depth_key,
}

pub record PercentState : Type 0 where
  pub in_flight : List CommandKey
  pub global_depth : ℕ
  pub queue_depths : List (QueueKey × ℕ)
  pub global_distribution : List (ℕ × ℕ)
  pub queue_distributions : List (QueueKey × List (ℕ × ℕ))
  pub global_samples : ℕ
  pub queue_samples : List (QueueKey × ℕ)

abbrev pub empty_percent : PercentState
empty_percent = record {
  in_flight = [];
  global_depth = 0;
  queue_depths = [];
  global_distribution = [];
  queue_distributions = [];
  global_samples = 0;
  queue_samples = [];
}

-- `*map.entry(k).or_default() += 1`
abbrev pub tally : {K : Type 0} ⦃key : Key K⦄ → K → List (K × ℕ) → List (K × ℕ)
tally k m = insert k (increment (unwrap_or_default (lookup k m))) m

abbrev pub distribution_of : QueueKey → List (QueueKey × List (ℕ × ℕ)) → List (ℕ × ℕ)
distribution_of q m = elim (lookup q m) [ none ↦ [] | some d ↦ d ]

-- A submission is a sample of the depth that it finds, a repeated one too.
unfoldable pub percent_sample : QueueKey → PercentState → PercentState
percent_sample q s = record s {
  global_distribution = tally s.global_depth s.global_distribution;
  queue_distributions =
      insert q
        (tally (unwrap_or_default (lookup q s.queue_depths))
          (distribution_of q s.queue_distributions))
        s.queue_distributions;
  global_samples = increment s.global_samples;
  queue_samples = tally q s.queue_samples;
}

unfoldable pub percent_submit : CommandKey → PercentState → PercentState × List Warning
unfolding percent_sample
percent_submit key s =
    if contains key s.in_flight
    then (percent_sample (queue key) s, duplicate_submit key ∷ [])
    else (
      record (percent_sample (queue key) s) {
        in_flight = set_insert key s.in_flight;
        global_depth = increment s.global_depth;
        queue_depths = tally (queue key) s.queue_depths;
      },
      [],
    )

unfoldable pub percent_complete : CommandKey → PercentState → PercentState × List Warning
percent_complete key s =
    if contains key s.in_flight
    then (
      record s {
        in_flight = set_remove key s.in_flight;
        global_depth = s.global_depth - 1;
        queue_depths = lower (queue key) s.queue_depths;
      },
      [],
    )
    else (s, unmatched_completion key ∷ [])

unfoldable pub percent_record : TraceRecord → PercentState → PercentState × List Warning
percent_record (submit r) s = percent_submit (from_header r.header) s
percent_record (complete r) s = percent_complete (from_header r.header) s

unfoldable pub percent_records : List TraceRecord → PercentState → PercentState
percent_records [] s = s
percent_records (r ∷ rs) s = percent_records rs (percent_record r s).0
