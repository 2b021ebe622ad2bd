-- ===== src/Analyze/Counts.antt =====
-- tracing/nvme-trace/src/analyze.rs, lines 401 to 437: what the distributions count.

use gds_traces.Analyze.Distribution.{submissions, submissions_to, total, total-tally}
use gds_traces.Analyze.Outstanding.{lookup-bump}
use gds_traces.Format.Types.{TraceRecord, complete, submit}
use gds_traces.Analyze.Maps.{contains, insert, key_eq, key_eq→eq, lookup, lookup-insert}
use gds_traces.Analyze.Depth.{increment, unwrap_or_default}
use gds_traces.Analyze.Percent.{
  PercentState, distribution_of, percent_complete, percent_record, percent_records, percent_sample,
  percent_submit, tally,
}
use gds_traces.Base.{
  Bool-cases, List, [], ap, arith, if◌then◌else◌, inl, inr, suc, ℕ, ◌+◌, ◌<◌, ◌^◌, ◌∙◌, ◌∷◌, ◌≡◌,
  ◌≤◌,
}
use gds_traces.Analyze.Keys.{
  CommandKey, QueueKey, from_header, queue, queue_key, command_key, depth_key,
}

-- The distributions hold `n` samples in all, `per q` for each queue, and these are the numbers of
-- samples by which the percentages are taken.
pub record CountsSamples (n : ℕ) (per : QueueKey → ℕ) (s : PercentState) : Type 0 where
  pub global_total : total s.global_distribution ≡ n
  pub global_count : s.global_samples ≡ n
  pub queue_total : (q : QueueKey) → total (distribution_of q s.queue_distributions) ≡ per q
  pub queue_count : (q : QueueKey) → unwrap_or_default (lookup q s.queue_samples) ≡ per q
  pub queue_le : (q : QueueKey) → per q ≤ n

abbrev one_more : QueueKey → (QueueKey → ℕ) → QueueKey → ℕ
one_more q per j = if key_eq q j then suc (per j) else per j

distribution_of-insert :
    (q j : QueueKey) (d : List (ℕ × ℕ)) (m : List (QueueKey × List (ℕ × ℕ)))
    → distribution_of j (insert q d m) ≡ (if key_eq q j then d else distribution_of j m)
distribution_of-insert q j d m =
    rw (lookup-insert q j d m, distribution_of)
      (elim (Bool-cases (key_eq q j)) [ inl same ↦ rw same | inr differs ↦ rw differs ])

lookup-tally :
    (q j : QueueKey) (m : List (QueueKey × ℕ))
    → unwrap_or_default (lookup j (tally q m)) ≡ (
        if key_eq q j
        then increment (unwrap_or_default (lookup j m))
        else unwrap_or_default (lookup j m))
lookup-tally q j m = lookup-bump q j m

percent_sample-CountsSamples :
    (q : QueueKey) (n : ℕ) (per : QueueKey → ℕ) (s : PercentState)
    → CountsSamples n per s
    → suc n < 2 ^ 64
    → CountsSamples (suc n) (one_more q per) (percent_sample q s)
unfolding percent_sample
percent_sample-CountsSamples q n per s c room = record {
  global_total = omega (arith, total-tally s.global_depth s.global_distribution, c.global_total);
  global_count = omega (arith, c.global_count);
  queue_total = λ j. elim (Bool-cases (key_eq q j)) [
    | inl same ↦
        let here = key_eq→eq q j same in
        let depth = unwrap_or_default (lookup q s.queue_depths) in
        let before : total (distribution_of q s.queue_distributions) ≡ per j =
          c.queue_total q ∙ ap per here in
        rw
          (distribution_of-insert q j (tally depth (distribution_of q s.queue_distributions))
            s.queue_distributions)
          (rw same (
            omega
              (arith, total-tally depth (distribution_of q s.queue_distributions), c.queue_le j)))
    | inr differs ↦
        rw (distribution_of-insert q j _ s.queue_distributions) (rw differs (c.queue_total j))
  ];
  queue_count = λ j. elim (Bool-cases (key_eq q j)) [
    | inl same ↦
        rw (lookup-tally q j s.queue_samples)
          (rw same (omega (arith, c.queue_count j, c.queue_le j)))
    | inr differs ↦ rw (lookup-tally q j s.queue_samples) (rw differs (c.queue_count j))
  ];
  queue_le = λ j. elim (Bool-cases (key_eq q j)) [
    | inl same ↦ rw same (omega (arith, c.queue_le j))
    | inr differs ↦ rw differs (omega (arith, c.queue_le j))
  ];
}

percent_submit-CountsSamples :
    (key : CommandKey) (n : ℕ) (per : QueueKey → ℕ) (s : PercentState)
    → CountsSamples n per s
    → suc n < 2 ^ 64
    → CountsSamples (suc n) (one_more (queue key) per) (percent_submit key s).0
unfolding percent_submit
percent_submit-CountsSamples key n per s c room =
    let c' = percent_sample-CountsSamples (queue key) n per s c room in
    elim (Bool-cases (contains key s.in_flight)) [
      | inl dup ↦ rw dup c'
      | inr fresh ↦ rw fresh (record {
        global_total = c'.global_total;
        global_count = c'.global_count;
        queue_total = c'.queue_total;
        queue_count = c'.queue_count;
        queue_le = c'.queue_le;
      })
    ]

percent_complete-CountsSamples :
    (key : CommandKey) (n : ℕ) (per : QueueKey → ℕ) (s : PercentState)
    → CountsSamples n per s
    → CountsSamples n per (percent_complete key s).0
unfolding percent_complete
percent_complete-CountsSamples key n per s c = elim (Bool-cases (contains key s.in_flight)) [
  | inr absent ↦ rw absent c
  | inl here ↦ rw here (record {
    global_total = c.global_total;
    global_count = c.global_count;
    queue_total = c.queue_total;
    queue_count = c.queue_count;
    queue_le = c.queue_le;
  })
]

CountsSamples-same :
    (n n' : ℕ) (per per' : QueueKey → ℕ) (s : PercentState)
    → n ≡ n'
    → ((q : QueueKey) → per q ≡ per' q)
    → CountsSamples n per s
    → CountsSamples n' per' s
CountsSamples-same n n' per per' s e f c = record {
  global_total = c.global_total ∙ e;
  global_count = c.global_count ∙ e;
  queue_total = λ q. c.queue_total q ∙ f q;
  queue_count = λ q. c.queue_count q ∙ f q;
  queue_le = λ q. omega (arith, c.queue_le q, f q, e);
}

-- From distributions that hold `n` samples in all and `per q` for each queue, and are counted so,
-- after a list of records that is short enough for a 64-bit count, the distributions hold one
-- sample more for each submission, in all and in its queue, and the numbers by which the
-- percentages are taken are these.
pub percent_records-CountsSamples :
    (rs : List TraceRecord) (n : ℕ) (per : QueueKey → ℕ) (s : PercentState)
    → CountsSamples n per s
    → n + submissions rs < 2 ^ 64
    → CountsSamples (n + submissions rs) (λ q. per q + submissions_to q rs) (percent_records rs s)
unfolding percent_records percent_record
percent_records-CountsSamples [] n per s c room =
    CountsSamples-same _ _ _ _ s (omega arith) (λ q. omega arith) c
percent_records-CountsSamples (submit r ∷ rs) n per s c room =
    let key = from_header r.header in
    let s' = (percent_submit key s).0 in
    CountsSamples-same _ _ _ _ (percent_records rs s') (omega arith) (λ q. ground (arith))
      (percent_records-CountsSamples rs (suc n) (one_more (queue key) per) s'
        (percent_submit-CountsSamples key n per s c (omega arith)) (omega arith))
percent_records-CountsSamples (complete r ∷ rs) n per s c room =
    percent_records-CountsSamples rs n per (percent_complete (from_header r.header) s).0
      (percent_complete-CountsSamples (from_header r.header) n per s c) room
