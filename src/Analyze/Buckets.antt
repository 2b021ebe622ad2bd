-- ===== src/Analyze/Buckets.antt =====
-- The time buckets of the throughput report: where they start, and how long they are.

use native.Mathlib.Nat.{div-mul-le_self}
use gds_traces.Analyze.Depth.{unwrap_or_default}
use gds_traces.Analyze.Throughput.{
  ThroughputBucket, ThroughputState, get_or_insert, latest, throughput_bucket_duration_ns,
  throughput_complete, throughput_record, throughput_records, throughput_submit,
}
use gds_traces.Analyze.Maps.{lookup, has_key, insert, is_lt, key_eq}
use gds_traces.Format.Types.{CompleteRecord, TraceRecord, complete, submit}
use gds_traces.Base.{
  Option-cases, refl, ◌/◌, All, Bool-cases, List, Option, [], arith, compare, inl, inr, none, not,
  some, ℕ, ◌&&◌, ◌*◌, ◌+◌, ◌-◌, ◌<◌, ◌∷◌, ◌≡◌, ◌≤◌, ◌⊎◌,
}
use gds_traces.Analyze.Keys.{from_header, queue_key, command_key, depth_key}

-- A bucket starts at a step of the scale, not behind the last record.
abbrev pub IsBucket : ℕ → ℕ → ℕ → Type 0
IsBucket scale_ns last bucket = ((k : ℕ) × (bucket ≡ k * scale_ns)) × (bucket ≤ last)

abbrev pub last_of : ThroughputState → ℕ
last_of s = unwrap_or_default s.last_offset

abbrev pub AreBuckets : ℕ → ThroughputState → Type 0
AreBuckets scale_ns s = All (λ p. IsBucket scale_ns (last_of s) p.0) s.bytes_by_bucket

All-insert :
    (P : ℕ → Type 0) (k : ℕ) (b : ThroughputBucket) (m : List (ℕ × ThroughputBucket))
    → P k
    → All (λ p. P p.0) m
    → All (λ p. P p.0) (insert k b m)
unfolding insert depth_key
All-insert P k b [] h hs = (h, tt)
All-insert P k b ((j, w) ∷ m) h (here, hs) = elim (Bool-cases (key_eq j k)) [
  | inl same ↦ rw same (h, hs)
  | inr differs ↦ elim (Bool-cases (is_lt (compare k j) && not (has_key k m))) [
    | inl first ↦ rw differs (rw first (h, (here, hs)))
    | inr later ↦ rw differs (rw later (here, All-insert P k b m h hs))
  ]
]

All-IsBucket_le :
    (scale_ns a b : ℕ) (m : List (ℕ × ThroughputBucket))
    → a ≤ b
    → All (λ p. IsBucket scale_ns a p.0) m
    → All (λ p. IsBucket scale_ns b p.0) m
All-IsBucket_le scale_ns a b [] h hs = tt
All-IsBucket_le scale_ns a b (p ∷ m) h ((k, le), hs) =
    ((k, omega arith), All-IsBucket_le scale_ns a b m h hs)

latest-le :
    (o : Option ℕ) (offset : ℕ)
    → (unwrap_or_default o ≤ latest o offset) × (offset ≤ latest o offset)
latest-le none offset = (omega arith, omega arith)
latest-le (some last) offset = (ground arith, ground arith)

throughput_complete-AreBuckets :
    (scale_ns offset : ℕ) (r : CompleteRecord) (s : ThroughputState)
    → 0 < scale_ns
    → offset ≤ last_of s
    → AreBuckets scale_ns s
    → AreBuckets scale_ns (throughput_complete scale_ns offset r s).0
unfolding throughput_complete
throughput_complete-AreBuckets scale_ns offset r s pos le h =
    elim (Option-cases (lookup (from_header r.header) s.in_flight)) [
      | inl e ↦ rw (e, throughput_complete) h
      | inr (c, e) ↦
          let start : IsBucket scale_ns (last_of s) (offset / scale_ns * scale_ns) =
            ((offset / scale_ns, refl), omega (arith, div-mul-le_self offset scale_ns)) in
          rw (e, throughput_complete)
            (All-insert (IsBucket scale_ns (last_of s)) _ _ s.bytes_by_bucket start h)
    ]

throughput_record-AreBuckets :
    (scale_ns : ℕ) (r : TraceRecord) (s : ThroughputState)
    → 0 < scale_ns
    → AreBuckets scale_ns s
    → AreBuckets scale_ns (throughput_record scale_ns r s).0
unfolding throughput_record throughput_submit
throughput_record-AreBuckets scale_ns (submit r) s pos h =
    All-IsBucket_le scale_ns _ _ s.bytes_by_bucket (latest-le s.last_offset _).0 h
throughput_record-AreBuckets scale_ns (complete r) s pos h =
    let ts = r.header.timestamp_ns in
    let base_ts = get_or_insert s.first_ts ts in
    let offset = ts - base_ts in
    let (grows, covers) = latest-le s.last_offset offset in
    throughput_complete-AreBuckets scale_ns offset r
      (record s { first_ts = some base_ts; last_offset = some (latest s.last_offset offset) }) pos
      covers (All-IsBucket_le scale_ns _ _ s.bytes_by_bucket grows h)

-- With a positive scale, from buckets that start at steps of the scale and not behind the last
-- offset, after any records the buckets do so again.
pub throughput_records-AreBuckets :
    (scale_ns : ℕ) (rs : List TraceRecord) (s : ThroughputState)
    → 0 < scale_ns
    → AreBuckets scale_ns s
    → AreBuckets scale_ns (throughput_records scale_ns rs s)
unfolding throughput_records
throughput_records-AreBuckets scale_ns [] s pos h = h
throughput_records-AreBuckets scale_ns (r ∷ rs) s pos h =
    throughput_records-AreBuckets scale_ns rs (throughput_record scale_ns r s).0 pos
      (throughput_record-AreBuckets scale_ns r s pos h)

-- With a positive scale, the duration by which the rate of a bucket is taken is at least 1, at
-- most the scale, and, if it is not 1, ends by the last offset.
pub throughput_bucket_duration_ns-bounds :
    (bucket scale_ns last_offset : ℕ)
    → 0 < scale_ns
    → let d = throughput_bucket_duration_ns bucket scale_ns last_offset in
      (1 ≤ d) × (d ≤ scale_ns) × (bucket + d ≤ last_offset ⊎ d ≡ 1)
unfolding throughput_bucket_duration_ns
throughput_bucket_duration_ns-bounds bucket scale_ns last_offset pos =
    (ground arith, ground arith, ground arith)
