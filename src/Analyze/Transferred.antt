-- ===== src/Analyze/Transferred.antt =====
-- tracing/nvme-trace/src/analyze.rs, lines 183 to 224: the state of the loop after some records,
-- and the bytes of each time bucket.

use gds_traces.Analyze.Maps.{
  insert, key_eq, key_eq→eq, lookup, lookup-insert, lookup-remove, remove,
}
use gds_traces.Format.Types.{
  CompleteRecord, SubmitRecord, TraceRecord, complete, record_header, submit,
}
use gds_traces.Analyze.Transfers.{
  to_read, to_write, bytes_moved, moved_by, Way, as_command, asked, bytes_moved-add_command,
  command_of, in_step, pending, same_step, start_of, transferred,
}
use gds_traces.Base.{
  Bool-cases, List, Option-cases, [], ap, arith, if◌then◌else◌, inl, inr, none, refl, some, subst,
  sym, ℕ, ◌%◌, ◌*◌, ◌+◌, ◌-◌, ◌/◌, ◌<◌, ◌^◌, ◌∙◌, ◌∷◌, ◌≡◌,
}
use gds_traces.Analyze.Throughput.{
  InFlightCommand, ThroughputBucket, ThroughputState, add_command, bucket_at, empty_bucket,
  get_or_insert, latest, no_throughput, throughput_complete, throughput_record, throughput_records,
  throughput_submit,
}
use gds_traces.Analyze.Keys.{CommandKey, from_header, command_key, depth_key}

-- What holds of the state once `before` are its records, the last first.
abbrev Holds : Way → ℕ → ℕ → ℕ → ℕ → List TraceRecord → ThroughputState → Type 0
Holds way scale_ns base_ts k n before s =
    (s.first_ts ≡ some base_ts)
    × ((key : CommandKey) → lookup key s.in_flight ≡ as_command (pending key before))
    × (bytes_moved way (bucket_at (k * scale_ns) s.bytes_by_bucket) ≡ n % 2 ^ 128)

bucket_at-insert :
    (b j : ℕ) (v : ThroughputBucket) (m : List (ℕ × ThroughputBucket))
    → bucket_at j (insert b v m) ≡ (if key_eq b j then v else bucket_at j m)
bucket_at-insert b j v m =
    ap (λ o. elim o [ none ↦ empty_bucket | some w ↦ w ]) (lookup-insert b j v m)
    ∙ elim (Bool-cases (key_eq b j)) [ inl same ↦ rw same refl | inr differs ↦ rw differs refl ]

bytes_moved-completed :
    (way : Way) (scale_ns k offset n : ℕ) (x : SubmitRecord) (m : List (ℕ × ThroughputBucket))
    → 0 < scale_ns
    → bytes_moved way (bucket_at (k * scale_ns) m) ≡ n % 2 ^ 128
    → let b = offset / scale_ns * scale_ns in
      bytes_moved way
        (bucket_at (k * scale_ns) (insert b (add_command (command_of x) (bucket_at b m)) m))
      ≡ (n + (if in_step scale_ns k offset then asked way x else 0)) % 2 ^ 128
bytes_moved-completed way scale_ns k offset n x m pos h =
    let b = offset / scale_ns * scale_ns in
    let v = add_command (command_of x) (bucket_at b m) in
    let found : key_eq b (k * scale_ns) ≡ in_step scale_ns k offset =
      same_step scale_ns k offset pos in
    ap (bytes_moved way) (bucket_at-insert b (k * scale_ns) v m)
    ∙ elim (Bool-cases (in_step scale_ns k offset)) [
      | inl within ↦
          let at : b ≡ k * scale_ns = key_eq→eq b (k * scale_ns) (found ∙ within) in
          rw (found, within)
            (bytes_moved-add_command way x (bucket_at b m) n
              (subst (λ j. bytes_moved way (bucket_at j m) ≡ n % 2 ^ 128) (sym at) h))
      | inr outside ↦ rw (found, outside) (h ∙ omega arith)
    ]

-- What is in flight after one more record.
lookup-submitted :
    (x : SubmitRecord) (key : CommandKey) (before : List TraceRecord)
    (m : List (CommandKey × InFlightCommand))
    → ((j : CommandKey) → lookup j m ≡ as_command (pending j before))
    → lookup key (insert (from_header x.header) (command_of x) m)
      ≡ as_command (pending key (submit x ∷ before))
unfolding pending
lookup-submitted x key before m h =
    lookup-insert (from_header x.header) key (command_of x) m
    ∙ elim (Bool-cases (key_eq (from_header x.header) key)) [
      | inl same ↦ rw same refl
      | inr differs ↦ rw differs (h key)
    ]

lookup-completed :
    (x : CompleteRecord) (key : CommandKey) (before : List TraceRecord)
    (m : List (CommandKey × InFlightCommand))
    → ((j : CommandKey) → lookup j m ≡ as_command (pending j before))
    → lookup key (remove (from_header x.header) m) ≡ as_command (pending key (complete x ∷ before))
unfolding pending
lookup-completed x key before m h =
    lookup-remove (from_header x.header) key m
    ∙ elim (Bool-cases (key_eq (from_header x.header) key)) [
      | inl same ↦ rw same refl
      | inr differs ↦ rw differs (h key)
    ]

lookup-ignored :
    (x : CompleteRecord) (key : CommandKey) (before : List TraceRecord)
    (m : List (CommandKey × InFlightCommand))
    → pending (from_header x.header) before ≡ none
    → ((j : CommandKey) → lookup j m ≡ as_command (pending j before))
    → lookup key m ≡ as_command (pending key (complete x ∷ before))
unfolding pending
lookup-ignored x key before m closed h = elim (Bool-cases (key_eq (from_header x.header) key)) [
  | inl same ↦
      let at : from_header x.header ≡ key = key_eq→eq (from_header x.header) key same in
      rw same (h key ∙ ap as_command (subst (λ j. pending j before ≡ none) at closed))
  | inr differs ↦ rw differs (h key)
]

throughput_complete-Holds :
    (way : Way) (scale_ns base_ts k n : ℕ) (before : List TraceRecord) (x : CompleteRecord)
    (s : ThroughputState)
    → 0 < scale_ns
    → Holds way scale_ns base_ts k n before s
    → Holds way scale_ns base_ts k
        (n + moved_by way scale_ns base_ts k before (complete x))
        (complete x ∷ before)
        (throughput_complete scale_ns (x.header.timestamp_ns - base_ts) x s).0
unfolding throughput_complete
throughput_complete-Holds way scale_ns base_ts k n before x s pos (begins, tracked, bytes) =
    let key = from_header x.header in
    let offset = x.header.timestamp_ns - base_ts in
    elim (Option-cases (pending key before)) [
      | inl closed ↦
          let absent : lookup key s.in_flight ≡ none = tracked key ∙ ap as_command closed in
          rw (absent, throughput_complete, closed)
            (
              begins,
              (λ j. lookup-ignored x j before s.in_flight closed tracked),
              bytes ∙ ground arith,
            )
      | inr (y, open_now) ↦
          let present : lookup key s.in_flight ≡ some (command_of y) =
            tracked key ∙ ap as_command open_now in
          rw (present, throughput_complete, open_now)
            (
              begins,
              (λ j. lookup-completed x j before s.in_flight tracked),
              bytes_moved-completed way scale_ns k offset n y s.bytes_by_bucket pos bytes,
            )
    ]

throughput_record-Holds :
    (way : Way) (scale_ns base_ts k n : ℕ) (before : List TraceRecord) (r : TraceRecord)
    (s : ThroughputState)
    → 0 < scale_ns
    → Holds way scale_ns base_ts k n before s
    → Holds way scale_ns base_ts k
        (n + moved_by way scale_ns base_ts k before r)
        (r ∷ before)
        (throughput_record scale_ns r s).0
unfolding throughput_record throughput_submit
throughput_record-Holds way scale_ns base_ts k n before (submit x) s pos (begins, tracked, bytes) =
    (
      rw begins refl,
      (λ key. lookup-submitted x key before s.in_flight tracked),
      bytes ∙ omega arith,
    )
throughput_record-Holds way scale_ns base_ts k n before (complete x) s pos
      (begins, tracked, bytes) =
    let base : get_or_insert s.first_ts x.header.timestamp_ns ≡ base_ts = rw begins refl in
    let offset = x.header.timestamp_ns - get_or_insert s.first_ts x.header.timestamp_ns in
    subst
      (λ b.
        Holds way scale_ns b k (n + moved_by way scale_ns b k before (complete x))
          (complete x ∷ before) (throughput_record scale_ns (complete x) s).0)
      base
      (throughput_complete-Holds way scale_ns (get_or_insert s.first_ts x.header.timestamp_ns) k n
        before x
        (record s {
          first_ts = some (get_or_insert s.first_ts x.header.timestamp_ns);
          last_offset = some (latest s.last_offset offset);
        })
        pos (refl, tracked, bytes))

throughput_records-Holds :
    (way : Way) (scale_ns base_ts k n : ℕ) (before rs : List TraceRecord) (s : ThroughputState)
    → 0 < scale_ns
    → Holds way scale_ns base_ts k n before s
    → bytes_moved way (bucket_at (k * scale_ns) (throughput_records scale_ns rs s).bytes_by_bucket)
      ≡ (n + transferred way scale_ns base_ts k before rs) % 2 ^ 128
unfolding throughput_records transferred
throughput_records-Holds way scale_ns base_ts k n before [] s pos (begins, tracked, bytes) =
    bytes ∙ omega arith
throughput_records-Holds way scale_ns base_ts k n before (r ∷ rs) s pos holds =
    throughput_records-Holds way scale_ns base_ts k (n + moved_by way scale_ns base_ts k before r)
      (r ∷ before) rs (throughput_record scale_ns r s).0 pos
      (throughput_record-Holds way scale_ns base_ts k n before r s pos holds)
    ∙ omega arith

bytes_moved-empty : (way : Way) → bytes_moved way empty_bucket ≡ 0
bytes_moved-empty to_read = refl
bytes_moved-empty to_write = refl

-- With a positive scale, after any records, the bucket of each step of the scale holds the bytes
-- read and the bytes written by the completions in this step, counted from the first record's
-- time, whose command's last record before is a submission: each counts with the length of that
-- submission, in the column of its opcode, in 128 bits.
pub throughput_records-transferred :
    (way : Way) (scale_ns k : ℕ) (rs : List TraceRecord)
    → 0 < scale_ns
    → bytes_moved way
        (bucket_at (k * scale_ns) (throughput_records scale_ns rs no_throughput).bytes_by_bucket)
      ≡ transferred way scale_ns (start_of rs) k [] rs % 2 ^ 128
unfolding throughput_records throughput_record lookup pending transferred
throughput_records-transferred way scale_ns k [] pos = bytes_moved-empty way
throughput_records-transferred way scale_ns k (r ∷ rs) pos =
    throughput_records-Holds way scale_ns (record_header r).timestamp_ns k 0 [] (r ∷ rs)
      (record no_throughput { first_ts = some (record_header r).timestamp_ns }) pos
      (refl, (λ key. refl), bytes_moved-empty way)
    ∙ omega arith
