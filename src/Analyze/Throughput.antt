-- ===== src/Analyze/Throughput.antt =====
-- tracing/nvme-trace/src/analyze.rs, lines 41 to 78, 183 to 224 and 245 to 247: bytes by time
-- bucket. The rates that are printed are floating-point quotients of what is here.

use gds_traces.Analyze.History.{command}
use gds_traces.Analyze.Maps.{has_key, insert, lookup, remove}
use gds_traces.Format.Types.{
  CompleteRecord, SubmitRecord, TraceRecord, complete, record_header, submit,
}
use gds_traces.Base.{
  List, Option, [], get_or, if◌then◌else◌, ltb, none, some, ℕ, ◌%◌, ◌*◌, ◌+◌, ◌-◌, ◌/◌, ◌==◌, ◌^◌,
  ◌∷◌,
}
use gds_traces.Analyze.Keys.{
  CommandKey, Warning, duplicate_submit, from_header, unmatched_completion, queue_key, command_key,
  depth_key,
}

pub data DataDirection : Type 0 where
  read_data write_data other_data : DataDirection

unfoldable pub from_opcode : ℕ → DataDirection
from_opcode opcode =
    if opcode == 0x01 then write_data else if opcode == 0x02 then read_data else other_data

pub record InFlightCommand : Type 0 where
  pub data_len : ℕ
  pub direction : DataDirection

pub record ThroughputBucket : Type 0 where
  pub read_bytes : ℕ
  pub write_bytes : ℕ

abbrev pub empty_bucket : ThroughputBucket
empty_bucket = record { read_bytes = 0; write_bytes = 0 }

-- `ThroughputBucket::add`; the sums are `u128`.
unfoldable pub add_command : InFlightCommand → ThroughputBucket → ThroughputBucket
add_command c b = elim (c.direction) [
  | read_data ↦ record b { read_bytes = (b.read_bytes + c.data_len) % 2 ^ 128 }
  | write_data ↦ record b { write_bytes = (b.write_bytes + c.data_len) % 2 ^ 128 }
  | other_data ↦ b
]

pub record ThroughputState : Type 0 where
  pub first_ts : Option ℕ
  pub last_offset : Option ℕ
  pub in_flight : List (CommandKey × InFlightCommand)
  pub bytes_by_bucket : List (ℕ × ThroughputBucket)

abbrev pub no_throughput : ThroughputState
no_throughput = record { first_ts = none; last_offset = none; in_flight = []; bytes_by_bucket = [] }

-- `first_ts.get_or_insert(ts)`
abbrev pub get_or_insert : Option ℕ → ℕ → ℕ
get_or_insert none ts = ts
get_or_insert (some t) ts = t

-- `last_offset.map_or(offset, |last| last.max(offset))`
abbrev pub latest : Option ℕ → ℕ → ℕ
latest none offset = offset
latest (some last) offset = if ltb last offset then offset else last

abbrev pub bucket_at : ℕ → List (ℕ × ThroughputBucket) → ThroughputBucket
bucket_at bucket m = elim (lookup bucket m) [ none ↦ empty_bucket | some b ↦ b ]

unfoldable pub throughput_submit : SubmitRecord → ThroughputState → ThroughputState × List Warning
throughput_submit r s =
    let key = from_header r.header in
    let command : InFlightCommand = record {
      data_len = r.data_len;
      direction = from_opcode (get_or r.sqe 0 0);
    } in
    (
      record s { in_flight = insert key command s.in_flight },
      if has_key key s.in_flight then duplicate_submit key ∷ [] else [],
    )

unfoldable pub throughput_complete :
    ℕ → ℕ → CompleteRecord → ThroughputState → ThroughputState × List Warning
throughput_complete scale_ns offset r s =
    let key = from_header r.header in
    let bucket = offset / scale_ns * scale_ns in
    elim (lookup key s.in_flight) [
      | none ↦ (s, unmatched_completion key ∷ [])
      | some command ↦ (
        record s {
          in_flight = remove key s.in_flight;
          bytes_by_bucket =
              insert bucket (add_command command (bucket_at bucket s.bytes_by_bucket))
                s.bytes_by_bucket;
        },
        [],
      )
    ]

-- One round of the loop over the records.
unfoldable pub throughput_record :
    ℕ → TraceRecord → ThroughputState → ThroughputState × List Warning
throughput_record scale_ns r s =
    let ts = (record_header r).timestamp_ns in
    let base_ts = get_or_insert s.first_ts ts in
    let offset = ts - base_ts in
    let seen : ThroughputState = record s {
      first_ts = some base_ts;
      last_offset = some (latest s.last_offset offset);
    } in
    elim r [
      | submit x ↦ throughput_submit x seen
      | complete x ↦ throughput_complete scale_ns offset x seen
    ]

unfoldable pub throughput_records : ℕ → List TraceRecord → ThroughputState → ThroughputState
throughput_records scale_ns [] s = s
throughput_records scale_ns (r ∷ rs) s =
    throughput_records scale_ns rs (throughput_record scale_ns r s).0

-- `last_offset.saturating_sub(bucket).clamp(1, scale_ns)`
unfoldable pub throughput_bucket_duration_ns : ℕ → ℕ → ℕ → ℕ
throughput_bucket_duration_ns bucket scale_ns last_offset =
    let d = last_offset - bucket in if ltb d 1 then 1 else if ltb scale_ns d then scale_ns else d
