-- ===== src/Analyze/Transfers.antt =====
-- tracing/nvme-trace/src/analyze.rs, lines 183 to 224: the bytes of a time bucket, said of the
-- records themselves.

use gds_traces.Analyze.Keys.{CommandKey, command_key, depth_key, from_header}
use gds_traces.Format.Types.{SubmitRecord, TraceRecord, complete, record_header, submit}
use gds_traces.Analyze.Maps.{key_eq}
use gds_traces.Analyze.Throughput.{InFlightCommand, ThroughputBucket, add_command, from_opcode}
use gds_traces.Base.{
  ap, Bool-cases, ltb→le, ltb→lt, Bool, List, Option, [], arith, get_or, if◌then◌else◌, inl, inr,
  leb, ltb, none, some, suc, ℕ, ◌%◌, ◌&&◌, ◌*◌, ◌+◌, ◌-◌, ◌/◌, ◌<◌, ◌==◌, ◌^◌, ◌∷◌, ◌≡◌, ◌≤◌,
}
use native.Mathlib.Nat.{lt-div-mul-add, div-mul-le_self, mul-le-mul_right}

-- The two ways that the report has a column for.
pub data Way : Type 0 where
  to_read to_write : Way

abbrev pub opcode_of : Way → ℕ
opcode_of to_read = 0x02
opcode_of to_write = 0x01

abbrev pub bytes_moved : Way → ThroughputBucket → ℕ
bytes_moved to_read b = b.read_bytes
bytes_moved to_write b = b.write_bytes

-- The bytes that a submission asks to move one way.
abbrev pub asked : Way → SubmitRecord → ℕ
asked way x = if get_or x.sqe 0 0 == opcode_of way then x.data_len else 0

-- The submission of a command that is still open, from its records, the last first.
unfoldable pub pending : CommandKey → List TraceRecord → Option SubmitRecord
pending k [] = none
pending k (submit x ∷ before) = if key_eq (from_header x.header) k then some x else pending k before
pending k (complete x ∷ before) = if key_eq (from_header x.header) k then none else pending k before

-- Whether a time lies in the step number `k` of the scale.
abbrev pub in_step : ℕ → ℕ → ℕ → Bool
in_step scale_ns k offset = leb (k * scale_ns) offset && ltb offset (k * scale_ns + scale_ns)

abbrev pub asked_by : Way → Option SubmitRecord → ℕ
asked_by way none = 0
asked_by way (some x) = asked way x

-- The bytes that a record finishes one way in a step: those of a completion in it whose command is
-- open.
abbrev pub moved_by : Way → ℕ → ℕ → ℕ → List TraceRecord → TraceRecord → ℕ
moved_by way scale_ns base_ts k before (submit x) = 0
moved_by way scale_ns base_ts k before (complete x) =
    if in_step scale_ns k (x.header.timestamp_ns - base_ts)
    then asked_by way (pending (from_header x.header) before)
    else 0

unfoldable pub transferred : Way → ℕ → ℕ → ℕ → List TraceRecord → List TraceRecord → ℕ
transferred way scale_ns base_ts k before [] = 0
transferred way scale_ns base_ts k before (r ∷ rs) =
    moved_by way scale_ns base_ts k before r + transferred way scale_ns base_ts k (r ∷ before) rs

-- The time of the first record.
abbrev pub start_of : List TraceRecord → ℕ
start_of [] = 0
start_of (r ∷ rs) = (record_header r).timestamp_ns

abbrev pub command_of : SubmitRecord → InFlightCommand
command_of x = record { data_len = x.data_len; direction = from_opcode (get_or x.sqe 0 0) }

abbrev pub as_command : Option SubmitRecord → Option InFlightCommand
as_command none = none
as_command (some x) = some (command_of x)

pub bytes_moved-add_command :
    (way : Way) (x : SubmitRecord) (b : ThroughputBucket) (n : ℕ)
    → bytes_moved way b ≡ n % 2 ^ 128
    → bytes_moved way (add_command (command_of x) b) ≡ (n + asked way x) % 2 ^ 128
unfolding add_command from_opcode
bytes_moved-add_command to_read x b n h = ground arith
bytes_moved-add_command to_write x b n h = ground arith

step_lt : (a b scale_ns : ℕ) → a < b → a * scale_ns + scale_ns ≤ b * scale_ns
step_lt a b scale_ns h = omega (arith, mul-le-mul_right {m = suc a} {n = b} scale_ns h)

pub same_step :
    (scale_ns k offset : ℕ)
    → 0 < scale_ns
    → key_eq (offset / scale_ns * scale_ns) (k * scale_ns) ≡ in_step scale_ns k offset
unfolding depth_key
same_step scale_ns k offset pos =
    let q = offset / scale_ns in
    let low : q * scale_ns ≤ offset = div-mul-le_self offset scale_ns in
    let high : offset < q * scale_ns + scale_ns = lt-div-mul-add pos in
    elim (Bool-cases (ltb q k)) [
      | inl below ↦ let over = step_lt q k scale_ns (ltb→lt q k below) in ground arith
      | inr not_below ↦ elim (Bool-cases (ltb k q)) [
        | inl above ↦ let over = step_lt k q scale_ns (ltb→lt k q above) in ground arith
        | inr not_above ↦
            let same : q ≡ k = omega (arith, ltb→le q k not_below, ltb→le k q not_above) in
            let at : q * scale_ns ≡ k * scale_ns = ap (λ x. x * scale_ns) same in ground arith
      ]
    ]
