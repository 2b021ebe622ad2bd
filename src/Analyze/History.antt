-- ===== src/Analyze/History.antt =====
-- tracing/nvme-trace/src/analyze.rs, lines 351 to 382: the commands in flight, said of the records
-- themselves.

use gds_traces.Format.Types.{TraceRecord, complete, record_header, submit}
use gds_traces.Analyze.Maps.{
  contains-set_insert, contains-set_remove, key_eq→eq, contains, has_dup, has_dup-set_insert,
  has_dup-set_remove, key_eq,
}
use gds_traces.Analyze.Depth.{
  increment, apply_records, QueueDepthState, apply_complete, apply_record, apply_submit,
}
use gds_traces.Base.{
  ◌-◌, not, refl, subst, ◌&&◌, ◌||◌, ◌∙◌, Bool, Bool-cases, List, [], arith, false, if◌then◌else◌,
  inl, inr, true, ◌∷◌, ◌≡◌,
}
use gds_traces.Analyze.Keys.{
  Warning, duplicate_submit, unmatched_completion, CommandKey, from_header, queue_key, command_key,
}

abbrev pub command : TraceRecord → CommandKey
command r = from_header (record_header r)

abbrev pub is_submission : TraceRecord → Bool
is_submission (submit r) = true
is_submission (complete r) = false

-- Whether the last record of the command `k` is a submission; `before` is what holds without one.
unfoldable pub is_open : CommandKey → Bool → List TraceRecord → Bool
is_open k before [] = before
is_open k before (r ∷ rs) = is_open k (if key_eq (command r) k then is_submission r else before) rs

apply_record-distinct :
    (r : TraceRecord) (s : QueueDepthState)
    → has_dup s.in_flight ≡ false
    → has_dup (apply_record r s).0.in_flight ≡ false
unfolding apply_record apply_submit apply_complete
apply_record-distinct (submit r) s d =
    ground (arith, has_dup-set_insert (from_header r.header) s.in_flight)
apply_record-distinct (complete r) s d =
    ground (arith, has_dup-set_remove (from_header r.header) s.in_flight)

-- A command whose membership is known already.
unchanged :
    (key k : CommandKey) (b : Bool) (ks : List CommandKey)
    → contains key ks ≡ b
    → contains k ks ≡ (if key_eq key k then b else contains k ks)
unchanged key k b ks h = elim (Bool-cases (key_eq key k)) [
  | inl same ↦ rw same (subst (λ x. contains x ks ≡ b) (key_eq→eq key k same) h)
  | inr differs ↦ rw differs
]

either : (a b : Bool) → (a || b) ≡ (if a then true else b)
either true b = refl
either false b = refl

neither : (a b : Bool) → (not a && b) ≡ (if a then false else b)
neither true b = refl
neither false b = refl

contains-apply_record :
    (r : TraceRecord) (s : QueueDepthState) (k : CommandKey)
    → has_dup s.in_flight ≡ false
    → contains k (apply_record r s).0.in_flight
      ≡ (if key_eq (command r) k then is_submission r else contains k s.in_flight)
unfolding apply_record apply_submit apply_complete
contains-apply_record (submit r) s k d =
    let key = from_header r.header in
    elim (Bool-cases (contains key s.in_flight)) [
      | inl dup ↦ rw dup (unchanged key k true s.in_flight dup)
      | inr fresh ↦
          rw fresh
            (contains-set_insert key k s.in_flight ∙ either (key_eq key k) (contains k s.in_flight))
    ]
contains-apply_record (complete r) s k d =
    let key = from_header r.header in
    elim (Bool-cases (contains key s.in_flight)) [
      | inl here ↦ rw here (
          contains-set_remove key k s.in_flight d ∙ neither (key_eq key k) (contains k s.in_flight))
      | inr absent ↦ rw absent (unchanged key k false s.in_flight absent)
    ]

-- From a state with no command twice in flight, after any records, a command is in flight just if
-- its last record is a submission, or, where it has no record, if it was in flight before.
pub contains-apply_records :
    (rs : List TraceRecord) (s : QueueDepthState) (k : CommandKey)
    → has_dup s.in_flight ≡ false
    → contains k (apply_records rs s).in_flight ≡ is_open k (contains k s.in_flight) rs
unfolding apply_records is_open
contains-apply_records [] s k d = refl
contains-apply_records (r ∷ rs) s k d =
    contains-apply_records rs (apply_record r s).0 k (apply_record-distinct r s d)
    ∙ rw (contains-apply_record r s k d)

-- A submission of a command that is in flight, or a completion of one that is not.
abbrev pub misfits : TraceRecord → QueueDepthState → Bool
misfits r s =
    let open_now = contains (command r) s.in_flight in
    if is_submission r then open_now else not open_now

abbrev pub warning : TraceRecord → Warning
warning r =
    if is_submission r then duplicate_submit (command r) else unmatched_completion (command r)

-- A submission of a command in flight, or a completion of one that is not, gives one warning and
-- leaves the global depth as it was. Any other record gives none, and adds one to the global
-- depth, or takes one off.
pub apply_record-warnings :
    (r : TraceRecord) (s : QueueDepthState)
    → ((apply_record r s).1 ≡ (if misfits r s then warning r ∷ [] else []))
      × ((apply_record r s).0.global_depth ≡ (
          if misfits r s
          then s.global_depth
          else if is_submission r
          then increment s.global_depth
          else s.global_depth - 1))
unfolding apply_record apply_submit apply_complete
apply_record-warnings (submit r) s =
    elim (Bool-cases (contains (from_header r.header) s.in_flight)) [
      | inl dup ↦ rw dup (refl, refl)
      | inr fresh ↦ rw fresh (refl, refl)
    ]
apply_record-warnings (complete r) s =
    elim (Bool-cases (contains (from_header r.header) s.in_flight)) [
      | inl here ↦ rw here (refl, refl)
      | inr absent ↦ rw absent (refl, refl)
    ]
