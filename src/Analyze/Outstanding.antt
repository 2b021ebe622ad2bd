-- ===== src/Analyze/Outstanding.antt =====
-- tracing/nvme-trace/src/analyze.rs, lines 351 to 382: what the depths of `QueueDepthState` count.
use gds_traces.Format.Types.{TraceRecord, complete, submit}
use gds_traces.Analyze.Depth.{
  apply_complete, apply_record, apply_records, bump, increment, lower, unwrap_or_default,
  QueueDepthState, apply_submit, default_state, depth_of,
}
use gds_traces.Analyze.Keys.{from_header, queue_key, command_key, CommandKey, QueueKey, queue}
use gds_traces.Base.{
  length, ◌+◌, subst, Option, if◌then◌else◌, some, ◌-◌, Bool, Bool-cases, List, [], arith, false,
  inl, inr, none, refl, suc, true, ℕ, ◌<◌, ◌^◌, ◌∷◌, ◌≡◌, ◌≤◌,
}
use gds_traces.Analyze.Maps.{
  count_if-set_remove, has_dup-set_remove, count_if-set_insert, insert, key_eq→eq, lookup-insert,
  contains, contains-set_insert, count_if, has_dup, has_dup-set_insert, key_eq, lookup,
}

-- The number of commands in flight, in all and in one queue.
abbrev pub outstanding : List CommandKey → ℕ
outstanding ks = count_if (λ k. true) ks

abbrev pub outstanding_in : QueueKey → List CommandKey → ℕ
outstanding_in q ks = count_if (λ k. key_eq (queue k) q) ks

-- The depths are the numbers of commands in flight, each command counts once, and every queue with
-- a depth is known.
pub record IsDepthState (s : QueueDepthState) : Type 0 where
  pub distinct : has_dup s.in_flight ≡ false
  pub global_counts : s.global_depth ≡ outstanding s.in_flight
  pub queue_counts : (q : QueueKey) → depth_of s q ≡ outstanding_in q s.in_flight
  pub known_covers :
      (q : QueueKey) → contains q s.known_queues ≡ false → lookup q s.queue_depths ≡ none

pub IsDepthState-default : IsDepthState default_state
unfolding count_if lookup has_dup contains
IsDepthState-default = record {
  distinct = refl;
  global_counts = refl;
  queue_counts = λ q. refl;
  known_covers = λ q h. refl;
}

count_if-le : (p : CommandKey → Bool) (ks : List CommandKey) → count_if p ks ≤ outstanding ks
unfolding count_if
count_if-le p [] = omega arith
count_if-le p (k ∷ ks) = ground (arith, count_if-le p ks)

pub lookup-bump :
    (j q : QueueKey) (m : List (QueueKey × ℕ))
    → unwrap_or_default (lookup q (bump j m)) ≡ (
        if key_eq j q
        then increment (unwrap_or_default (lookup q m))
        else unwrap_or_default (lookup q m))
lookup-bump j q m = rw (lookup-insert j q _ m) (elim (Bool-cases (key_eq j q)) [
  | inl same ↦ rw same (rw (key_eq→eq j q same))
  | inr differs ↦ rw differs
])

lookup-lower :
    (j q : QueueKey) (m : List (QueueKey × ℕ))
    → unwrap_or_default (lookup q (lower j m))
      ≡ (if key_eq j q then unwrap_or_default (lookup q m) - 1 else unwrap_or_default (lookup q m))
lookup-lower j q m = split (lookup j m) refl
  where
    split :
        (o : Option ℕ)
        → lookup j m ≡ o
        → unwrap_or_default (lookup q (elim o [ none ↦ m | some depth ↦ insert j (depth - 1) m ]))
          ≡ (if key_eq j q
              then unwrap_or_default (lookup q m) - 1
              else unwrap_or_default (lookup q m))
    split none e = elim (Bool-cases (key_eq j q)) [
      | inl same ↦
          let here : lookup q m ≡ none = subst (λ x. lookup x m ≡ none) (key_eq→eq j q same) e in
          rw same (rw here)
      | inr differs ↦ rw differs
    ]
    split (some d) e = rw (lookup-insert j q (d - 1) m) (elim (Bool-cases (key_eq j q)) [
      | inl same ↦
          let here : lookup q m ≡ some d =
            subst (λ x. lookup x m ≡ some d) (key_eq→eq j q same) e in
          rw same (rw here)
      | inr differs ↦ rw differs
    ])

lower-none :
    (j q : QueueKey) (m : List (QueueKey × ℕ)) → lookup q m ≡ none → lookup q (lower j m) ≡ none
lower-none j q m h = split (lookup j m) refl
  where
    split :
        (o : Option ℕ)
        → lookup j m ≡ o
        → lookup q (elim o [ none ↦ m | some depth ↦ insert j (depth - 1) m ]) ≡ none
    split none e = h
    split (some d) e = rw (lookup-insert j q (d - 1) m) (elim (Bool-cases (key_eq j q)) [
      | inl same ↦
          let here : lookup q m ≡ some d =
            subst (λ x. lookup x m ≡ some d) (key_eq→eq j q same) e in
          cc
      | inr differs ↦ rw differs h
    ])

apply_submit-IsDepthState :
    (key : CommandKey) (s : QueueDepthState)
    → IsDepthState s
    → suc (outstanding s.in_flight) < 2 ^ 64
    → IsDepthState (apply_submit key s).0
unfolding apply_submit
apply_submit-IsDepthState key s w room = elim (Bool-cases (contains key s.in_flight)) [
  | inl dup ↦ rw dup (record {
    distinct = w.distinct;
    global_counts = w.global_counts;
    queue_counts = w.queue_counts;
    known_covers =
        λ q h. w.known_covers q (ground (arith, contains-set_insert (queue key) q s.known_queues));
  })
  | inr fresh ↦ rw fresh (record {
    distinct = has_dup-set_insert key s.in_flight fresh w.distinct;
    global_counts =
        omega (arith, w.global_counts, count_if-set_insert (λ k. true) key s.in_flight fresh);
    queue_counts = λ q. ground (
      arith,
      w.queue_counts q,
      lookup-bump (queue key) q s.queue_depths,
      count_if-set_insert (λ k. key_eq (queue k) q) key s.in_flight fresh,
      count_if-le (λ k. key_eq (queue k) q) s.in_flight,
    );
    known_covers = λ q h. ground (
      arith,
      w.known_covers q,
      contains-set_insert (queue key) q s.known_queues,
      lookup-insert (queue key) q
          (increment (unwrap_or_default (lookup (queue key) s.queue_depths))) s.queue_depths,
    );
  })
]

apply_complete-IsDepthState :
    (key : CommandKey) (s : QueueDepthState)
    → IsDepthState s
    → IsDepthState (apply_complete key s).0
unfolding apply_complete
apply_complete-IsDepthState key s w = elim (Bool-cases (contains key s.in_flight)) [
  | inr absent ↦ rw absent w
  | inl here ↦ rw here (record {
    distinct = has_dup-set_remove key s.in_flight w.distinct;
    global_counts =
        omega (arith, w.global_counts, count_if-set_remove (λ k. true) key s.in_flight here);
    queue_counts = λ q. ground (
      arith,
      w.queue_counts q,
      lookup-lower (queue key) q s.queue_depths,
      count_if-set_remove (λ k. key_eq (queue k) q) key s.in_flight here,
    );
    known_covers = λ q h. lower-none (queue key) q s.queue_depths (w.known_covers q h);
  })
]

-- A record of any kind keeps the counts right, and puts one command in flight at most.
apply_record-IsDepthState :
    (r : TraceRecord) (s : QueueDepthState)
    → IsDepthState s
    → suc (outstanding s.in_flight) < 2 ^ 64
    → IsDepthState (apply_record r s).0
unfolding apply_record
apply_record-IsDepthState (submit r) s w room =
    apply_submit-IsDepthState (from_header r.header) s w room
apply_record-IsDepthState (complete r) s w room =
    apply_complete-IsDepthState (from_header r.header) s w

outstanding-apply_record :
    (r : TraceRecord) (s : QueueDepthState)
    → outstanding (apply_record r s).0.in_flight ≤ suc (outstanding s.in_flight)
unfolding apply_record apply_submit apply_complete
outstanding-apply_record (submit r) s =
    ground (arith, count_if-set_insert (λ k. true) (from_header r.header) s.in_flight)
outstanding-apply_record (complete r) s =
    ground (arith, count_if-set_remove (λ k. true) (from_header r.header) s.in_flight)

-- From a state whose depths are right, after a list of records that is short enough for a 64-bit
-- count, the depths are right again: no command is twice in flight, the global depth is the number
-- of commands in flight, the depth of each queue is the number of its commands in flight, and a
-- queue that is not known has no depth.
pub apply_records-IsDepthState :
    (rs : List TraceRecord) (s : QueueDepthState)
    → IsDepthState s
    → outstanding s.in_flight + length rs < 2 ^ 64
    → IsDepthState (apply_records rs s)
unfolding apply_records
apply_records-IsDepthState [] s w room = w
apply_records-IsDepthState (r ∷ rs) s w room =
    let less = outstanding-apply_record r s in
    apply_records-IsDepthState rs (apply_record r s).0
      (apply_record-IsDepthState r s w (omega arith)) (omega arith)
