-- ===== src/Session/Complete.antt =====
-- tracing/nvme-trace/src/capture.rs, lines 26 to 123: when a capture succeeds, and when it does not.
use gds_traces.Base.Sort.{IsOrdered, sort, sort-IsOrdered, sort-Perm}
use gds_traces.Session.Control.{stop, FtraceCapture, check_overruns, cleanup, setup, start}
use gds_traces.Session.Sequence.{bind-keep, capture-Follows}
use gds_traces.Session.Order.{run_writes, setup_writes}
use gds_traces.Base.Outcome.{Result, err, map_err, ok}
use gds_traces.Session.Whole.{
  CpuStats, Joined, Surroundings, all_captured, capture, check_threads, cpu_cmp, finish_capture,
  first_error, join_errors, joined_err, joined_ok, joined_panic, report, some_cpu, start_capture,
  stats_of,
}
use gds_traces.Session.Losses.{Lost, check_overruns-Lost}
use Prim.Native.Nat.{gt}
use mathlib.Core.List.{Perm}
use gds_traces.Base.{
  Bool-cases, inl, inr, leb, leb→le, map, ◌≤◌, sym, ◌∙◌, ◌≢◌, ap, arith, List, Option, [], length,
  refl, ℕ, ◌++◌, ◌∷◌, ◌≡◌,
}
use gds_traces.Session.Tracefs.{
  cannot_create, cannot_handle, Session, SessionError, Tracefs, Writes, continue_with,
  discover_cpus, from_result, returns, ◌>>=◌, ◌>>◌,
}

-- A chain that succeeds has a first step that does.
bind-ok :
    {A B : Type 0} (first : Session A) (after : A → Session B) (tried now : Writes) (b : B)
    → (first >>= after) tried ≡ (ok b, now)
    → (a : A) × (between : Writes) × (first tried ≡ (ok a, between))
      × (after a between ≡ (ok b, now))
bind-ok {A} {B} first after tried now b h = go (first tried) refl h
  where
    go :
        (out : Result SessionError A × Writes)
        → first tried ≡ out
        → continue_with after out ≡ (ok b, now)
        → (a : A) × (between : Writes) × (first tried ≡ (ok a, between))
          × (after a between ≡ (ok b, now))
    go (ok a, between) e h' = (a, between, e, h')
    go (err x, between) e h' = absurd (cc)

cpu_cmp-connex : (x y : CpuStats) → cpu_cmp x y ≡ gt → cpu_cmp y x ≢ gt
unfolding cpu_cmp
cpu_cmp-connex x y h = ground arith

-- By the number of the processor.
abbrev pub InCpuOrder : List CpuStats → Type 0
InCpuOrder [] = Unit {0}
InCpuOrder (a ∷ []) = Unit {0}
InCpuOrder (a ∷ b ∷ stats) = (a.cpu ≤ b.cpu) × InCpuOrder (b ∷ stats)

cpu_cmp-le : (a b : CpuStats) → cpu_cmp a b ≢ gt → a.cpu ≤ b.cpu
unfolding cpu_cmp
cpu_cmp-le a b h = elim (Bool-cases (leb a.cpu b.cpu)) [
  | inl below ↦ leb→le a.cpu b.cpu below
  | inr above ↦ ground arith
]

IsOrdered-InCpuOrder : (stats : List CpuStats) → IsOrdered cpu_cmp stats → InCpuOrder stats
IsOrdered-InCpuOrder [] h = tt
IsOrdered-InCpuOrder (a ∷ []) h = tt
IsOrdered-InCpuOrder (a ∷ b ∷ stats) (h, hs) =
    (cpu_cmp-le a b h, IsOrdered-InCpuOrder (b ∷ stats) hs)

all_joined :
    (joined : List Joined)
    → join_errors joined ≡ []
    → joined ≡ map (λ s. joined_ok s) (stats_of joined)
unfolding join_errors stats_of
all_joined [] h = refl
all_joined (joined_ok s ∷ js) h = ap (λ l. joined_ok s ∷ l) (all_joined js h)
all_joined (joined_err e ∷ js) h = cc
all_joined (joined_panic ∷ js) h = cc

module _ (fs : Tracefs) (around : Surroundings) where
  -- What a capture that succeeds says of the rest: all threads returned, and these are their counts.
  abbrev pub IsComplete : List Joined → List CpuStats → Type 0
  IsComplete joined stats =
      (captured : List CpuStats) × (joined ≡ map (λ s. joined_ok s) captured)
      × Lost fs 0
      × InCpuOrder stats
      × Perm stats captured

  no_first_error : (es : List SessionError) (a : Unit {0}) → first_error es ≡ ok a → es ≡ []
  no_first_error [] a h = refl
  no_first_error (e ∷ es) a h = cc

  no_overruns :
      (overruns : ℕ) (a : Unit {0}) → all_captured fs around overruns ≡ ok a → overruns ≡ 0
  no_overruns overruns a h = ground arith

  report-ok :
      (joined : List Joined) (overruns : ℕ) (tried now : Writes) (stats : List CpuStats)
      → report fs around joined overruns tried ≡ (ok stats, now)
      → (overruns ≡ 0) × (stats ≡ sort cpu_cmp (stats_of joined))
  unfolding report
  report-ok joined overruns tried now stats h =
      let (done_now, mid, e, rest) =
        bind-ok (cleanup fs)
          (λ done.
            from_result (all_captured fs around overruns)
            >> returns (sort cpu_cmp (stats_of joined)))
          tried now stats h in
      let (all, mid', e', rest') =
        bind-ok (from_result (all_captured fs around overruns))
          (λ a. returns (sort cpu_cmp (stats_of joined))) mid now stats rest in
      (no_overruns overruns all (ap (λ o. o.0) e'), cc)

  check_threads-ok :
      (joined : List Joined) (tried now : Writes) (stats : List CpuStats)
      → check_threads fs around joined tried ≡ (ok stats, now)
      → IsComplete joined stats
  unfolding check_threads
  check_threads-ok joined tried now stats h =
      let (a, mid, e, rest) =
        bind-ok (from_result (first_error (join_errors joined)))
          (λ no_error. from_result (check_overruns fs) >>= report fs around joined) tried now stats
          h in
      let (overruns, mid', e', rest') =
        bind-ok (from_result (check_overruns fs)) (report fs around joined) mid now stats rest in
      let (none_lost, sorted) = report-ok joined overruns mid' now stats rest' in
      let counted : check_overruns fs ≡ ok 0 = ap (λ o. o.0) e' ∙ ap (λ n. ok n) none_lost in
      (
        stats_of joined,
        all_joined joined (no_first_error (join_errors joined) a (ap (λ o. o.0) e)),
        check_overruns-Lost fs 0 counted,
        rw sorted
            (IsOrdered-InCpuOrder _ (sort-IsOrdered cpu_cmp cpu_cmp-connex (stats_of joined))),
        rw sorted (sort-Perm cpu_cmp (stats_of joined)),
      )

  finish_capture-ok :
      (joined : List Joined) (tried now : Writes) (stats : List CpuStats)
      → finish_capture fs around joined tried ≡ (ok stats, now)
      → IsComplete joined stats
  unfolding finish_capture
  finish_capture-ok joined tried now stats h =
      let (a, mid, e, rest) =
        bind-ok (stop fs) (λ stopped. check_threads fs around joined) tried now stats
          (sym (bind-keep (stop fs) (check_threads fs around joined) tried) ∙ h) in
      check_threads-ok joined mid now stats rest

  start_capture-ok :
      (ftrace : FtraceCapture) (cpus : List ℕ) (tried now : Writes) (stats : List CpuStats)
      → start_capture fs around ftrace cpus tried ≡ (ok stats, now)
      → IsComplete (around.joined ftrace cpus) stats
  unfolding start_capture
  start_capture-ok ftrace cpus tried now stats h =
      let joined = around.joined ftrace cpus in
      let (a, mid, e, rest) =
        bind-ok (from_result (map_err cannot_create around.create_out_dir))
          (λ made.
            from_result (map_err cannot_handle around.install_sigint_handler)
            >> (start fs >> finish_capture fs around joined))
          tried now stats h in
      let (b, mid', e', rest') =
        bind-ok (from_result (map_err cannot_handle around.install_sigint_handler))
          (λ handled. start fs >> finish_capture fs around joined) mid now stats rest in
      let (c, mid2, e2, rest2) =
        bind-ok (start fs) (λ started. finish_capture fs around joined) mid' now stats rest' in
      finish_capture-ok joined mid2 now stats rest2

  -- Where a capture succeeds, no thread failed or panicked, no event was lost: the numbers behind
  -- `overrun:` on the lines of all processors' `stats` files, of those that can be read, add up to
  -- 0 in 64 bits; and the report has the threads' counts, each once and in the order of the
  -- processors; and all writes to tracefs were tried, in order: those of the setup, the start, the
  -- stop and the cleanup.
  pub capture-IsComplete :
      (filter : Option ℕ) (buffer_mb : ℕ) (tried now : Writes) (stats : List CpuStats)
      → capture fs around filter buffer_mb tried ≡ (ok stats, now)
      → (ftrace : FtraceCapture) × (cpus : List ℕ) × (discover_cpus fs ≡ ok cpus)
        × IsComplete (around.joined ftrace cpus) stats
        × (now ≡ tried ++ (setup_writes filter buffer_mb (length cpus) ++ run_writes))
  unfolding capture
  capture-IsComplete filter buffer_mb tried now stats h =
      let (ftrace, mid, e, rest) =
        bind-ok (setup fs filter buffer_mb)
          (λ ftrace. from_result (discover_cpus fs) >>= λ found_cpus.
            from_result (some_cpu found_cpus) >> start_capture fs around ftrace found_cpus)
          tried now stats h in
      let (cpus, mid', e', rest') =
        bind-ok (from_result (discover_cpus fs))
          (λ found_cpus.
            from_result (some_cpu found_cpus) >> start_capture fs around ftrace found_cpus)
          mid now stats rest in
      let (c, mid2, e2, rest2) =
        bind-ok (from_result (some_cpu cpus)) (λ some_found. start_capture fs around ftrace cpus)
          mid' now stats rest' in
      let found : discover_cpus fs ≡ ok cpus = ap (λ o. o.0) e' in
      (
        ftrace,
        cpus,
        found,
        start_capture-ok ftrace cpus mid2 now stats rest2,
        rw h at (capture-Follows fs around filter buffer_mb cpus found tried),
      )
