-- ===== src/Session/Sequence.antt =====
-- tracing/nvme-trace/src/capture.rs, lines 26 to 123: the writes to tracefs of a whole capture.
use gds_traces.Text.Affix.{codes}
use gds_traces.Base.Sort.{sort}
use gds_traces.Session.Effects.{Follows, Follows-bind, Follows-read, Follows-returns, write_of}
use gds_traces.Session.Control.{stop, FtraceCapture, check_overruns, cleanup, setup, start}
use gds_traces.Session.Order.{
  cleanup-tried, cleanup_writes, run_writes, setup-Follows, setup_writes, start-Follows,
  stop-Follows, stop_writes,
}
use gds_traces.Base.Outcome.{Result, err, map_err, ok}
use gds_traces.Session.Whole.{
  Joined, Surroundings, all_captured, capture, check_threads, cpu_cmp, finish_capture, first_error,
  join_errors, keep, kept, report, some_cpu, start_capture, stats_of,
}
use gds_traces.Base.{List, Option, [], length, refl, ℕ, ◌++◌, ◌∷◌, ◌≡◌}
use gds_traces.Session.Tracefs.{
  cannot_create, cannot_handle, Session, SessionError, Tracefs, Writes, continue_with,
  discover_cpus, from_result, returns, ◌>>=◌, ◌>>◌,
}

pub bind-keep :
    {B : Type 0} (step : Session (Unit {0})) (after : Session B) (tried : Writes)
    → (keep step >>= λ r. from_result r >> after) tried ≡ (step >> after) tried
bind-keep step after tried = go (step tried)
  where
    go :
        (out : Result SessionError (Unit {0}) × Writes)
        → continue_with (λ r. from_result r >> after) (kept out) ≡ continue_with (λ done. after) out
    go (ok a, now) = refl
    go (err e, now) = refl

module _ (fs : Tracefs) (around : Surroundings) where
  cleanup-Follows : Follows cleanup_writes (cleanup fs)
  cleanup-Follows tried = rw (cleanup-tried fs tried) refl

  report-Follows :
      (joined : List Joined) (overruns : ℕ)
      → Follows cleanup_writes (report fs around joined overruns)
  unfolding report
  report-Follows joined overruns =
      Follows-bind cleanup_writes [] (cleanup fs) _ cleanup-Follows λ done.
        Follows-read fs (all_captured fs around overruns) []
          (λ complete. returns (sort cpu_cmp (stats_of joined)))
          (λ complete. Follows-returns (sort cpu_cmp (stats_of joined)))

  check_threads-Follows :
      (joined : List Joined) → Follows cleanup_writes (check_threads fs around joined)
  unfolding check_threads
  check_threads-Follows joined =
      Follows-read fs (first_error (join_errors joined)) cleanup_writes
        (λ no_error. from_result (check_overruns fs) >>= report fs around joined)
        λ no_error.
          Follows-read fs (check_overruns fs) cleanup_writes (report fs around joined)
            (report-Follows joined)

  pub finish_capture-Follows :
      (joined : List Joined)
      → Follows (stop_writes ++ cleanup_writes) (finish_capture fs around joined)
  unfolding finish_capture
  finish_capture-Follows joined tried =
      rw (bind-keep (stop fs) (check_threads fs around joined) tried) (
        Follows-bind stop_writes cleanup_writes (stop fs)
          (λ stopped. check_threads fs around joined) (stop-Follows fs)
          (λ stopped. check_threads-Follows joined) tried)

  start_capture-Follows :
      (ftrace : FtraceCapture) (cpus : List ℕ)
      → Follows run_writes (start_capture fs around ftrace cpus)
  unfolding start_capture
  start_capture-Follows ftrace cpus =
      Follows-read fs (map_err cannot_create around.create_out_dir) run_writes
        (λ made.
          from_result (map_err cannot_handle around.install_sigint_handler)
          >> (start fs >> finish_capture fs around (around.joined ftrace cpus)))
        λ made.
          Follows-read fs (map_err cannot_handle around.install_sigint_handler) run_writes
            (λ handled. start fs >> finish_capture fs around (around.joined ftrace cpus))
            λ handled.
              Follows-bind (write_of (codes "tracing_on") (codes "1") ∷ [])
                (stop_writes ++ cleanup_writes) (start fs)
                (λ started. finish_capture fs around (around.joined ftrace cpus)) (start-Follows fs)
                (λ started. finish_capture-Follows (around.joined ftrace cpus))

  -- Where the processors can be listed, a capture tries these writes to tracefs, in this order,
  -- whatever any of them answers: tracing off, the buffer's size and the trace emptied, the
  -- filters, the two events on, then tracing on, tracing and the events off, and the cleanup.
  -- Where it fails, it has tried a first part of them, which may be none or all, and no other.
  pub capture-Follows :
      (filter : Option ℕ) (buffer_mb : ℕ) (cpus : List ℕ)
      → discover_cpus fs ≡ ok cpus
      → Follows
          (setup_writes filter buffer_mb (length cpus)
            ++ write_of (codes "tracing_on") (codes "1") ∷ (stop_writes ++ cleanup_writes))
          (capture fs around filter buffer_mb)
  unfolding capture
  capture-Follows filter buffer_mb cpus found =
      Follows-bind (setup_writes filter buffer_mb (length cpus)) run_writes
        (setup fs filter buffer_mb)
        (λ ftrace. from_result (discover_cpus fs) >>= λ found_cpus.
          from_result (some_cpu found_cpus) >> start_capture fs around ftrace found_cpus)
        (setup-Follows fs filter buffer_mb cpus found)
        λ ftrace.
          Follows-read fs (discover_cpus fs) run_writes
            (λ found_cpus.
              from_result (some_cpu found_cpus) >> start_capture fs around ftrace found_cpus)
            λ found_cpus.
              Follows-read fs (some_cpu found_cpus) run_writes
                (λ some_found. start_capture fs around ftrace found_cpus)
                (λ some_found. start_capture-Follows ftrace found_cpus)
