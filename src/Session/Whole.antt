-- ===== src/Session/Whole.antt =====
-- tracing/nvme-trace/src/capture.rs, lines 26 to 123: a capture, from the setup to the report. The
-- threads are what joining them gives; they write no file of tracefs.
use gds_traces.Base.Sort.{sort}
use gds_traces.Session.Control.{stop, FtraceCapture, check_overruns, cleanup, setup, start}
use gds_traces.Capture.Thread.{PipeError}
use gds_traces.Base.{List, Option, Ordering, [], compare, if◌then◌else◌, ltb, ℕ, ◌∷◌}
use gds_traces.Capture.Pipe.{CaptureStats}
use gds_traces.Base.Outcome.{Result, ok, err, map_err}
use gds_traces.Session.Tracefs.{
  Session, SessionError, Tracefs, Writes, cannot_create, cannot_handle, discover_cpus, from_result,
  incomplete, no_cpus, returns, thread_failed, thread_panicked, ◌>>=◌, ◌>>◌,
}

pub record CpuStats : Type 0 where
  pub cpu : ℕ
  pub captured : CaptureStats

pub data Joined : Type 0 where
  joined_ok : CpuStats → Joined
  joined_err : PipeError → Joined
  joined_panic : Joined

-- The two lists that joining fills.
unfoldable pub stats_of : List Joined → List CpuStats
stats_of [] = []
stats_of (joined_ok s ∷ js) = s ∷ stats_of js
stats_of (joined_err e ∷ js) = stats_of js
stats_of (joined_panic ∷ js) = stats_of js

unfoldable pub join_errors : List Joined → List SessionError
join_errors [] = []
join_errors (joined_ok s ∷ js) = join_errors js
join_errors (joined_err e ∷ js) = thread_failed e ∷ join_errors js
join_errors (joined_panic ∷ js) = thread_panicked ∷ join_errors js

-- The first of the errors is returned.
abbrev pub first_error : List SessionError → Result SessionError (Unit {0})
first_error [] = ok tt
first_error (e ∷ es) = err e

-- `let r = step();`: the error is kept for later.
abbrev pub kept :
    {A : Type 0}
    → Result SessionError A × Writes
    → Result SessionError (Result SessionError A) × Writes
kept (r, tried) = (ok r, tried)

abbrev pub keep : {A : Type 0} → Session A → Session (Result SessionError A)
keep step tried = kept (step tried)

unfoldable pub cpu_cmp : CpuStats → CpuStats → Ordering
cpu_cmp a b = compare a.cpu b.cpu

abbrev pub some_cpu : List ℕ → Result SessionError (Unit {0})
some_cpu [] = err no_cpus
some_cpu (n ∷ cpus) = ok tt

-- What the system answers around the session, and what each processor's thread gives.
pub record Surroundings : Type 0 where
  pub create_out_dir : Result ℕ (Unit {0})
  pub install_sigint_handler : Result ℕ (Unit {0})
  pub joined : FtraceCapture → List ℕ → List Joined

module _ (fs : Tracefs) (around : Surroundings) where
  abbrev pub all_captured : ℕ → Result SessionError (Unit {0})
  all_captured overruns = if ltb 0 overruns then err (incomplete overruns) else ok tt

  -- The end of a capture without an error so far. The lines that it prints of each processor, also
  -- where events were lost, are not modelled.
  unfoldable pub report : List Joined → ℕ → Session (List CpuStats)
  report joined overruns = do
    cleanup fs
    from_result (all_captured overruns)
    returns (sort cpu_cmp (stats_of joined))

  -- Behind the joining of the threads.
  unfoldable pub check_threads : List Joined → Session (List CpuStats)
  check_threads joined = do
    from_result (first_error (join_errors joined))
    overruns ← from_result (check_overruns fs)
    report joined overruns

  -- Behind the signal: the tracing stops, the threads are joined, the losses are counted.
  unfoldable pub finish_capture : List Joined → Session (List CpuStats)
  finish_capture joined = do
    stop_result ← keep (stop fs)
    from_result stop_result
    check_threads joined

  unfoldable pub start_capture : FtraceCapture → List ℕ → Session (List CpuStats)
  start_capture ftrace cpus = do
    from_result (map_err cannot_create around.create_out_dir)
    from_result (map_err cannot_handle around.install_sigint_handler)
    start fs
    finish_capture (around.joined ftrace cpus)

  unfoldable pub capture : Option ℕ → ℕ → Session (List CpuStats)
  capture ctrl_id_filter buffer_mb = do
    ftrace ← setup fs ctrl_id_filter buffer_mb
    cpus ← from_result (discover_cpus fs)
    from_result (some_cpu cpus)
    start_capture ftrace cpus
