-- ===== src/Session/Control.antt =====
-- tracing/nvme-trace/src/ftrace.rs, lines 88 to 207: `FtraceCapture`.
use gds_traces.Ftrace.Formats.{CompleteFormat, SubmitFormat}
use gds_traces.Text.Decimal.{decimal}
use gds_traces.Text.Digits.{parse_unsigned}
use gds_traces.Text.Words.{lines, trim}
use gds_traces.Text.Affix.{Text, codes, strip_prefix}
use gds_traces.Base.{List, Option, [], length, none, some, ℕ, ◌%◌, ◌*◌, ◌++◌, ◌+◌, ◌/◌, ◌^◌, ◌∷◌}
use gds_traces.Base.Outcome.{Result, ok, err}
use gds_traces.Session.Tracefs.{
  DirEntry, Session, SessionError, Tracefs, cannot_list, cannot_read, complete_dir, discover_cpus,
  from_result, parse_complete_format, parse_submit_format, read_event_id, returns, submit_dir,
  try_write, write_file, ◌>>=◌, ◌>>◌,
}

pub record FtraceCapture : Type 0 where
  pub submit_id : ℕ
  pub complete_id : ℕ
  pub submit_fmt : SubmitFormat
  pub complete_fmt : CompleteFormat

abbrev pub capture_of : ℕ → ℕ → SubmitFormat → CompleteFormat → FtraceCapture
capture_of submit_id complete_id submit_fmt complete_fmt = record {
  submit_id = submit_id;
  complete_id = complete_id;
  submit_fmt = submit_fmt;
  complete_fmt = complete_fmt;
}

module _ (fs : Tracefs) where
  -- The filter of one controller, for both events.
  unfoldable pub set_filter : Option ℕ → Session (Unit {0})
  set_filter none = returns tt
  set_filter (some id) = do
    let filter = codes "ctrl_id==" ++ decimal id
    write_file fs (submit_dir ++ codes "filter") filter
    write_file fs (complete_dir ++ codes "filter") filter

  -- The product wraps, as in a release build.
  unfoldable pub setup : Option ℕ → ℕ → Session FtraceCapture
  unfolding set_filter
  setup ctrl_id_filter buffer_mb = do
    cpus ← from_result (discover_cpus fs)
    write_file fs (codes "current_tracer") (codes "nop")
    write_file fs (codes "events/enable") (codes "0")
    write_file fs (codes "tracing_on") (codes "0")
    let per_cpu_kb = buffer_mb * 1024 % 2 ^ 64 / length cpus
    write_file fs (codes "buffer_size_kb") (decimal per_cpu_kb)
    write_file fs (codes "trace_options") (codes "nooverwrite")
    write_file fs (codes "trace") []
    submit_id ← from_result (read_event_id fs submit_dir)
    complete_id ← from_result (read_event_id fs complete_dir)
    submit_fmt ← from_result (parse_submit_format fs)
    complete_fmt ← from_result (parse_complete_format fs)
    set_filter ctrl_id_filter
    write_file fs (submit_dir ++ codes "enable") (codes "1")
    write_file fs (complete_dir ++ codes "enable") (codes "1")
    returns (capture_of submit_id complete_id submit_fmt complete_fmt)

  unfoldable pub start : Session (Unit {0})
  start = write_file fs (codes "tracing_on") (codes "1")

  unfoldable pub stop : Session (Unit {0})
  stop = do
    write_file fs (codes "tracing_on") (codes "0")
    write_file fs (submit_dir ++ codes "enable") (codes "0")
    write_file fs (complete_dir ++ codes "enable") (codes "0")

  -- The errors are dropped.
  unfoldable pub cleanup : Session (Unit {0})
  cleanup = do
    try_write fs (codes "trace_options") (codes "overwrite")
    try_write fs (codes "buffer_size_kb") (codes "1408")
    try_write fs (submit_dir ++ codes "filter") (codes "0")
    try_write fs (complete_dir ++ codes "filter") (codes "0")
    try_write fs (codes "trace") []

-- The count that a line of a `stats` file gives.
unfoldable pub overrun_in : Text → ℕ
overrun_in line = elim (strip_prefix (codes "overrun:") line) [
  | none ↦ 0
  | some v ↦ elim (parse_unsigned (2 ^ 64) (trim v)) [ none ↦ 0 | some n ↦ n ]
]

unfoldable pub overruns_in : List Text → ℕ → ℕ
overruns_in [] sum = sum
overruns_in (line ∷ more) sum = overruns_in more ((sum + overrun_in line) % 2 ^ 64)

-- A file that cannot be read counts nothing.
abbrev pub stats_overruns : Result ℕ Text → ℕ → ℕ
stats_overruns (err e) sum = sum
stats_overruns (ok content) sum = overruns_in (lines content) sum

abbrev pub stats_path : DirEntry → Text
stats_path entry = codes "per_cpu/" ++ (entry.name ++ codes "/stats")

module _ (fs : Tracefs) where
  unfoldable pub sum_overruns : List (Result ℕ DirEntry) → ℕ → Result SessionError ℕ
  sum_overruns [] sum = ok sum
  sum_overruns (err e ∷ entries) sum = err (cannot_list e)
  sum_overruns (ok entry ∷ entries) sum =
      sum_overruns entries (stats_overruns (fs.read_to_string (stats_path entry)) sum)

  abbrev pub overruns_of : Result ℕ (List (Result ℕ DirEntry)) → Result SessionError ℕ
  overruns_of (err e) = err (cannot_read (codes "per_cpu") e)
  overruns_of (ok entries) = sum_overruns entries 0

  unfoldable pub check_overruns : Result SessionError ℕ
  check_overruns = overruns_of fs.per_cpu
