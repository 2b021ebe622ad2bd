-- ===== src/Session/Order.antt =====
-- tracing/nvme-trace/src/ftrace.rs, lines 100 to 202: which writes a session tries.
use gds_traces.Text.Decimal.{decimal}
use gds_traces.Text.Affix.{Text, codes}
use gds_traces.Session.Effects.{
  Follows, Follows-bind, Follows-read, Follows-returns, Follows-write, Follows-write_file, write_of,
}
use gds_traces.Session.Control.{stop, capture_of, cleanup, set_filter, setup, start}
use gds_traces.Base.{
  List, Option, [], append_assoc, length, none, some, ℕ, ◌%◌, ◌*◌, ◌++◌, ◌/◌, ◌^◌, ◌∷◌, ◌≡◌,
}
use gds_traces.Base.Outcome.{ok}
use gds_traces.Session.Tracefs.{
  Tracefs, Writes, complete_dir, discover_cpus, from_result, parse_complete_format,
  parse_submit_format, read_event_id, returns, submit_dir, write_file, ◌>>=◌, ◌>>◌,
}

abbrev pub filter_writes : Option ℕ → Writes
filter_writes none = []
filter_writes (some id) =
    write_of (submit_dir ++ codes "filter") (codes "ctrl_id==" ++ decimal id)
    ∷ write_of (complete_dir ++ codes "filter") (codes "ctrl_id==" ++ decimal id)
    ∷ []

abbrev pub enable_writes : Text → Writes
enable_writes value =
    write_of (submit_dir ++ codes "enable") value
    ∷ write_of (complete_dir ++ codes "enable") value
    ∷ []

-- Tracing is off and the buffer empty, with its share of the memory for each processor, before the
-- two events are enabled.
abbrev pub setup_writes : Option ℕ → ℕ → ℕ → Writes
setup_writes filter buffer_mb ncpus =
    write_of (codes "current_tracer") (codes "nop")
    ∷ write_of (codes "events/enable") (codes "0")
    ∷ write_of (codes "tracing_on") (codes "0")
    ∷ write_of (codes "buffer_size_kb") (decimal (buffer_mb * 1024 % 2 ^ 64 / ncpus))
    ∷ write_of (codes "trace_options") (codes "nooverwrite")
    ∷ write_of (codes "trace") []
    ∷ (filter_writes filter ++ enable_writes (codes "1"))

abbrev pub stop_writes : Writes
stop_writes = write_of (codes "tracing_on") (codes "0") ∷ enable_writes (codes "0")

abbrev pub cleanup_writes : Writes
cleanup_writes =
    write_of (codes "trace_options") (codes "overwrite")
    ∷ write_of (codes "buffer_size_kb") (codes "1408")
    ∷ write_of (submit_dir ++ codes "filter") (codes "0")
    ∷ write_of (complete_dir ++ codes "filter") (codes "0")
    ∷ write_of (codes "trace") []
    ∷ []

-- What a capture writes behind its setup.
abbrev pub run_writes : Writes
run_writes = write_of (codes "tracing_on") (codes "1") ∷ (stop_writes ++ cleanup_writes)

module _ (fs : Tracefs) where
  set_filter-Follows : (filter : Option ℕ) → Follows (filter_writes filter) (set_filter fs filter)
  unfolding set_filter
  set_filter-Follows none = Follows-returns tt
  set_filter-Follows (some id) = Follows-write fs _ _ _ _ (Follows-write_file fs _ _)

  -- The files that are read last, and the writes behind them.
  setup_last-Follows :
      (filter : Option ℕ)
      → Follows (filter_writes filter ++ enable_writes (codes "1")) (do
        submit_id ← from_result (read_event_id fs submit_dir)
        complete_id ← from_result (read_event_id fs complete_dir)
        submit_fmt ← from_result (parse_submit_format fs)
        complete_fmt ← from_result (parse_complete_format fs)
        set_filter fs filter
        write_file fs (submit_dir ++ codes "enable") (codes "1")
        write_file fs (complete_dir ++ codes "enable") (codes "1")
        returns (capture_of submit_id complete_id submit_fmt complete_fmt))
  setup_last-Follows filter = Follows-read fs (read_event_id fs submit_dir) _ _ λ submit_id.
      Follows-read fs (read_event_id fs complete_dir) _ _ λ complete_id.
        Follows-read fs (parse_submit_format fs) _ _ λ submit_fmt.
          Follows-read fs (parse_complete_format fs) _ _ λ complete_fmt.
            Follows-bind (filter_writes filter) (enable_writes (codes "1")) (set_filter fs filter) _
              (set_filter-Follows filter)
              λ done. Follows-write fs _ _ _ _ (
                Follows-write fs _ _ _ _
                  (Follows-returns (capture_of submit_id complete_id submit_fmt complete_fmt)))

  -- Doc.
  pub setup-Follows :
      (filter : Option ℕ) (buffer_mb : ℕ) (cpus : List ℕ)
      → discover_cpus fs ≡ ok cpus
      → Follows (setup_writes filter buffer_mb (length cpus)) (setup fs filter buffer_mb)
  unfolding setup
  setup-Follows filter buffer_mb cpus found tried =
      rw (found, setup)
        (Follows-write fs _ _ _ _
          (Follows-write fs _ _ _ _ (
            Follows-write fs _ _ _ _ (
              Follows-write fs _ _ _ _
                (Follows-write fs _ _ _ _ (Follows-write fs _ _ _ _ (setup_last-Follows filter))))))
          tried)

  pub stop-Follows : Follows stop_writes (stop fs)
  unfolding stop
  stop-Follows = Follows-write fs _ _ _ _ (Follows-write fs _ _ _ _ (Follows-write_file fs _ _))

  pub start-Follows : Follows (write_of (codes "tracing_on") (codes "1") ∷ []) (start fs)
  unfolding start
  start-Follows = Follows-write_file fs _ _

  -- Whatever the writes answer.
  pub cleanup-tried : (tried : Writes) → cleanup fs tried ≡ (ok tt, tried ++ cleanup_writes)
  unfolding cleanup write_file
  cleanup-tried tried = simp append_assoc
