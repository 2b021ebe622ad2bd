-- ===== src/Examples/Sessions.antt =====
-- The properties of Session at a concrete tracefs, and of the reading thread at a concrete pipe.
use gds_traces.Session.Failures.{Accepts, Refuses, finish_capture-first_failure, has_panic}
use gds_traces.Session.Complete.{IsComplete, capture-IsComplete}
use gds_traces.Session.Sequence.{capture-Follows}
use gds_traces.Text.Decimal.{decimal}
use gds_traces.Session.Control.{
  stop, FtraceCapture, check_overruns, cleanup, overrun_in, overruns_in, set_filter, setup, start,
  sum_overruns,
}
use gds_traces.Base.Sort.{place, insert_sorted, sort}
use gds_traces.Session.Order.{run_writes, cleanup_writes, setup_writes, stop_writes}
use gds_traces.Session.Effects.{Follows, write_of}
use gds_traces.Text.Hex.{concat}
use gds_traces.Session.Whole.{
  joined_err, check_threads, cpu_cmp, finish_capture, join_errors, joined_panic, report,
  start_capture, stats_of, CpuStats, Joined, Surroundings, capture, joined_ok,
}
use gds_traces.Text.Digits.{parse_digits, parse_unsigned}
use gds_traces.Session.Tracefs.{
  parse_complete_format, parse_submit_format, read_event_id, read_text, thread_panicked, write_file,
  Tracefs, complete_dir, cpu_number, cpus_in, discover_cpus, submit_dir,
}
use gds_traces.Session.FormatFile.{
  complete_format_of, first_answer, line_answer, part_offset, require_offset, submit_format_of,
  format_field_offset,
}
use gds_traces.Text.Affix.{Text, same_text, codes, strip_prefix}
use gds_traces.Capture.Drain.{pages_source}
use gds_traces.Capture.Finish.{Finishes, has, read_cpu_pipe-Finishes}
use gds_traces.Base.{
  ◌⊎◌, length, if◌then◌else◌, map, some, ℕ, ◌++◌, ◌||◌, Bool, List, [], arith, false, inl, inr,
  refl, true, ◌∷◌, ◌≡◌,
}
use gds_traces.Examples.Data.{two_events, two_events-IsLayout, zeros}
use gds_traces.Capture.Thread.{
  polling_failed, PollAnswer, RoundSeen, no_stats, read_cpu_pipe, ready, timed_out,
}
use gds_traces.Text.Words.{
  before_sep, last, lines, split, split_whitespace, is_space, trim, trim_end, trim_start,
}
use gds_traces.Base.Outcome.{err, Result, ok}

-- A round without an error, with the stop flag set or not.
abbrev calm_round : Bool → PollAnswer → RoundSeen
calm_round stop_seen answer = record { stop_seen = stop_seen; poll_answer = answer }

abbrev three_seen : List RoundSeen
three_seen = calm_round false timed_out ∷ calm_round false ready ∷ calm_round true timed_out ∷ []

read_cpu_pipe-Finishes_example : Finishes two_events (zeros 4096 ∷ zeros 4096 ∷ []) no_stats (
    read_cpu_pipe three_seen 3 two_events
      (ok (pages_source (zeros 4096 ∷ zeros 4096 ∷ [])))
      (ok tt))
read_cpu_pipe-Finishes_example =
    read_cpu_pipe-Finishes two_events two_events-IsLayout (zeros 4096 ∷ zeros 4096 ∷ []) three_seen
      3 (pages_source (zeros 4096 ∷ zeros 4096 ∷ []))
      (has (zeros 4096 ∷ zeros 4096 ∷ []) (pages_source (zeros 4096 ∷ zeros 4096 ∷ [])) refl)
      (refl, (refl, tt)) ((λ e h. cc), ((λ e h. cc), ((λ e h. cc), tt))) (inr (inr (inl refl)))
      (omega arith)

abbrev field_text : Text → Text
field_text name = codes "field:u " ++ (name ++ (codes ";offset:8;" ++ 10 ∷ []))

-- The fields of both events.
abbrev all_fields : Text
all_fields = concat (
    map field_text (
      codes "ctrl_id"
      ∷ codes "qid"
      ∷ codes "cid"
      ∷ codes "data_len"
      ∷ codes "meta_len"
      ∷ codes "use_sgl"
      ∷ codes "single_segment"
      ∷ codes "sqe"
      ∷ codes "descriptors"
      ∷ codes "result"
      ∷ codes "sq_head"
      ∷ codes "sq_id"
      ∷ codes "status"
      ∷ codes "retries"
      ∷ []))

abbrev read_small : Text → Result ℕ Text
read_small path =
    if same_text path (submit_dir ++ codes "id") || same_text path (complete_dir ++ codes "id")
    then ok (codes "7")
    else if same_text path (codes "per_cpu/cpu0/stats")
    then ok (codes "entries: 7" ++ 10 ∷ codes "overrun: 0")
    else ok all_fields

-- One processor; every write is taken.
abbrev small_tracefs : Tracefs
small_tracefs = record {
  write_answer = λ tried w. ok tt;
  read_to_string = read_small;
  per_cpu = ok (ok (record { name = codes "cpu0"; is_utf8 = true }) ∷ []);
}

abbrev cpu0_stats : CpuStats
cpu0_stats = record { cpu = 0; captured = no_stats }

-- The thread of the processor gives what `cpu0` says.
abbrev surroundings : Joined → Surroundings
surroundings cpu0 = record {
  create_out_dir = ok tt;
  install_sigint_handler = ok tt;
  joined = λ ftrace cpus. cpu0 ∷ [];
}

small_tracefs-cpus : discover_cpus small_tracefs ≡ ok (0 ∷ [])
unfolding discover_cpus cpus_in cpu_number strip_prefix parse_unsigned parse_digits sort
    insert_sorted
small_tracefs-cpus = refl

capture-Follows_example :
    Follows
      (setup_writes (some 3) 512 1
        ++ write_of (codes "tracing_on") (codes "1") ∷ (stop_writes ++ cleanup_writes))
      (capture small_tracefs (surroundings (joined_ok cpu0_stats)) (some 3) 512)
capture-Follows_example =
    capture-Follows small_tracefs (surroundings (joined_ok cpu0_stats)) (some 3) 512 (0 ∷ [])
      small_tracefs-cpus

small_capture : capture small_tracefs (surroundings (joined_ok cpu0_stats)) (some 3) 512 [] ≡ (
  ok (cpu0_stats ∷ []),
  (capture small_tracefs (surroundings (joined_ok cpu0_stats)) (some 3) 512 []).1,
)
unfolding capture setup discover_cpus cpus_in cpu_number strip_prefix parse_unsigned write_file
    read_event_id read_text same_text trim parse_submit_format submit_format_of require_offset
    format_field_offset lines concat insert_sorted place sort check_overruns cleanup overrun_in
    overruns_in set_filter start stop sum_overruns complete_format_of first_answer line_answer
    part_offset parse_complete_format check_threads cpu_cmp finish_capture join_errors report
    start_capture stats_of decimal parse_digits before_sep is_space last split split_whitespace
    trim_end trim_start
small_capture = refl

capture-IsComplete_example :
    let around = surroundings (joined_ok cpu0_stats) in
    let now = (capture small_tracefs around (some 3) 512 []).1 in
    (ftrace : FtraceCapture) × (cpus : List ℕ) × (discover_cpus small_tracefs ≡ ok cpus)
    × IsComplete small_tracefs around (around.joined ftrace cpus) (cpu0_stats ∷ [])
    × (now ≡ [] ++ (setup_writes (some 3) 512 (length cpus) ++ run_writes))
capture-IsComplete_example =
    capture-IsComplete small_tracefs (surroundings (joined_ok cpu0_stats)) (some 3) 512 []
      (capture small_tracefs (surroundings (joined_ok cpu0_stats)) (some 3) 512 []).1
      (cpu0_stats ∷ []) small_capture

-- A thread that panicked, between one that returned and one that failed.
finish_capture-first_failure_example :
    (Accepts small_tracefs [] stop_writes
      × (finish_capture small_tracefs
            (surroundings joined_panic)
            (joined_ok cpu0_stats ∷ joined_panic ∷ joined_err (polling_failed 5) ∷ [])
            []
          ≡ (err thread_panicked, stop_writes)))
    ⊎ Refuses small_tracefs [] stop_writes (
        finish_capture small_tracefs
          (surroundings joined_panic)
          (joined_ok cpu0_stats ∷ joined_panic ∷ joined_err (polling_failed 5) ∷ [])
          [])
finish_capture-first_failure_example =
    finish_capture-first_failure small_tracefs (surroundings joined_panic) (cpu0_stats ∷ [])
      joined_panic (joined_err (polling_failed 5) ∷ []) thread_panicked [] has_panic
