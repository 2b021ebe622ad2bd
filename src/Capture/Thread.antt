-- ===== src/Capture/Thread.antt =====
-- tracing/nvme-trace/src/capture.rs, lines 125 to 187: the thread that reads a CPU's pipe.
use gds_traces.Ftrace.Page.{Events}
use gds_traces.Reader.Source.{Source}
use gds_traces.Ftrace.Formats.{page_size}
use gds_traces.Format.Types.{IoError}
use gds_traces.Ftrace.Run.{Run, done, out_of_fuel, panic}
use gds_traces.Base.{Bool, List, [], if◌then◌else◌, suc, zero, ℕ, ◌∷◌}
use gds_traces.Base.Outcome.{Result, ok, err}
use gds_traces.Capture.Pipe.{
  PageRead, add_page, drain_pipe, no_page, page_read, read_failed, read_one_page, CaptureStats,
}

-- What `poll` answers: no file, a file without `POLLIN`, one with it, `EINTR`, or another error.
pub data PollAnswer : Type 0 where
  timed_out no_input ready poll_interrupted : PollAnswer
  poll_failed : ℕ → PollAnswer

-- What the loop finds in one round: the stop flag, and, where it is not set, the poll's answer.
pub record RoundSeen : Type 0 where
  pub stop_seen : Bool
  pub poll_answer : PollAnswer

pub data PipeError : Type 0 where
  cannot_open_pipe cannot_create_output polling_failed : ℕ → PipeError
  reading_failed : IoError → PipeError

-- A page buffer that is new.
unfoldable pub blank : ℕ → List ℕ
blank zero = []
blank (suc n) = 0 ∷ blank n

unfoldable pub blank_page : List ℕ
unfolding blank
blank_page = blank page_size

abbrev pub drained : Run (Result IoError CaptureStats) → Run (Result PipeError CaptureStats)
drained (done (ok stats)) = done (ok stats)
drained (done (err e)) = done (err (reading_failed e))
drained panic = panic
drained out_of_fuel = out_of_fuel

-- Behind a read of the loop: `again` is its next rounds.
abbrev pub after_read :
    (List ℕ → Source → CaptureStats → Run (Result PipeError CaptureStats))
    → List ℕ
    → CaptureStats
    → Run PageRead × Source
    → Run (Result PipeError CaptureStats)
after_read again page stats (done no_page, rest) = again page rest stats
after_read again page stats (done (read_failed e), rest) = done (err (reading_failed e))
after_read again page stats (done (page_read n records filled), rest) =
    again filled rest (add_page n records stats)
after_read again page stats (panic, rest) = panic
after_read again page stats (out_of_fuel, rest) = out_of_fuel

abbrev pub after_poll :
    (List ℕ → Source → CaptureStats → Run (Result PipeError CaptureStats))
    → Events
    → List ℕ
    → Source
    → CaptureStats
    → PollAnswer
    → Run (Result PipeError CaptureStats)
after_poll again ev page source stats timed_out = again page source stats
after_poll again ev page source stats no_input = again page source stats
after_poll again ev page source stats poll_interrupted = again page source stats
after_poll again ev page source stats (poll_failed e) = done (err (polling_failed e))
after_poll again ev page source stats ready =
    after_read again page stats (read_one_page ev page source)

-- The loop, over the rounds that it goes; where these are over, it is running still. The fuel is
-- for draining.
unfoldable pub read_loop :
    List RoundSeen
    → ℕ
    → Events
    → List ℕ
    → Source
    → CaptureStats
    → Run (Result PipeError CaptureStats)
read_loop [] fuel ev page source stats = out_of_fuel
read_loop (r ∷ rs) fuel ev page source stats =
    if r.stop_seen
    then drained (drain_pipe fuel ev blank_page source stats)
    else after_poll (read_loop rs fuel ev) ev page source stats r.poll_answer

abbrev pub no_stats : CaptureStats
no_stats = record { output = []; bytes_written = 0; events_captured = 0 }

-- The thread: the pipe is opened and the output made, each with its answer, before the loop.
unfoldable pub read_cpu_pipe :
    List RoundSeen
    → ℕ
    → Events
    → Result ℕ Source
    → Result ℕ (Unit {0})
    → Run (Result PipeError CaptureStats)
read_cpu_pipe rounds fuel ev (err e) created = done (err (cannot_open_pipe e))
read_cpu_pipe rounds fuel ev (ok source) (err e) = done (err (cannot_create_output e))
read_cpu_pipe rounds fuel ev (ok source) (ok made) =
    read_loop rounds fuel ev blank_page source no_stats
