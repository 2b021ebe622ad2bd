-- ===== src/Capture/Finish.antt =====
-- tracing/nvme-trace/src/capture.rs, lines 125 to 187: what a thread has written when it returns.
use gds_traces.Ftrace.Page.{Events}
use gds_traces.Ftrace.Run.{Run, done}
use gds_traces.Ftrace.Replay.{flatten}
use gds_traces.Capture.Pipe.{CaptureStats, add_page, drain_pipe, fill_page, read_one_page}
use gds_traces.Ftrace.Total.{IsLayout}
use gds_traces.Base.Outcome.{Result, ok}
use gds_traces.Reader.Source.{Source}
use gds_traces.Capture.Drain.{
  Drained, Drained-step, drain_pipe-Drained, page_output, read_one_page-empty, read_one_page-whole,
  IsPage, pages_source,
}
use gds_traces.Ftrace.Formats.{page_size}
use gds_traces.Capture.Thread.{
  PipeError, PollAnswer, after_poll, after_read, drained, no_input, no_stats, poll_interrupted,
  read_cpu_pipe, read_loop, ready, timed_out, RoundSeen, blank, blank_page, poll_failed,
}
use gds_traces.Base.{
  All, Bool-cases, ap, append-nil, false, inl, inr, sym, ◌<◌, ◌^◌, List, [], arith, length, refl,
  suc, true, zero, ℕ, ◌∷◌, ◌≡◌, ◌≢◌, ◌⊎◌,
}

-- A pipe that has these pages still, and then would block; behind that answer, it is empty.
pub data HasPages : List (List ℕ) → Source → Type 0 where
  has : (ps : List (List ℕ)) (source : Source) → source ≡ pages_source ps → HasPages ps source
  emptied : HasPages [] []

-- A round without an error of the poll.
abbrev pub IsCalm : RoundSeen → Type 0
IsCalm r = (e : ℕ) → r.poll_answer ≢ poll_failed e

-- Some round finds the stop flag set.
abbrev pub StopSeen : List RoundSeen → Type 0
StopSeen [] = ⊥
StopSeen (r ∷ rs) = (r.stop_seen ≡ true) ⊎ StopSeen rs

length-blank : (n : ℕ) → length (blank n) ≡ n
unfolding blank
length-blank zero = refl
length-blank (suc n) = omega (arith, length-blank n)

blank_page-IsPage : IsPage blank_page
unfolding blank_page
blank_page-IsPage = length-blank page_size

-- A run that returns without an error, with the pages' records written.
abbrev pub Finishes :
    Events → List (List ℕ) → CaptureStats → Run (Result PipeError CaptureStats) → Type 0
Finishes ev ps stats out =
    (stats' : CaptureStats) × (out ≡ done (ok stats')) × Drained ev ps stats stats'

abbrev IsCounted : CaptureStats → Type 0
IsCounted stats = (stats.bytes_written < 2 ^ 64) × (stats.events_captured < 2 ^ 64)

module _ (ev : Events) (l : IsLayout ev) where
  -- The rounds to come, from every state.
  abbrev ReadsAll :
      (List ℕ → Source → CaptureStats → Run (Result PipeError CaptureStats)) → ℕ → Type 0
  ReadsAll again fuel =
      (ps : List (List ℕ)) (page : List ℕ) (source : Source) (stats : CaptureStats)
      → HasPages ps source
      → All IsPage ps
      → IsPage page
      → IsCounted stats
      → length ps < fuel
      → Finishes ev ps stats (again page source stats)

  drained-Finishes :
      (fuel : ℕ)
      → ReadsAll (λ page source stats. drained (drain_pipe fuel ev blank_page source stats)) fuel
  drained-Finishes fuel ps page _ stats (has _ source e) pages whole (b, n) enough =
      let (stats', r, d) =
        drain_pipe-Drained ev l ps fuel blank_page stats blank_page-IsPage pages b n enough in
      (stats', rw e (ap drained r), d)
  drained-Finishes zero _ page _ stats emptied pages whole (b, n) enough = absurd (omega arith)
  drained-Finishes (suc fuel) _ page _ stats emptied pages whole (b, n) enough =
      unfold drain_pipe read_one_page fill_page flatten in
      (stats, refl, (sym (append-nil stats.output), omega arith, omega arith))

  read-Finishes :
      (again : List ℕ → Source → CaptureStats → Run (Result PipeError CaptureStats)) (fuel : ℕ)
      (ps : List (List ℕ)) (page : List ℕ) (source : Source) (stats : CaptureStats)
      → ReadsAll again fuel
      → HasPages ps source
      → All IsPage ps
      → IsPage page
      → IsCounted stats
      → length ps < fuel
      → Finishes ev ps stats (after_read again page stats (read_one_page ev page source))
  unfolding pages_source
  read-Finishes again fuel [] page _ stats ih (has _ source e) pages whole counted enough =
      rw e (rw (read_one_page-empty ev page) (ih [] page [] stats emptied tt whole counted enough))
  read-Finishes again fuel (p ∷ ps) page _ stats ih (has _ source e) (k, ks) whole (b, n) enough =
      let (stats', r, d) =
        ih ps p (pages_source ps) (add_page (page_output ev p).0 (page_output ev p).1 stats)
          (has ps (pages_source ps) refl) ks k (omega arith, omega arith) (omega arith) in
      (
        stats',
        rw e (rw (read_one_page-whole ev l page p (pages_source ps) whole k) r),
        Drained-step ev p ps stats stats' d,
      )
  read-Finishes again fuel _ page _ stats ih emptied pages whole counted enough =
      unfold read_one_page fill_page in ih [] page [] stats emptied tt whole counted enough

  poll-Finishes :
      (again : List ℕ → Source → CaptureStats → Run (Result PipeError CaptureStats)) (fuel : ℕ)
      (ps : List (List ℕ)) (page : List ℕ) (source : Source) (stats : CaptureStats) (a : PollAnswer)
      → ReadsAll again fuel
      → HasPages ps source
      → All IsPage ps
      → IsPage page
      → IsCounted stats
      → length ps < fuel
      → ((e : ℕ) → a ≢ poll_failed e)
      → Finishes ev ps stats (after_poll again ev page source stats a)
  poll-Finishes again fuel ps page source stats timed_out ih h pages whole counted enough calm =
      ih ps page source stats h pages whole counted enough
  poll-Finishes again fuel ps page source stats no_input ih h pages whole counted enough calm =
      ih ps page source stats h pages whole counted enough
  poll-Finishes again fuel ps page source stats poll_interrupted ih h pages whole counted enough
        calm =
      ih ps page source stats h pages whole counted enough
  poll-Finishes again fuel ps page source stats (poll_failed e) ih h pages whole counted enough
        calm =
      absurd (calm e refl)
  poll-Finishes again fuel ps page source stats ready ih h pages whole counted enough calm =
      read-Finishes again fuel ps page source stats ih h pages whole counted enough

  read_loop-ReadsAll :
      (rounds : List RoundSeen) (fuel : ℕ)
      → All IsCalm rounds
      → StopSeen rounds
      → ReadsAll (read_loop rounds fuel ev) fuel
  unfolding read_loop
  read_loop-ReadsAll [] fuel calm seen ps page source stats h pages whole counted enough =
      absurd seen
  read_loop-ReadsAll (r ∷ rs) fuel (calm, calms) seen ps page source stats h pages whole counted
        enough =
      elim (Bool-cases r.stop_seen) [
        | inl set ↦ rw set (drained-Finishes fuel ps page source stats h pages whole counted enough)
        | inr clear ↦ rw clear (
            poll-Finishes (read_loop rs fuel ev) fuel ps page source stats r.poll_answer
              (read_loop-ReadsAll rs fuel calms (later seen clear)) h pages whole counted enough
              calm)
      ]
    where
      later : (r.stop_seen ≡ true) ⊎ StopSeen rs → r.stop_seen ≡ false → StopSeen rs
      later (inl set) clear = absurd (cc)
      later (inr more) clear = more

  -- Let the field tables have the documented layout, the pipe give whole pages, each in one read,
  -- and then nothing more, no poll fail, and some round find the stop flag set; and let there be
  -- fuel for one round more than there are pages. Then, however the polls answer before that, the
  -- thread returns without an error, and its output, from nothing on, is the records of all pages,
  -- in order, with their bytes and their number in the two counts, in 64 bits.
  pub read_cpu_pipe-Finishes :
      (ps : List (List ℕ)) (rounds : List RoundSeen) (fuel : ℕ) (source : Source)
      → HasPages ps source
      → All IsPage ps
      → All IsCalm rounds
      → StopSeen rounds
      → length ps < fuel
      → Finishes ev ps no_stats (read_cpu_pipe rounds fuel ev (ok source) (ok tt))
  unfolding read_cpu_pipe
  read_cpu_pipe-Finishes ps rounds fuel source h pages calm seen enough =
      read_loop-ReadsAll rounds fuel calm seen ps blank_page source no_stats h pages
        blank_page-IsPage (omega arith, omega arith) enough
