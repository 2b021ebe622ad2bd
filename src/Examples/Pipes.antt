-- ===== src/Examples/Pipes.antt =====
-- The properties of Capture at concrete pipes.
use gds_traces.Format.Types.{would_block}
use gds_traces.Reader.Source.{chunk, fails}
use gds_traces.Base.Outcome.{ok}
use gds_traces.Ftrace.Run.{done}
use gds_traces.Base.{List, [], arith, drop, refl, ℕ, ◌++◌, ◌∷◌, ◌≡◌}
use gds_traces.Capture.Pipe.{CaptureStats, drain_pipe, page_read, read_one_page}
use gds_traces.Examples.Data.{two_events, two_events-IsLayout, zeros}
use gds_traces.Capture.Drain.{
  Drained, drain_pipe-Drained, page_output, pages_source, read_one_page-partial,
}

abbrev no_stats : CaptureStats
no_stats = record { output = []; bytes_written = 0; events_captured = 0 }

abbrev blank_page : List ℕ
blank_page = zeros 4096

drain_pipe-Drained_example :
    (stats' : CaptureStats) × (drain_pipe 2 two_events blank_page
        (pages_source (blank_page ∷ []))
        no_stats
      ≡ done (ok stats'))
    × Drained two_events (blank_page ∷ []) no_stats stats'
drain_pipe-Drained_example =
    drain_pipe-Drained two_events two_events-IsLayout (blank_page ∷ []) 2 blank_page no_stats refl
      (refl, tt) (omega arith) (omega arith) (omega arith)

read_one_page-partial_example :
    let mixed = (1 ∷ 2 ∷ []) ++ drop 2 blank_page in
    read_one_page two_events blank_page (chunk (1 ∷ 2 ∷ []) ∷ fails would_block ∷ [])
    ≡ (done (page_read (page_output two_events mixed).0 (page_output two_events mixed).1 mixed), [])
read_one_page-partial_example =
    read_one_page-partial two_events two_events-IsLayout blank_page (1 ∷ 2 ∷ []) [] (omega arith)
      (omega arith)
