-- ===== src/Examples/Relays.antt =====
-- The properties of Relay at a run of two reads.
use gds_traces.Relay.Counting.{repeats}
use gds_traces.Relay.Running.{
  Delivers, gives, idle, idle_read, records_read, relay_loop-repeats, stopped,
}
use gds_traces.Capture.Thread.{ready}
use gds_traces.Relay.Scanning.{FitsWire, repro_stream, scan_total}
use gds_traces.Relay.{
  RelayRound, RelayState, ReproRec, ScanState, exit_code, relay_loop, relay_start, scan, scan_start,
}
use gds_traces.Base.{
  Bool, List, [], arith, false, if◌then◌else◌, inr, length, ltb, refl, some, true, ℕ, ◌%◌, ◌<◌, ◌^◌,
  ◌∷◌, ◌≡◌,
}
use gds_traces.Examples.Data.{le_binrw, zeros}
use gds_traces.Base.Outcome.{Result, ok, err}
use gds_traces.Format.Types.{IoError, interrupted}

abbrev rec_at : ℕ → ReproRec
rec_at seq = record { fill = 1; seq = seq; timestamp_ns = 9 }

abbrev round_with : Bool → Result IoError (List ℕ) → RelayRound
round_with stop_seen answer = record {
  stop_seen = stop_seen;
  poll_answer = ready;
  read_answer = answer;
  log_has_room = true;
  now_ns = 5;
}

-- The second read gives the record of the first again.
abbrev three_rounds : List RelayRound
three_rounds =
    round_with false (ok (repro_stream (rec_at 3 ∷ rec_at 4 ∷ [])))
    ∷ round_with false (err interrupted)
    ∷ round_with false (ok (repro_stream (rec_at 4 ∷ [])))
    ∷ round_with true (ok [])
    ∷ []

abbrev two_reads : List (List ReproRec)
two_reads = (rec_at 3 ∷ rec_at 4 ∷ []) ∷ (rec_at 4 ∷ []) ∷ []

rec_at-FitsWire : (seq : ℕ) → seq < 2 ^ 64 → FitsWire (rec_at seq)
rec_at-FitsWire seq fits = record {
  fill_fits = omega arith;
  seq_fits = fits;
  time_fits = omega arith;
}

three_rounds-Delivers : Delivers false three_rounds two_reads
three_rounds-Delivers =
    gives _ _ (rec_at 3) (rec_at 4 ∷ []) _ refl (inr (refl, refl)) refl
      (rec_at-FitsWire 3 (omega arith), (rec_at-FitsWire 4 (omega arith), tt))
      (idle _ _ _ refl (idle_read (inr (refl, refl)) (inr (inr refl))) (
        gives _ _ (rec_at 4) [] _ refl (inr (refl, refl)) refl (rec_at-FitsWire 4 (omega arith), tt)
          (stopped _ _ refl)))

relay_loop-repeats_example :
    let recs = records_read two_reads in
    (s : RelayState) × (relay_loop le_binrw false three_rounds relay_start ≡ some (ok s))
    × (s.scanned.total ≡ length recs % 2 ^ 64)
    × (s.scanned.dups ≡ repeats recs % 2 ^ 64)
    × (s.scanned.corruptions ≡ 0)
    × (exit_code (ok s) ≡ (if ltb 0 (repeats recs % 2 ^ 64) then 1 else 0))
relay_loop-repeats_example =
    relay_loop-repeats le_binrw false three_rounds two_reads three_rounds-Delivers

-- One record of the three is a repeat.
two_reads_repeat : repeats (records_read two_reads) ≡ 1
unfolding repeats records_read
two_reads_repeat = refl

scan_total_example : (s' : ScanState) × (scan le_binrw 61 (zeros 60) scan_start ≡ some s')
scan_total_example = scan_total le_binrw 61 (zeros 60) scan_start (omega arith)
