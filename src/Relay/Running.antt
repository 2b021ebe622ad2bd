-- ===== src/Relay/Running.antt =====
-- reproducer/relay-repro-client/src/main.rs, lines 107 to 265: what a run counts.
use gds_traces.Capture.Thread.{no_input, poll_interrupted, ready, timed_out}
use gds_traces.Format.Readers.{Binrw}
use gds_traces.Base.Outcome.{Result, err, ok}
use gds_traces.Relay.Counting.{
  IsBehind, add_records-IsBehind, latest_of, latest_of-append, repeats, repeats_behind,
  repeats_behind-append,
}
use gds_traces.Relay.{
  RelayError, RelayRound, RelayState, ReproRec, Rounds, after_poll_answer, after_read_answer,
  answer_round, exit_code, relay_loop, relay_start, report_progress, scan_buffer, send_log,
  unless_stopped, with_scanned,
}
use gds_traces.Relay.Scanning.{
  FitsWire, add_records, length-repro_stream, repro_stream, scan_buffer-repro_stream,
}
use gds_traces.Format.Types.{interrupted, would_block}
use gds_traces.Base.{
  length-append, ltb, ◌++◌, ◌<◌, ap, All, Bool, false, inl, inr, length, refl, true, ◌∙◌, ◌⊎◌, List,
  Option, [], arith, if◌then◌else◌, none, some, ℕ, ◌%◌, ◌+◌, ◌^◌, ◌∷◌, ◌≡◌,
}

-- The records of all reads.
unfoldable pub records_read : List (List ReproRec) → List ReproRec
records_read [] = []
records_read (recs ∷ css) = recs ++ records_read css

-- A read is made: without polling, or where `poll` finds something.
abbrev pub IsRead : Bool → RelayRound → Type 0
IsRead no_poll r = (no_poll ≡ true) ⊎ ((no_poll ≡ false) × (r.poll_answer ≡ ready))

-- Nothing is there to be read.
pub data IsIdle (no_poll : Bool) (r : RelayRound) : Type 0 where
  idle_poll :
      no_poll ≡ false
      → (r.poll_answer ≡ timed_out)
        ⊎ ((r.poll_answer ≡ no_input) ⊎ (r.poll_answer ≡ poll_interrupted))
      → IsIdle no_poll r
  idle_read :
      IsRead no_poll r
      → (r.read_answer ≡ ok [])
        ⊎ ((r.read_answer ≡ err would_block) ⊎ (r.read_answer ≡ err interrupted))
      → IsIdle no_poll r

-- Rounds until the stop flag is found set, and the records that the reads give, read by read.
pub data Delivers (no_poll : Bool) : List RelayRound → List (List ReproRec) → Type 0 where
  stopped :
      (r : RelayRound) (rs : List RelayRound) → r.stop_seen ≡ true → Delivers no_poll (r ∷ rs) []
  idle :
      (r : RelayRound) (rs : List RelayRound) (css : List (List ReproRec))
      → r.stop_seen ≡ false
      → IsIdle no_poll r
      → Delivers no_poll rs css
      → Delivers no_poll (r ∷ rs) css
  gives :
      (r : RelayRound) (rs : List RelayRound) (rec : ReproRec) (recs : List ReproRec)
      (css : List (List ReproRec))
      → r.stop_seen ≡ false
      → IsRead no_poll r
      → r.read_answer ≡ ok (repro_stream (rec ∷ recs))
      → All FitsWire (rec ∷ recs)
      → Delivers no_poll rs css
      → Delivers no_poll (r ∷ rs) ((rec ∷ recs) ∷ css)

abbrev pub Counted :
    Option ReproRec → ℕ → ℕ → List ReproRec → Option (Result RelayError RelayState) → Type 0
Counted prev n d recs out =
    (s : RelayState) × (out ≡ some (ok s))
    × IsBehind (latest_of prev recs) (n + length recs) (d + repeats_behind prev recs) s.scanned

scanned-report_progress : (s : RelayState) → (report_progress s).scanned ≡ s.scanned
unfolding report_progress
scanned-report_progress s = ground arith

scanned-send_log :
    (r : RelayRound) (bytes : List ℕ) (s : RelayState) → (send_log r bytes s).scanned ≡ s.scanned
scanned-send_log r bytes s = ground arith

module _ {E : Type 0} (binrw : Binrw E) where
  module _ (no_poll : Bool) (r : RelayRound) (s : RelayState) (again : Rounds binrw) where
    read-answer :
        IsRead no_poll r
        → answer_round binrw no_poll r s again ≡ after_read_answer binrw r s again r.read_answer
    read-answer (inl without) = ap (λ b. answer_round binrw b r s again) without
    read-answer (inr (polls, there)) =
        ap (λ b. answer_round binrw b r s again) polls
        ∙ ap (after_poll_answer binrw r s again) there

    idle-answer : IsIdle no_poll r → answer_round binrw no_poll r s again ≡ again s
    idle-answer (idle_poll polls (inl a)) =
        ap (λ b. answer_round binrw b r s again) polls ∙ ap (after_poll_answer binrw r s again) a
    idle-answer (idle_poll polls (inr (inl a))) =
        ap (λ b. answer_round binrw b r s again) polls ∙ ap (after_poll_answer binrw r s again) a
    idle-answer (idle_poll polls (inr (inr a))) =
        ap (λ b. answer_round binrw b r s again) polls ∙ ap (after_poll_answer binrw r s again) a
    idle-answer (idle_read made (inl a)) =
        read-answer made ∙ ap (after_read_answer binrw r s again) a
    idle-answer (idle_read made (inr (inl a))) =
        read-answer made ∙ ap (after_read_answer binrw r s again) a
    idle-answer (idle_read made (inr (inr a))) =
        read-answer made ∙ ap (after_read_answer binrw r s again) a

  -- The state that a read of records leaves for the next round.
  abbrev behind_read : RelayRound → List ReproRec → RelayState → RelayState
  behind_read r recs s =
      let s' = send_log r (repro_stream recs) s in
      report_progress (record s' { scanned = add_records recs s'.scanned })

  read-bytes :
      (r : RelayRound) (s : RelayState) (again : Rounds binrw) (bytes : List ℕ)
      → 0 < length bytes
      → after_read_answer binrw r s again (ok bytes)
        ≡ with_scanned binrw
            (send_log r bytes s)
            (scan_buffer binrw bytes (send_log r bytes s).scanned)
            again
  read-bytes r s again [] some_byte = absurd (omega arith)
  read-bytes r s again (b ∷ bs) some_byte = refl

  read-records :
      (r : RelayRound) (s : RelayState) (again : Rounds binrw) (rec : ReproRec)
      (recs : List ReproRec)
      → All FitsWire (rec ∷ recs)
      → after_read_answer binrw r s again (ok (repro_stream (rec ∷ recs)))
        ≡ again (behind_read r (rec ∷ recs) s)
  read-records r s again rec recs fit =
      let bytes = repro_stream (rec ∷ recs) in
      let sent = send_log r bytes s in
      read-bytes r s again bytes (omega (arith, length-repro_stream (rec ∷ recs)))
      ∙ ap (λ o. with_scanned binrw sent o again)
          (scan_buffer-repro_stream binrw (rec ∷ recs) sent.scanned fit)

  scanned-behind_read :
      (r : RelayRound) (recs : List ReproRec) (s : RelayState)
      → (behind_read r recs s).scanned ≡ add_records recs s.scanned
  scanned-behind_read r recs s =
      let sent = send_log r (repro_stream recs) s in
      scanned-report_progress (record sent { scanned = add_records recs sent.scanned })
      ∙ ap (add_records recs) (scanned-send_log r (repro_stream recs) s)

  relay_loop-Counted :
      (no_poll : Bool) (rounds : List RelayRound) (css : List (List ReproRec))
      (prev : Option ReproRec) (n d : ℕ) (s : RelayState)
      → Delivers no_poll rounds css
      → IsBehind prev n d s.scanned
      → Counted prev n d (records_read css) (relay_loop binrw no_poll rounds s)
  unfolding relay_loop records_read add_records
  relay_loop-Counted no_poll _ _ prev n d s (stopped r rs seen) b = (
    s,
    ap
        (λ x.
          unless_stopped binrw x s (answer_round binrw no_poll r s (relay_loop binrw no_poll rs)))
        seen,
    add_records-IsBehind [] prev n d s.scanned b,
  )
  relay_loop-Counted no_poll _ css prev n d s (idle r rs _ running still more) b =
      let (s', e, b') = relay_loop-Counted no_poll rs css prev n d s more b in
      (
        s',
        ap
              (λ x.
                unless_stopped binrw x s
                  (answer_round binrw no_poll r s (relay_loop binrw no_poll rs)))
              running
            ∙ idle-answer no_poll r s (relay_loop binrw no_poll rs) still
            ∙ e,
        b',
      )
  relay_loop-Counted no_poll _ _ prev n d s (gives r rs rec recs css running made got fit more) b =
      let again = relay_loop binrw no_poll rs in
      let now = behind_read r (rec ∷ recs) s in
      let read : IsBehind (latest_of prev (rec ∷ recs)) (n + length (rec ∷ recs))
          (d + repeats_behind prev (rec ∷ recs)) now.scanned =
        rw (scanned-behind_read r (rec ∷ recs) s)
          (add_records-IsBehind (rec ∷ recs) prev n d s.scanned b) in
      let (s', e, b') =
        relay_loop-Counted no_poll rs css (latest_of prev (rec ∷ recs)) _ _ now more read in
      (
        s',
        ap
              (λ x.
                unless_stopped binrw x s
                  (answer_round binrw no_poll r s (relay_loop binrw no_poll rs)))
              running
            ∙ read-answer no_poll r s again made
            ∙ ap (after_read_answer binrw r s again) got
            ∙ read-records r s again rec recs fit
            ∙ e,
        rw (latest_of-append prev (rec ∷ recs) (records_read css)) (record {
          last_seq_of = b'.last_seq_of;
          last_toggle_of = b'.last_toggle_of;
          total_of = omega (arith, b'.total_of, length-append {0} (rec ∷ recs) (records_read css));
          dups_of =
              omega (arith, b'.dups_of, repeats_behind-append prev (rec ∷ recs) (records_read css));
          corruptions_of = b'.corruptions_of;
        }),
      )

  -- Let each read that gives bytes give whole records, one at least, until the stop flag is found
  -- set, with no failing poll or read. Then, with and without polling, the run ends without an
  -- error; it counts all records, no corruption, and as repeats the records whose number is no
  -- greater than that of the record before, across reads too, and whose fill is the same, each
  -- count in 64 bits. It exits with 1 where the count of repeats is positive, and with 0 where it
  -- is not.
  pub relay_loop-repeats :
      (no_poll : Bool) (rounds : List RelayRound) (css : List (List ReproRec))
      → Delivers no_poll rounds css
      → let recs = records_read css in
        (s : RelayState) × (relay_loop binrw no_poll rounds relay_start ≡ some (ok s))
        × (s.scanned.total ≡ length recs % 2 ^ 64)
        × (s.scanned.dups ≡ repeats recs % 2 ^ 64)
        × (s.scanned.corruptions ≡ 0)
        × (exit_code (ok s) ≡ (if ltb 0 (repeats recs % 2 ^ 64) then 1 else 0))
  unfolding repeats exit_code
  relay_loop-repeats no_poll rounds css given =
      let (s, e, b) = relay_loop-Counted no_poll rounds css none 0 0 relay_start given (record {
        last_seq_of = refl;
        last_toggle_of = refl;
        total_of = refl;
        dups_of = refl;
        corruptions_of = refl;
      }) in
      let counted : s.scanned.dups ≡ repeats (records_read css) % 2 ^ 64 =
        omega (arith, b.dups_of) in
      (
        s,
        e,
        omega (arith, b.total_of),
        counted,
        b.corruptions_of,
        ap (λ (n : ℕ). if ltb 0 n then 1 else 0) counted,
      )
