-- ===== src/Relay.antt =====
-- reproducer/relay-repro-client/src/main.rs: the client that looks for records that a relay buffer
-- gives twice. Counters are `u64` and wrap.
use gds_traces.Base.Bytes.{le_bytes}
use gds_traces.Capture.Thread.{
  PollAnswer, no_input, poll_failed, poll_interrupted, ready, timed_out,
}
use gds_traces.Base.{
  true, Bool, List, Option, [], drop, false, if◌then◌else◌, leb, length, ltb, none, some, suc, take,
  zero, ℕ, ◌%◌, ◌&&◌, ◌++◌, ◌+◌, ◌-◌, ◌==◌, ◌^◌, ◌∷◌,
}
use gds_traces.Base.Outcome.{◌>>◌, Result, ok, err}
use gds_traces.Format.Readers.{Binrw, ◌>>=◌, pure}
use gds_traces.Format.Types.{IoError, interrupted, would_block, other}
pub mod Scanning
pub mod Counting
pub mod Running

abbrev pub record_size : ℕ
record_size = 24

abbrev pub repro_magic : ℕ
repro_magic = 0xDEADBEEF

pub record ReproRec : Type 0 where
  pub fill : ℕ
  pub seq : ℕ
  pub timestamp_ns : ℕ

-- The variables of the loop that the records change.
pub record ScanState : Type 0 where
  pub last_seq : Option ℕ
  pub last_toggle : Option ℕ
  pub total : ℕ
  pub dups : ℕ
  pub corruptions : ℕ

abbrev pub add_one : ℕ → ℕ
add_one n = (n + 1) % 2 ^ 64

-- `last_seq.is_some_and(|ls| rec.seq <= ls && last_toggle == Some(rec.fill))`
abbrev pub equals_some : Option ℕ → ℕ → Bool
equals_some none b = false
equals_some (some a) b = a == b

abbrev pub is_dup : ReproRec → Option ℕ → Option ℕ → Bool
is_dup rec none last_toggle = false
is_dup rec (some ls) last_toggle = leb rec.seq ls && equals_some last_toggle rec.fill

unfoldable pub add_record : ReproRec → ScanState → ScanState
add_record rec s = record {
  last_seq = some rec.seq;
  last_toggle = some rec.fill;
  total = add_one s.total;
  dups = if is_dup rec s.last_seq s.last_toggle then add_one s.dups else s.dups;
  corruptions = s.corruptions;
}

abbrev pub add_corruption : ScanState → ScanState
add_corruption s = record s { corruptions = add_one s.corruptions }

module _ {E : Type 0} (binrw : Binrw E) where
  open binrw use {le_uint}

  -- The derived reader: the magic, and then the fields.
  unfoldable pub read_fields : List ℕ → Result E (ReproRec × List ℕ)
  read_fields = do
    fill ← le_uint 4
    seq ← le_uint 8
    timestamp_ns ← le_uint 8
    pure (record { fill = fill; seq = seq; timestamp_ns = timestamp_ns })

  abbrev pub found_record : Result E (ReproRec × List ℕ) → Option ReproRec
  found_record (err e) = none
  found_record (ok (rec, rest)) = some rec

  abbrev pub after_magic : Result E (ℕ × List ℕ) → Option ReproRec
  after_magic (err e) = none
  after_magic (ok (magic, rest)) =
      if magic == repro_magic then found_record (read_fields rest) else none

  unfoldable pub read_repro_rec : List ℕ → Option ReproRec
  read_repro_rec bytes = after_magic (le_uint 4 bytes)

  abbrev pub scan_step :
      (List ℕ → ScanState → Option ScanState)
      → List ℕ
      → ScanState
      → Option ReproRec
      → Option ScanState
  scan_step again left s none = again (drop 1 left) (add_corruption s)
  scan_step again left s (some rec) = again (drop record_size left) (add_record rec s)

  -- The loop over a buffer, of which `left` stands behind the offset, on fuel for its rounds.
  unfoldable pub scan : ℕ → List ℕ → ScanState → Option ScanState
  scan zero left s = none
  scan (suc fuel) left s =
      let more = scan_step (scan fuel) left s (read_repro_rec (take record_size left)) in
      if leb record_size (length left) then more else some s

  -- What a read of some bytes changes.
  unfoldable pub scan_buffer : List ℕ → ScanState → Option ScanState
  scan_buffer bytes s =
      scan (suc (length bytes)) bytes
        (if length bytes % record_size == 0 then s else add_corruption s)

-- What the loop finds in one round: the stop flag, and the answers of `poll` and `read`.
pub record RelayRound : Type 0 where
  pub stop_seen : Bool
  pub poll_answer : PollAnswer
  pub read_answer : Result IoError (List ℕ)
  pub log_has_room : Bool
  pub now_ns : ℕ

pub record RelayState : Type 0 where
  pub scanned : ScanState
  pub last_report : ℕ
  pub reports : List ScanState
  pub logged : List (ℕ × List ℕ)

pub data RelayError : Type 0 where
  poll_error : ℕ → RelayError
  read_error : IoError → RelayError

abbrev pub report_every : ℕ
report_every = 1000000

-- `total - last_report >= 1_000_000`
unfoldable pub report_progress : RelayState → RelayState
report_progress s =
    if leb report_every ((s.scanned.total + 2 ^ 64 - s.last_report) % 2 ^ 64)
    then record s { last_report = s.scanned.total; reports = s.reports ++ s.scanned ∷ [] }
    else s

-- The bytes for the logger, where its channel has room.
abbrev pub send_log : RelayRound → List ℕ → RelayState → RelayState
send_log r bytes s =
    if r.log_has_room then record s { logged = s.logged ++ (r.now_ns, bytes) ∷ [] } else s

module _ {E : Type 0} (binrw : Binrw E) where
  abbrev pub Rounds : Type 0
  Rounds = RelayState → Option (Result RelayError RelayState)

  abbrev pub with_scanned :
      RelayState → Option ScanState → Rounds → Option (Result RelayError RelayState)
  with_scanned s none again = none
  with_scanned s (some scanned) again = again (report_progress (record s { scanned = scanned }))

  abbrev pub after_read_answer :
      RelayRound
      → RelayState
      → Rounds
      → Result IoError (List ℕ)
      → Option (Result RelayError RelayState)
  after_read_answer r s again (ok []) = again s
  after_read_answer r s again (ok (b ∷ bs)) =
      let s' = send_log r (b ∷ bs) s in
      with_scanned s' (scan_buffer binrw (b ∷ bs) s'.scanned) again
  after_read_answer r s again (err would_block) = again s
  after_read_answer r s again (err interrupted) = again s
  after_read_answer r s again (err (other e)) = some (err (read_error (other e)))

  abbrev pub after_poll_answer :
      RelayRound → RelayState → Rounds → PollAnswer → Option (Result RelayError RelayState)
  after_poll_answer r s again timed_out = again s
  after_poll_answer r s again no_input = again s
  after_poll_answer r s again poll_interrupted = again s
  after_poll_answer r s again (poll_failed e) = some (err (poll_error e))
  after_poll_answer r s again ready = after_read_answer r s again r.read_answer

  -- Without `--no-poll` a round reads only where `poll` finds something.
  abbrev pub answer_round :
      Bool → RelayRound → RelayState → Rounds → Option (Result RelayError RelayState)
  answer_round true r s again = after_read_answer r s again r.read_answer
  answer_round false r s again = after_poll_answer r s again r.poll_answer

  abbrev pub unless_stopped :
      Bool
      → RelayState
      → Option (Result RelayError RelayState)
      → Option (Result RelayError RelayState)
  unless_stopped true s more = some (ok s)
  unless_stopped false s more = more

  -- The loop of `run`, over the rounds that it goes; where these are over, it is running still.
  unfoldable pub relay_loop :
      Bool → List RelayRound → RelayState → Option (Result RelayError RelayState)
  relay_loop no_poll [] s = none
  relay_loop no_poll (r ∷ rs) s =
      unless_stopped r.stop_seen s (answer_round no_poll r s (relay_loop no_poll rs))

abbrev pub scan_start : ScanState
scan_start = record { last_seq = none; last_toggle = none; total = 0; dups = 0; corruptions = 0 }

abbrev pub relay_start : RelayState
relay_start = record { scanned = scan_start; last_report = 0; reports = []; logged = [] }

-- What `main` exits with behind `run`: an error is 1 too.
unfoldable pub exit_code : Result RelayError RelayState → ℕ
exit_code (err e) = 1
exit_code (ok s) = if ltb 0 s.scanned.dups then 1 else 0

-- What the log file gets: each chunk behind its time and size.
unfoldable pub log_writer : List (ℕ × List ℕ) → List ℕ
log_writer [] = []
log_writer ((ts, bytes) ∷ more) =
    le_bytes 8 ts ++ (le_bytes 8 (length bytes) ++ (bytes ++ log_writer more))
