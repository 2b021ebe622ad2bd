-- ===== src/Ftrace/Page.antt =====
-- tracing/nvme-trace/src/ftrace.rs, lines 382 to 503: one ring-buffer page.
use gds_traces.Base.Bytes.{from_le}
use gds_traces.Ftrace.Encode.{encode_complete, encode_submit}
use gds_traces.Ftrace.Formats.{
  CompleteFormat, SubmitFormat, page_data_offset, page_size, ringbuf_type_padding,
  ringbuf_type_time_extend, ringbuf_type_time_stamp,
}
use gds_traces.Base.{
  List, Option, if◌then◌else◌, leb, length, ltb, none, slice, some, suc, zero, ◌%◌, ◌*◌, ◌++◌, ◌+◌,
  ◌-◌, ◌/◌, ◌==◌, ◌^◌, ◌||◌, ℕ,
}
use gds_traces.Ftrace.Run.{Run, done, out_of_fuel, panic, ◌>>=◌}
use Prim.Native.Nat.{bit_or}

-- The ids and the field tables of a capture session (`FtraceCapture`).
pub record Events : Type 0 where
  pub submit_id : ℕ
  pub complete_id : ℕ
  pub submit_fmt : SubmitFormat
  pub complete_fmt : CompleteFormat

-- What `out` gets, and the number of records that it is.
abbrev pub emitted : List ℕ → Option (List ℕ) → ℕ × List ℕ
emitted out none = (0, out)
emitted out (some rec) = (1, out ++ rec)

unfoldable pub dispatch_event : Events → List ℕ → ℕ → List ℕ → Run (ℕ × List ℕ)
dispatch_event ev event_data timestamp_ns out =
    let event_type = from_le (slice event_data 0 2) in
    if ltb (length event_data) 2
    then done (0, out)
    else if event_type == ev.submit_id
    then (do rec ← encode_submit event_data timestamp_ns ev.submit_fmt; done (emitted out rec))
    else if event_type == ev.complete_id
    then (do rec ← encode_complete event_data timestamp_ns ev.complete_fmt; done (emitted out rec))
    else done (0, out)

-- The variables of the loop over a page.
pub record PageState : Type 0 where
  pub pos : ℕ
  pub ts : ℕ
  pub count : ℕ
  pub out : List ℕ

-- One round of the loop: `stop` is a `break`, or the loop's own test.
pub data Round : Type 0 where
  stop : Round
  next : PageState → Round

abbrev pub wrapping_add : ℕ → ℕ → ℕ
wrapping_add a b = (a + b) % 2 ^ 64

unfoldable pub page_event : Events → List ℕ → PageState → ℕ → ℕ → ℕ → Run Round
page_event ev bytes s pos event_len ts = do
  (n, out) ← dispatch_event ev (slice bytes pos event_len) ts s.out
  done (next (record { pos = pos + event_len; ts = ts; count = s.count + n; out = out }))

-- The `match` on `type_len`, with `pos` behind the event's header.
unfoldable pub page_match : Events → List ℕ → PageState → ℕ → ℕ → ℕ → Run Round
page_match ev bytes s pos type_len time_delta =
    if type_len == ringbuf_type_padding
    then done stop
    else if type_len == ringbuf_type_time_stamp
    then (if ltb (length bytes) (pos + 8)
        then done stop
        else done (next (record s { pos = pos + 8; ts = from_le (slice bytes pos 8) })))
    else if type_len == ringbuf_type_time_extend
    then (if ltb (length bytes) (pos + 4)
        then done stop
        else (let upper = from_le (slice bytes pos 4) in
            done (
              next (record s {
                pos = pos + 4;
                ts = wrapping_add s.ts (bit_or (upper * 2 ^ 27 % 2 ^ 64) time_delta);
              }))))
    else if type_len == 0
    then (if ltb (length bytes) (pos + 4)
        then done stop
        else (let event_len = from_le (slice bytes pos 4) in
            if event_len == 0 || ltb (length bytes) (pos + 4 + event_len)
            then done stop
            else page_event ev bytes s (pos + 4) event_len (wrapping_add s.ts time_delta)))
    else (if ltb (length bytes) (pos + type_len * 4)
        then done stop
        else page_event ev bytes s pos (type_len * 4) (wrapping_add s.ts time_delta))

unfoldable pub page_round : Events → List ℕ → PageState → Run Round
page_round ev bytes s =
    let hdr = from_le (slice bytes s.pos 4) in
    if leb (s.pos + 4) (length bytes)
    then page_match ev bytes s (s.pos + 4) (hdr % 2 ^ 5) (hdr / 2 ^ 5)
    else done stop

unfoldable pub page_loop : ℕ → Events → List ℕ → PageState → Run PageState
page_loop zero ev bytes s = out_of_fuel
page_loop (suc fuel) ev bytes s = elim (page_round ev bytes s) [
  | done stop ↦ done s
  | done (next s') ↦ page_loop fuel ev bytes s'
  | panic ↦ panic
  | out_of_fuel ↦ out_of_fuel
]

-- `parse_page_events`: the count, and `out` with the records behind it. Each round takes four bytes
-- at least, so a page's bytes are fuel enough.
unfoldable pub parse_page_events : Events → List ℕ → List ℕ → Run (ℕ × List ℕ)
parse_page_events ev page out =
    let page_ts = from_le (slice page 0 8) in
    let commit = from_le (slice page 8 4) in
    let bytes = slice page page_data_offset commit in
    if commit == 0 || ltb (page_size - page_data_offset) commit then done (0, out) else (do
      s ←
          page_loop (suc (length bytes)) ev bytes
            (record { pos = 0; ts = page_ts; count = 0; out = out })
      done (s.count, s.out))
