-- ===== src/Capture/Pipe.antt =====
-- tracing/nvme-trace/src/capture.rs, lines 189 to 249: `read_one_page` and `drain_pipe`. The
-- output file takes every write.
use gds_traces.Reader.Source.{Source, chunk, fails}
use gds_traces.Ftrace.Page.{Events, parse_page_events}
use gds_traces.Base.Outcome.{Result, err, ok}
use gds_traces.Format.Types.{other, IoError, interrupted, would_block}
use gds_traces.Base.{
  List, Option, [], drop, if◌then◌else◌, leb, length, none, some, suc, take, zero, ℕ, ◌%◌, ◌++◌,
  ◌+◌, ◌-◌, ◌^◌, ◌∷◌,
}
use gds_traces.Ftrace.Formats.{page_size}
use gds_traces.Ftrace.Run.{Run, done, out_of_fuel, panic, ◌>>=◌}

-- Nothing read before the pipe is empty is no page; a part of one is taken as it is.
abbrev pub at_end : List ℕ → Result IoError (Option (List ℕ))
at_end [] = ok none
at_end (b ∷ bs) = ok (some (b ∷ bs))

-- The loop that fills the page: `n` bytes are wanted still, `got` were read. The value is what was
-- read, or `none` for an empty pipe.
unfoldable pub fill_page : ℕ → List ℕ → Source → Result IoError (Option (List ℕ)) × Source
fill_page zero got source = (ok (some got), source)
fill_page (suc n) got [] = (at_end got, [])
fill_page (suc n) got (chunk [] ∷ rest) = (at_end got, rest)
fill_page (suc n) got (chunk (b ∷ bs) ∷ rest) =
    let more = fill_page (n - length bs) (got ++ (b ∷ bs)) rest in
    if leb (length bs) n
    then more
    else (ok (some (got ++ take (suc n) (b ∷ bs))), chunk (drop (suc n) (b ∷ bs)) ∷ rest)
fill_page (suc n) got (fails interrupted ∷ rest) = fill_page (suc n) got rest
fill_page (suc n) got (fails would_block ∷ rest) = (at_end got, rest)
fill_page (suc n) got (fails (other k) ∷ rest) = (err (other k), rest)

-- What was read, over the bytes that the page held before.
abbrev pub overlay : List ℕ → List ℕ → List ℕ
overlay got page = got ++ drop (length got) page

-- What a call gives: no page, an error, or a page with the number of its records and their bytes.
pub data PageRead : Type 0 where
  no_page : PageRead
  read_failed : IoError → PageRead
  page_read : ℕ → List ℕ → List ℕ → PageRead

abbrev pub parse_filled : Events → List ℕ → Result IoError (Option (List ℕ)) → Run PageRead
parse_filled ev page (err e) = done (read_failed e)
parse_filled ev page (ok none) = done no_page
parse_filled ev page (ok (some got)) = do
  (n, records) ← parse_page_events ev (overlay got page) []
  done (page_read n records (overlay got page))

unfoldable pub read_one_page : Events → List ℕ → Source → Run PageRead × Source
read_one_page ev page source =
    let (filled, rest) = fill_page page_size [] source in (parse_filled ev page filled, rest)

-- The output file, and the two counts.
pub record CaptureStats : Type 0 where
  pub output : List ℕ
  pub bytes_written : ℕ
  pub events_captured : ℕ

abbrev pub add_page : ℕ → List ℕ → CaptureStats → CaptureStats
add_page n records stats = record {
  output = stats.output ++ records;
  bytes_written = (stats.bytes_written + length records) % 2 ^ 64;
  events_captured = (stats.events_captured + n) % 2 ^ 64;
}

-- What the loop makes of a call: it ends, or goes on by `again`.
abbrev pub drain_next :
    (List ℕ → Source → CaptureStats → Run (Result IoError CaptureStats))
    → CaptureStats
    → Run PageRead × Source
    → Run (Result IoError CaptureStats)
drain_next again stats (done no_page, rest) = done (ok stats)
drain_next again stats (done (read_failed e), rest) = done (err e)
drain_next again stats (done (page_read n records page), rest) =
    again page rest (add_page n records stats)
drain_next again stats (panic, rest) = panic
drain_next again stats (out_of_fuel, rest) = out_of_fuel

-- The loop until there is no page, on fuel; an error keeps what was written.
unfoldable pub drain_pipe :
    ℕ → Events → List ℕ → Source → CaptureStats → Run (Result IoError CaptureStats)
drain_pipe zero ev page source stats = out_of_fuel
drain_pipe (suc fuel) ev page source stats =
    drain_next (drain_pipe fuel ev) stats (read_one_page ev page source)
