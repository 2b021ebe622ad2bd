-- ===== src/Capture/Drain.antt =====
-- tracing/nvme-trace/src/capture.rs, lines 189 to 249: pipes that give whole pages, and a part of
-- one.
use gds_traces.Ftrace.Replay.{flatten}
use gds_traces.Base.Outcome.{ok}
use gds_traces.Format.Types.{would_block}
use gds_traces.Ftrace.Formats.{page_size}
use gds_traces.Reader.Source.{Source, chunk, fails}
use gds_traces.Base.{
  drop, refl, All, ap, append-nil, append_assoc, drop_all, length-append, map, suc, sym, zero, ◌%◌,
  ◌++◌, ◌+◌, ◌<◌, ◌^◌, ◌∙◌, List, [], arith, length, le→leb, some, ℕ, ◌-◌, ◌∷◌, ◌≡◌,
}
use gds_traces.Ftrace.Total.{IsLayout, parse_page_events_total}
use gds_traces.Ftrace.Run.{Run, done, out_of_fuel, panic}
use gds_traces.Capture.Pipe.{
  drain_next, no_page, drain_pipe, overlay, page_read, read_one_page, CaptureStats, add_page,
  fill_page,
}
use gds_traces.Ftrace.Page.{Events, parse_page_events}

-- A pipe with whole pages, each in one read, and then empty for now.
unfoldable pub pages_source : List (List ℕ) → Source
pages_source [] = fails would_block ∷ []
pages_source (p ∷ ps) = chunk p ∷ pages_source ps

abbrev pub IsPage : List ℕ → Type 0
IsPage p = length p ≡ page_size

-- The number of a page's records, and their bytes.
abbrev pub parsed : Run (ℕ × List ℕ) → ℕ × List ℕ
parsed (done x) = x
parsed panic = (0, [])
parsed out_of_fuel = (0, [])

abbrev pub page_output : Events → List ℕ → ℕ × List ℕ
page_output ev p = parsed (parse_page_events ev p [])

abbrev pub pages_bytes : Events → List (List ℕ) → List ℕ
pages_bytes ev ps = flatten (map (λ p. (page_output ev p).1) ps)

abbrev pub pages_events : Events → List (List ℕ) → ℕ
pages_events ev [] = 0
pages_events ev (p ∷ ps) = (page_output ev p).0 + pages_events ev ps

-- The records of the pages are behind what was written, and both counts have grown by theirs.
abbrev pub Drained : Events → List (List ℕ) → CaptureStats → CaptureStats → Type 0
Drained ev ps stats stats' =
    (stats'.output ≡ stats.output ++ pages_bytes ev ps)
    × (stats'.bytes_written ≡ (stats.bytes_written + length (pages_bytes ev ps)) % 2 ^ 64)
    × (stats'.events_captured ≡ (stats.events_captured + pages_events ev ps) % 2 ^ 64)

fill_page-whole :
    (p : List ℕ) (rest : Source)
    → IsPage p
    → fill_page page_size [] (chunk p ∷ rest) ≡ (ok (some p), rest)
unfolding fill_page
fill_page-whole [] rest h = absurd (omega arith)
fill_page-whole (b ∷ bs) rest h =
    let fits = le→leb (length bs) 4095 (omega arith) in
    let none_left : 4095 - length bs ≡ 0 = omega arith in rw fits (rw none_left)

parse_page_events-done :
    (ev : Events) (l : IsLayout ev) (p : List ℕ)
    → parse_page_events ev p [] ≡ done (page_output ev p)
parse_page_events-done ev l p =
    let (n, more, e) = parse_page_events_total ev p [] l in e ∙ ap (λ x. done (parsed x)) (sym e)

pub read_one_page-whole :
    (ev : Events) (l : IsLayout ev) (page p : List ℕ) (rest : Source)
    → length page ≡ page_size
    → IsPage p
    → read_one_page ev page (chunk p ∷ rest)
      ≡ (done (page_read (page_output ev p).0 (page_output ev p).1 p), rest)
unfolding read_one_page
read_one_page-whole ev l page p rest h k =
    let all : overlay p page ≡ p =
      ap (λ x. p ++ x) (drop_all page (length p) (omega arith)) ∙ append-nil p in
    rw (fill_page-whole p rest k) (rw all (rw (parse_page_events-done ev l p)))

pub read_one_page-empty :
    (ev : Events) (page : List ℕ)
    → read_one_page ev page (fails would_block ∷ []) ≡ (done no_page, [])
unfolding read_one_page fill_page
read_one_page-empty ev page = refl

pub Drained-step :
    (ev : Events) (p : List ℕ) (ps : List (List ℕ)) (stats stats' : CaptureStats)
    → Drained ev ps (add_page (page_output ev p).0 (page_output ev p).1 stats) stats'
    → Drained ev (p ∷ ps) stats stats'
unfolding flatten
Drained-step ev p ps stats stats' (o, b, n) =
    let recs = (page_output ev p).1 in
    let size = length-append recs (pages_bytes ev ps) in
    (o ∙ append_assoc stats.output recs (pages_bytes ev ps), omega arith, omega arith)

-- With field tables of the documented layout, a page buffer of one page, counts in 64 bits, and
-- fuel for one round more than there are pages: draining a pipe that gives whole pages, each in
-- one read, and then would block, ends without an error, writes the records of the pages behind
-- the output, in order, and adds their bytes and their number to the two counts, in 64 bits.
pub drain_pipe-Drained :
    (ev : Events) (l : IsLayout ev) (ps : List (List ℕ)) (fuel : ℕ) (page : List ℕ)
    (stats : CaptureStats)
    → length page ≡ page_size
    → All IsPage ps
    → stats.bytes_written < 2 ^ 64
    → stats.events_captured < 2 ^ 64
    → length ps < fuel
    → (stats' : CaptureStats) × (drain_pipe fuel ev page (pages_source ps) stats ≡ done (ok stats'))
      × Drained ev ps stats stats'
unfolding drain_pipe pages_source flatten
drain_pipe-Drained ev l ps zero page stats h k b n f = absurd (omega arith)
drain_pipe-Drained ev l [] (suc fuel) page stats h k b n f = (
  stats,
  ap (drain_next (drain_pipe fuel ev) stats) (read_one_page-empty ev page),
  (sym (append-nil stats.output), omega arith, omega arith),
)
drain_pipe-Drained ev l (p ∷ ps) (suc fuel) page stats h (k, ks) b n f =
    let step = read_one_page-whole ev l page p (pages_source ps) h k in
    let (stats', e, d) =
      drain_pipe-Drained ev l ps fuel p (add_page (page_output ev p).0 (page_output ev p).1 stats) k
        ks (omega arith) (omega arith) (omega arith) in
    (
      stats',
      ap (drain_next (drain_pipe fuel ev) stats) step ∙ e,
      Drained-step ev p ps stats stats' d,
    )

fill_page-partial :
    (bs : List ℕ) (rest : Source)
    → 0 < length bs
    → length bs < page_size
    → fill_page page_size [] (chunk bs ∷ fails would_block ∷ rest) ≡ (ok (some bs), rest)
unfolding fill_page
fill_page-partial [] rest h k = absurd (omega arith)
fill_page-partial (b ∷ bs) rest h k =
    let fits = le→leb (length bs) 4095 (omega arith) in
    let wanted : 4095 - length bs ≡ suc (4094 - length bs) = omega arith in rw fits (rw wanted)

-- With field tables of the documented layout, where a pipe gives some bytes, but less than a page,
-- and then would block, `read_one_page` does not wait for the rest: it parses the bytes read
-- followed by the bytes that the buffer held before, and gives the records of that page.
pub read_one_page-partial :
    (ev : Events) (l : IsLayout ev) (page bs : List ℕ) (rest : Source)
    → 0 < length bs
    → length bs < page_size
    → let mixed = bs ++ drop (length bs) page in
      read_one_page ev page (chunk bs ∷ fails would_block ∷ rest)
      ≡ (done (page_read (page_output ev mixed).0 (page_output ev mixed).1 mixed), rest)
unfolding read_one_page
read_one_page-partial ev l page bs rest h k =
    rw (fill_page-partial bs rest h k) (rw (parse_page_events-done ev l (overlay bs page)))
