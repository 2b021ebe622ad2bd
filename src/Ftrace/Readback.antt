-- ===== src/Ftrace/Readback.antt =====
-- The output of the page parser (ftrace.rs) as the input of `RecordReader` (lib.rs).
use gds_traces.Ftrace.Replay.{add_record, flatten, page_records, records_of}
use gds_traces.Base.Outcome.{ok}
use gds_traces.Format.Readers.{Binrw}
use gds_traces.Reader.Source.{IsSteady, Source, contents}
use gds_traces.Reader.Records.{new, read_records}
use gds_traces.Ftrace.Ring.{
  Entry, IsEntry, clock, entry_payload, long, short, time_extend, time_stamp, timed_events,
}
use gds_traces.Reader.Loop.{IsStream, Stream, read_records-stream, stream_bytes, stream_records}
use gds_traces.Format.Types.{RawRecord, TraceRecord}
use gds_traces.Format.Accept.{HasFrame, IsRecord}
use gds_traces.Ftrace.Encode.{descriptors_of}
use gds_traces.Ftrace.Total.{event_record}
use gds_traces.Ftrace.Values.{AreCompleteValues, write_complete-IsRecord}
use gds_traces.Ftrace.Page.{Events}
use gds_traces.Ftrace.Safety.{complete_values_at, submit_values_at}
use gds_traces.Base.Bytes.{IsByte, from_le, from_le-slice-lt, get_or-IsByte}
use gds_traces.Ftrace.Submit.{AreSubmitValues, AreWhole, write_submit-IsRecord}
use gds_traces.Ftrace.Formats.{CompleteFormat, SubmitFormat}
use gds_traces.Ftrace.Run.{end_within, end_within→le}
use gds_traces.Base.{
  ==→eq, [], ap, map, suc, sym, ◌++◌, ◌∙◌, ◌∷◌, All, Bool, Bool-cases, List, Option, arith, drop,
  false, if◌then◌else◌, inl, inr, leb, length, length-drop, length-take, ltb, none, refl, slice,
  some, true, ◌%◌, ◌&&◌, ◌+◌, ◌/◌, ◌<◌, ◌==◌, ◌^◌, ◌≡◌, ◌≤◌, ℕ,
}

-- An event's data: bytes, no more than a page holds; a submission has whole descriptors.
pub record IsEventData (ev : Events) (bytes : List ℕ) : Type 0 where
  pub are_bytes : All IsByte bytes
  pub fits_page : length bytes ≤ 4080
  pub whole :
      from_le (slice bytes 0 2) ≡ ev.submit_id → AreWhole (submit_values_at bytes ev.submit_fmt)

descriptors_of-le :
    (bytes : List ℕ) (dataloc : ℕ) → length (descriptors_of bytes dataloc) ≤ length bytes
descriptors_of-le bytes dataloc =
    elim (Bool-cases
      (ltb 0 (dataloc / 2 ^ 16) && leb (dataloc % 2 ^ 16 + dataloc / 2 ^ 16) (length bytes))) [
        | inl here ↦ rw here (
            omega (
              arith,
              length-take (dataloc / 2 ^ 16) (drop (dataloc % 2 ^ 16) bytes),
              length-drop (dataloc % 2 ^ 16) bytes,
            ))
        | inr none_here ↦ rw none_here (omega arith)
      ]

submit_values_at-fit :
    (bytes : List ℕ) (fmt : SubmitFormat)
    → All IsByte bytes
    → length bytes ≤ 4080
    → fmt.sqe + 64 ≤ length bytes
    → AreSubmitValues (submit_values_at bytes fmt)
unfolding submit_values_at
submit_values_at-fit bytes fmt b h k = record {
  ctrl_id_fits = omega arith;
  qid_fits = omega arith;
  cid_fits = omega (arith, from_le-slice-lt 2 fmt.cid bytes b);
  data_len_fits = omega (arith, from_le-slice-lt 4 fmt.data_len bytes b);
  meta_len_fits = omega (arith, from_le-slice-lt 4 fmt.meta_len bytes b);
  sqe_fits = omega (arith, length-take 64 (drop fmt.sqe bytes), length-drop fmt.sqe bytes);
  descriptors_fit =
      omega (arith, descriptors_of-le bytes (from_le (slice bytes fmt.descriptors_dataloc 4)));
}

complete_values_at-fit :
    (bytes : List ℕ) (fmt : CompleteFormat)
    → All IsByte bytes
    → AreCompleteValues (complete_values_at bytes fmt)
unfolding complete_values_at
complete_values_at-fit bytes fmt b = record {
  ctrl_id_fits = omega arith;
  qid_fits = omega arith;
  cid_fits = omega (arith, from_le-slice-lt 2 fmt.cid bytes b);
  result_fits = omega (arith, from_le-slice-lt 8 fmt.result bytes b);
  sq_head_fits = omega (arith, from_le-slice-lt 2 fmt.sq_head bytes b);
  sq_id_fits = omega (arith, from_le-slice-lt 2 fmt.sq_id bytes b);
  status_fits = omega (arith, from_le-slice-lt 2 fmt.status bytes b);
  retries_fits = get_or-IsByte bytes fmt.retries b;
}

-- Each record of an event is one that the reader accepts.
abbrev IsReadable : Option (List ℕ) → Type 0
IsReadable none = Unit
IsReadable (some rec) = (t : TraceRecord) × (HasFrame rec × IsRecord rec t)

IsReadable-if :
    (b : Bool) (x y : Option (List ℕ))
    → (b ≡ true → IsReadable x)
    → (b ≡ false → IsReadable y)
    → IsReadable (if b then x else y)
IsReadable-if true x y h k = h refl
IsReadable-if false x y h k = k refl

event_record-IsReadable :
    (ev : Events) (bytes : List ℕ) (ts : ℕ)
    → IsEventData ev bytes
    → ts < 2 ^ 64
    → IsReadable (event_record ev bytes ts)
unfolding event_record
event_record-IsReadable ev bytes ts d h =
    let event_type = from_le (slice bytes 0 2) in
    IsReadable-if (ltb (length bytes) 2) _ _ (λ _. tt)
      λ _.
        IsReadable-if (event_type == ev.submit_id) _ _
          (λ is_ours.
            IsReadable-if
              (end_within ev.submit_fmt.descriptors_dataloc 4 (length bytes)
                && end_within ev.submit_fmt.sqe 64 (length bytes))
              _ _
              (λ both.
                let room = end_within→le ev.submit_fmt.sqe 64 (length bytes) (ground arith) in
                let fit = submit_values_at-fit bytes ev.submit_fmt d.are_bytes d.fits_page room in
                (
                  _,
                  write_submit-IsRecord ts (submit_values_at bytes ev.submit_fmt) h fit
                      (d.whole (==→eq event_type ev.submit_id is_ours)),
                ))
              (λ _. tt))
          λ _.
            IsReadable-if (event_type == ev.complete_id) _ _
              (λ _.
                IsReadable-if (end_within ev.complete_fmt.retries 1 (length bytes)) _ _
                  (λ _.
                    let fit = complete_values_at-fit bytes ev.complete_fmt d.are_bytes in
                    (
                      _,
                      write_complete-IsRecord ts (complete_values_at bytes ev.complete_fmt) h fit,
                    ))
                  (λ _. tt))
              (λ _. tt)

-- The records of a page as a stream.
abbrev Streamed : List (List ℕ) → Type 0
Streamed recs = (ps : Stream) × (map (λ p. p.0) ps ≡ recs) × IsStream ps

add_record-Streamed :
    (o : Option (List ℕ)) (rs : List (List ℕ))
    → IsReadable o
    → Streamed rs
    → Streamed (add_record o rs)
add_record-Streamed none rs h s = s
add_record-Streamed (some rec) rs (t, good) (ps, e, all) =
    ((rec, t) ∷ ps, ap (λ x. rec ∷ x) e, (good, all))

records_of-Streamed :
    (ev : Events) (es : List (List ℕ × ℕ))
    → All (λ p. IsEventData ev p.0 × (p.1 < 2 ^ 64)) es
    → Streamed (records_of ev es)
unfolding records_of
records_of-Streamed ev [] h = ([], refl, tt)
records_of-Streamed ev ((bytes, ts) ∷ es) ((d, t), hs) =
    add_record-Streamed (event_record ev bytes ts) (records_of ev es)
      (event_record-IsReadable ev bytes ts d t) (records_of-Streamed ev es hs)

flatten-stream : (ps : Stream) → stream_bytes ps ≡ flatten (map (λ p. p.0) ps)
unfolding stream_bytes flatten
flatten-stream [] = refl
flatten-stream ((bytes, t) ∷ ps) = ap (λ x. bytes ++ x) (flatten-stream ps)

bytes-stream_records :
    (k : ℕ) (ps : Stream) → map (λ r. r.bytes) (stream_records k ps) ≡ map (λ p. p.0) ps
unfolding stream_records
bytes-stream_records k [] = refl
bytes-stream_records k ((bytes, t) ∷ ps) =
    ap (λ x. bytes ∷ x) (bytes-stream_records ((k + length bytes) % 2 ^ 64) ps)

length-map_bytes : (ps : Stream) → length (map (λ p. p.0) ps) ≡ length ps
length-map_bytes [] = refl
length-map_bytes (p ∷ ps) = ap suc (length-map_bytes ps)

-- The data of each event of a page.
abbrev pub AreEvents : Events → List Entry → Type 0
AreEvents ev [] = Unit
AreEvents ev (short words delta payload ∷ es) = IsEventData ev payload × AreEvents ev es
AreEvents ev (long delta payload ∷ es) = IsEventData ev payload × AreEvents ev es
AreEvents ev (time_extend delta upper ∷ es) = AreEvents ev es
AreEvents ev (time_stamp delta time ∷ es) = AreEvents ev es

clock-lt : (ts : ℕ) (e : Entry) → IsEntry e → clock ts e < 2 ^ 64
unfolding clock
clock-lt ts (short words delta payload) h = omega arith
clock-lt ts (long delta payload) h = omega arith
clock-lt ts (time_extend delta upper) h = omega arith
clock-lt ts (time_stamp delta time) h = h.1

timed_events_fit :
    (ev : Events) (ts : ℕ) (es : List Entry)
    → All IsEntry es
    → AreEvents ev es
    → All (λ p. IsEventData ev p.0 × (p.1 < 2 ^ 64)) (timed_events ts es)
unfolding timed_events entry_payload
timed_events_fit ev ts [] h d = tt
timed_events_fit ev ts (short words delta payload ∷ es) (h, hs) (d, ds) = (
  (d, clock-lt ts (short words delta payload) h),
  timed_events_fit ev (clock ts (short words delta payload)) es hs ds,
)
timed_events_fit ev ts (long delta payload ∷ es) (h, hs) (d, ds) = (
  (d, clock-lt ts (long delta payload) h),
  timed_events_fit ev (clock ts (long delta payload)) es hs ds,
)
timed_events_fit ev ts (time_extend delta upper ∷ es) (h, hs) ds =
    timed_events_fit ev (clock ts (time_extend delta upper)) es hs ds
timed_events_fit ev ts (time_stamp delta time ∷ es) (h, hs) ds =
    timed_events_fit ev (clock ts (time_stamp delta time)) es hs ds

-- Let a page have well-formed entries whose events are bytes, at most 4080 of them, with whole
-- descriptors where the event is a submission. Then a reader over any steady source with the bytes
-- that the page gives reads as many records as the page has, without an error, and their bytes are
-- those of the page's records one by one.
pub page_records-read_records :
    {E : Type 0} (binrw : Binrw E) (ev : Events) (ts : ℕ) (es : List Entry) (source : Source)
    → All IsEntry es
    → AreEvents ev es
    → IsSteady source
    → contents source ≡ flatten (page_records ev ts es)
    → (rs : List RawRecord) × (read_records binrw
          (suc (length (page_records ev ts es)))
          (new source)
        ≡ some (ok rs))
      × (map (λ r. r.bytes) rs ≡ page_records ev ts es)
page_records-read_records binrw ev ts es source h d s c =
    let (ps, e, all) =
      records_of-Streamed ev (timed_events ts es) (timed_events_fit ev ts es h d) in
    let joined : contents source ≡ stream_bytes ps =
      c ∙ ap flatten (sym e) ∙ sym (flatten-stream ps) in
    let n : length (page_records ev ts es) ≡ length ps = ap length (sym e) ∙ length-map_bytes ps in
    (
      stream_records 0 ps,
      read_records-stream binrw ps (suc (length (page_records ev ts es))) (new source) s joined all
          (omega arith),
      bytes-stream_records 0 ps ∙ e,
    )
