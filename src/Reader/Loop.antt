-- ===== src/Reader/Loop.antt =====
-- The loop over `next_record` (analyze.rs, lines 167 to 177, and print.rs, lines 25 to 34) on
-- whole streams.
use gds_traces.Reader.Cost.{next_record-shrinks}
use gds_traces.Reader.Streams.{next_record-end, next_record-record}
use gds_traces.Format.Accept.{HasFrame, IsRecord, raw}
use gds_traces.Format.Readers.{Binrw}
use gds_traces.Reader.Source.{IsSteady, contents}
use gds_traces.Reader.Records.{cons_record, RecordReader, next_record, read_records}
use gds_traces.Format.Types.{TraceError, RawRecord, TraceRecord}
use gds_traces.Base.{
  Option, none, refl, ap, ◌∙◌, All, List, [], arith, length, some, suc, zero, ◌%◌, ◌^◌, ◌++◌, ◌+◌,
  ◌<◌, ◌∷◌, ◌≡◌, ◌≤◌, ℕ,
}
use gds_traces.Base.Outcome.{Result, ok, err}

-- A stream as the bytes of each record with the record that they are.
abbrev pub Stream : Type 0
Stream = List (List ℕ × TraceRecord)

abbrev pub IsStream : Stream → Type 0
IsStream = All (λ p. HasFrame p.0 × IsRecord p.0 p.1)

unfoldable pub stream_bytes : Stream → List ℕ
stream_bytes [] = []
stream_bytes ((bytes, t) ∷ ps) = bytes ++ stream_bytes ps

-- Each record with the offset at which it starts, in 64 bits.
unfoldable pub stream_records : ℕ → Stream → List RawRecord
stream_records offset [] = []
stream_records offset ((bytes, t) ∷ ps) =
    raw bytes offset t ∷ stream_records ((offset + length bytes) % 2 ^ 64) ps

module _ {E : Type 0} (binrw : Binrw E) where
  read_records-more :
      (fuel : ℕ) (r : RecordReader) (w : RawRecord) (r' : RecordReader)
      → next_record binrw r ≡ (ok (some w), r')
      → read_records binrw (suc fuel) r ≡ cons_record w (read_records binrw fuel r')
  unfolding read_records
  read_records-more fuel r w r' e =
      let left : (next_record binrw r).1 ≡ r' = ap (λ o. o.1) e in rw (e, read_records) (rw left)

  -- From a reader over a steady source (no error but interruptions, no early end) whose bytes are
  -- those of a list of well-formed records, the read loop returns these records, in order, each
  -- with its bytes and the offset at which it starts, counted in 64 bits from the reader's, on
  -- fuel for one round more than there are records.
  pub read_records-stream :
      (ps : Stream) (fuel : ℕ) (r : RecordReader)
      → IsSteady r.inner
      → contents r.inner ≡ stream_bytes ps
      → IsStream ps
      → length ps < fuel
      → read_records binrw fuel r ≡ some (ok (stream_records r.offset ps))
  unfolding read_records stream_bytes stream_records cons_record
  read_records-stream ps zero r s c h l = absurd (omega arith)
  read_records-stream [] (suc fuel) r s c h l =
      let (r', e, o) = next_record-end binrw r s c in rw (e, read_records)
  read_records-stream ((bytes, t) ∷ ps) (suc fuel) r s c ((frame, shape), h) l =
      let (r', e, (o, c', s')) =
        next_record-record binrw r s bytes (stream_bytes ps) t c frame shape in
      let rest = read_records-stream ps fuel r' s' c' h (omega arith) in
      let w = raw bytes r.offset t in
      read_records-more fuel r w r' e
      ∙ ap (cons_record w) rest
      ∙ ap (λ k. some (ok (w ∷ stream_records k ps))) o

  cons_record_total :
      (w : RawRecord) (o : Option (Result (TraceError E) (List RawRecord)))
      → (x : Result (TraceError E) (List RawRecord)) × (o ≡ some x)
      → (y : Result (TraceError E) (List RawRecord)) × (cons_record w o ≡ some y)
  unfolding cons_record
  cons_record_total w none (x, e) = cc
  cons_record_total w (some (ok ws)) t = (ok (w ∷ ws), refl)
  cons_record_total w (some (err x)) t = (err x, refl)

  abbrev Ends : ℕ → RecordReader → Type 0
  Ends fuel r = (x : Result (TraceError E) (List RawRecord)) × (read_records binrw fuel r ≡ some x)

  Ends-step :
      (fuel : ℕ) (r : RecordReader) (out : Result (TraceError E) (Option RawRecord) × RecordReader)
      → ((r' : RecordReader)
          → length (contents r'.inner) + 24 ≤ length (contents r.inner)
          → Ends fuel r')
      → next_record binrw r ≡ out
      → Ends (suc fuel) r
  unfolding read_records
  Ends-step fuel r (err x, r') ih e = (err x, rw (e, read_records))
  Ends-step fuel r (ok none, r') ih e = (ok [], rw (e, read_records))
  Ends-step fuel r (ok (some w), r') ih e =
      let smaller = next_record-shrinks binrw r w r' e in
      let (y, q) = cons_record_total w (read_records binrw fuel r') (ih r' smaller) in
      (y, read_records-more fuel r w r' e ∙ q)

  -- On any source, whatever its bytes and errors, fuel for one round more than there are bytes is
  -- enough: the read loop ends with the records or with an error.
  pub read_records_total :
      (fuel : ℕ) (r : RecordReader) → length (contents r.inner) < fuel → Ends fuel r
  read_records_total zero r h = absurd (omega arith)
  read_records_total (suc fuel) r h =
      Ends-step fuel r (next_record binrw r) (λ r' k. read_records_total fuel r' (omega arith)) refl
