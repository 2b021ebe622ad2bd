-- ===== src/Reader/Records.antt =====
-- `RecordReader::next_record`: one record at a time, with the stream offset that it started at.
use gds_traces.Format.Readers.{Binrw}
use gds_traces.Format.Parse.{parse_header, parse_record_bytes}
use gds_traces.Format.Types.{
  RawRecord, TraceError, header_len, invalid_length, io, truncated_header, truncated_payload,
}
use gds_traces.Reader.Source.{Source, read_exact_or_eof}
use gds_traces.Base.{
  [], ◌∷◌, List, Option, if◌then◌else◌, length, ltb, none, some, suc, zero, ◌%◌, ◌^◌, ◌++◌, ◌+◌,
  ◌-◌, ◌==◌, ℕ,
}
use gds_traces.Base.Outcome.{Result, map_err, ok, err}

pub record RecordReader : Type 0 where
  pub inner : Source
  pub offset : ℕ

abbrev pub new : Source → RecordReader
new inner = record { inner = inner; offset = 0 }

-- A method of the reader: its result and the reader behind it. An error keeps the changes made.
abbrev pub Method : Type 0 → Type 0 → Type 0
Method E A = RecordReader → Result (TraceError E) A × RecordReader

infixl 5 ◌>>=◌ ◌>>◌
abbrev pub ◌>>=◌ : {E A B : Type 0} → Method E A → (A → Method E B) → Method E B
◌>>=◌ m f r = let (x, r') = m r in elim x [ ok a ↦ f a r' | err e ↦ (err e, r') ]

abbrev pub ◌>>◌ : {E B : Type 0} → Method E (Unit {0}) → Method E B → Method E B
m >> k = m >>= λ _. k

abbrev pure : {E A : Type 0} → A → Method E A
pure a r = (ok a, r)

abbrev throw : {E A : Type 0} → TraceError E → Method E A
throw e r = (err e, r)

abbrev lift : {E A : Type 0} → Result (TraceError E) A → Method E A
lift x r = (x, r)

-- `self.offset += n`, on a `u64`.
abbrev advance : {E : Type 0} → ℕ → Method E (Unit {0})
advance n r = (ok tt, record r { offset = (r.offset + n) % 2 ^ 64 })

abbrev fill : {E : Type 0} → ℕ → Method E (List ℕ)
fill n r =
    let (x, inner) = read_exact_or_eof n r.inner in (map_err io x, record r { inner = inner })

unfoldable pub cons_record :
    {E : Type 0}
    → RawRecord
    → Option (Result (TraceError E) (List RawRecord))
    → Option (Result (TraceError E) (List RawRecord))
cons_record w none = none
cons_record w (some (ok ws)) = some (ok (w ∷ ws))
cons_record w (some (err e)) = some (err e)

module _ {E : Type 0} (binrw : Binrw E) where
  -- Behind the header's length test: the payload, and the whole record.
  unfoldable pub next_payload : ℕ → List ℕ → ℕ → Method E (Option RawRecord)
  next_payload offset header_bytes len = do
    payload ← fill (len - header_len)
    if length payload == len - header_len
        then (do
          r ← lift (parse_record_bytes binrw (header_bytes ++ payload) offset)
          advance len
          pure (some r))
        else (do
          advance (header_len + length payload)
          throw (truncated_payload offset (len - header_len) (length payload)))

  unfoldable pub next_header : ℕ → List ℕ → Method E (Option RawRecord)
  next_header offset header_bytes = do
    header ← lift (parse_header binrw header_bytes offset)
    if ltb header.len header_len
        then throw (
            invalid_length offset header.record_type header.len
              "record length is smaller than the header")
        else next_payload offset header_bytes header.len

  unfoldable pub short_header : ℕ → List ℕ → Method E (Option RawRecord)
  short_header offset header_bytes = do
    advance (length header_bytes)
    throw (truncated_header offset (length header_bytes))

  unfoldable pub start_record : ℕ → Method E (Option RawRecord)
  start_record offset = do
    header_bytes ← fill header_len
    if length header_bytes == 0
        then pure none
        else if length header_bytes == header_len
        then next_header offset header_bytes
        else short_header offset header_bytes

  unfoldable pub next_record : Method E (Option RawRecord)
  next_record r = start_record r.offset r

  -- `while let Some(raw) = reader.next_record()? { records.push(raw) }`, with fuel for the rounds;
  -- the outer `none` means that the fuel ran out.
  unfoldable pub read_records : ℕ → RecordReader → Option (Result (TraceError E) (List RawRecord))
  unfolding cons_record
  read_records zero r = none
  read_records (suc fuel) r =
      let (x, r') = next_record r in
      elim x [
        | ok none ↦ some (ok [])
        | ok (some record_read) ↦ cons_record record_read (read_records fuel r')
        | err e ↦ some (err e)
      ]
