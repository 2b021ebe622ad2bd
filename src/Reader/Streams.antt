-- ===== src/Reader/Streams.antt =====
-- tracing/nvme-trace/src/lib.rs, lines 306 to 347: what `next_record` returns, by the bytes that
-- are left.
use gds_traces.Format.Layout.{header_at}
use gds_traces.Format.Readers.{Binrw}
use gds_traces.Reader.Source.{IsSteady, contents}
use gds_traces.Reader.Records.{next_payload, RecordReader, next_record}
use gds_traces.Format.Accept.{HasFrame, IsRecord, header_at-take, parse_record_bytes_accepts, raw}
use gds_traces.Format.Types.{
  nvme_trace_magic, nvme_trace_version, truncated_header, truncated_payload, TraceRecord,
}
use gds_traces.Reader.Steps.{
  next_header-ok, next_payload-full, next_payload-short, start_record-end, start_record-full,
  start_record-short, after, after-contents, filled, moved,
}
use gds_traces.Base.{
  [], ap, drop-append_length, drop_all, length-take, none, sym, ◌<◌, List, arith, drop, length,
  length-append, length-drop, refl, some, take, take-append-drop, take-append_length,
  take-append_within, ◌%◌, ◌^◌, ◌++◌, ◌+◌, ◌-◌, ◌∙◌, ◌≡◌, ◌≤◌, ℕ,
}
use gds_traces.Base.Outcome.{ok, err}

-- What a call leaves: the reader `r'` stands `n` bytes further on, in 64 bits, before `rest`.
abbrev pub Leaves : RecordReader → ℕ → List ℕ → RecordReader → Type 0
Leaves r n rest r' =
    (r'.offset ≡ (r.offset + n) % 2 ^ 64) × (contents r'.inner ≡ rest) × IsSteady r'.inner

-- The stream starts with a header that passes the tests, and says at least its own length.
abbrev pub HasHead : List ℕ → Type 0
HasHead bytes =
    ((header_at bytes).magic ≡ nvme_trace_magic)
    × ((header_at bytes).version ≡ nvme_trace_version)
    × (24 ≤ (header_at bytes).len)

pub header_at-append :
    (bytes rest : List ℕ) → 24 ≤ length bytes → header_at (bytes ++ rest) ≡ header_at bytes
header_at-append bytes rest h =
    sym (header_at-take (bytes ++ rest))
    ∙ ap header_at (take-append_within 24 bytes rest h).0
    ∙ header_at-take bytes

module _ {E : Type 0} (binrw : Binrw E) (r : RecordReader) (s : IsSteady r.inner) where
  next_record-head :
      24 ≤ length (contents r.inner)
      → HasHead (contents r.inner)
      → next_record binrw r
        ≡ next_payload binrw r.offset
            (take 24 (contents r.inner))
            (header_at (contents r.inner)).len
            (filled r 24)
  unfolding next_record
  next_record-head long (magic, version, len) =
      let n = length-take 24 (contents r.inner) in
      let same = header_at-take (contents r.inner) in
      start_record-full binrw r.offset r s long
      ∙ next_header-ok binrw r.offset (take 24 (contents r.inner)) (filled r 24) (omega arith)
          (rw same magic) (rw same version) (rw same len)
      ∙ rw same

  -- From a reader over a steady source whose bytes start with those of a well-formed record,
  -- `next_record` returns this record with the reader's offset, and leaves the reader behind it:
  -- the offset is moved by its length, in 64 bits, the bytes left are the rest, and the source is
  -- steady.
  pub next_record-record :
      (bytes rest : List ℕ) (t : TraceRecord)
      → contents r.inner ≡ bytes ++ rest
      → HasFrame bytes
      → IsRecord bytes t
      → (r' : RecordReader) × (next_record binrw r ≡ (ok (some (raw bytes r.offset t)), r'))
        × Leaves r (length bytes) rest r'
  next_record-record bytes rest t c (long, magic, version, len) shape =
      let n = length bytes - 24 in
      let (c1, s1) = after-contents 24 r.inner s in
      let (c2, s2) = after-contents n (after 24 r.inner) s1 in
      let (front, back) = take-append_within 24 bytes rest long in
      let left = length-drop 24 bytes in
      let size = length-append bytes rest in
      let size1 = length-append (drop 24 bytes) rest in
      let in1 : contents (after 24 r.inner) ≡ drop 24 bytes ++ rest = c1 ∙ rw c back in
      let head : header_at (contents r.inner) ≡ header_at bytes =
        rw c (header_at-append bytes rest long) in
      let whole : take 24 (contents r.inner) ++ take n (contents (after 24 r.inner)) ≡ bytes =
        rw in1 (
          rw c (
            rw front (
              rw (take-append_length n (drop 24 bytes) rest (omega arith))
                (take-append-drop 24 bytes)))) in
      let parsed =
        parse_record_bytes_accepts binrw bytes r.offset t (long, magic, version, len) shape in
      let said : (header_at (contents r.inner)).len ≡ length bytes = ap (λ h. h.len) head ∙ len in
      let step1 = next_record-head (rw c (omega arith)) (rw head (magic, version, omega arith)) in
      let size2 : length (contents (after 24 r.inner)) ≡ length (drop 24 bytes ++ rest) =
        ap length in1 in
      let step2 =
        next_payload-full binrw r.offset (take 24 (contents r.inner)) (length bytes) (filled r 24)
          (raw bytes r.offset t) s1 (omega arith) (rw whole parsed) in
      (
        moved (filled r 24) n (length bytes),
        step1
            ∙ ap (λ k. next_payload binrw r.offset (take 24 (contents r.inner)) k (filled r 24))
                said
            ∙ step2,
        (refl, c2 ∙ rw in1 (drop-append_length n (drop 24 bytes) rest (omega arith)), s2),
      )

  -- From a reader over a steady source without bytes, `next_record` returns no record and no
  -- error, and the offset stays.
  pub next_record-end :
      contents r.inner ≡ []
      → (r' : RecordReader) × (next_record binrw r ≡ (ok none, r')) × (r'.offset ≡ r.offset)
  unfolding next_record
  next_record-end c = (filled r 24, start_record-end binrw r.offset r s c, refl)

  -- From a reader over a steady source with some bytes, but fewer than a header's: `next_record`
  -- reports a truncated header at the reader's offset with the bytes got, moves the offset by
  -- these, in 64 bits, and leaves nothing.
  pub next_record-short_header :
      0 < length (contents r.inner)
      → length (contents r.inner) < 24
      → (r' : RecordReader) × (next_record binrw r
          ≡ (err (truncated_header r.offset (length (contents r.inner))), r'))
        × (r'.offset ≡ (r.offset + length (contents r.inner)) % 2 ^ 64)
        × (contents r'.inner ≡ [])
  unfolding next_record
  next_record-short_header h k =
      let (c1, s1) = after-contents 24 r.inner s in
      (
        moved r 24 (length (contents r.inner)),
        start_record-short binrw r.offset r s h k,
        refl,
        c1 ∙ drop_all (contents r.inner) 24 (omega arith),
      )

  -- From a reader over a steady source with at least a header's bytes, where the header has the
  -- right magic, version and at least its own length, and the source has fewer bytes than the
  -- header says: `next_record` reports a truncated payload at the reader's offset, with the bytes
  -- wanted and got, and the offset moves by the bytes read, in 64 bits.
  pub next_record-short_payload :
      24 ≤ length (contents r.inner)
      → HasHead (contents r.inner)
      → length (contents r.inner) < (header_at (contents r.inner)).len
      → (r' : RecordReader) × (next_record binrw r ≡ (
        err (
            truncated_payload r.offset
              ((header_at (contents r.inner)).len - 24)
              (length (contents r.inner) - 24)),
        r',
      ))
        × (r'.offset ≡ (r.offset + length (contents r.inner)) % 2 ^ 64)
  next_record-short_payload long head short =
      let (c1, s1) = after-contents 24 r.inner s in
      let left = length-drop 24 (contents r.inner) in
      let size = ap length c1 in
      let got : length (contents (after 24 r.inner)) ≡ length (contents r.inner) - 24 =
        omega arith in
      let step =
        next_payload-short binrw r.offset (take 24 (contents r.inner))
          (header_at (contents r.inner)).len (filled r 24) s1 (omega arith) in
      (
        _,
        next_record-head long head ∙ rw got at step,
        ap (λ k. (r.offset + k) % 2 ^ 64) (omega arith),
      )
