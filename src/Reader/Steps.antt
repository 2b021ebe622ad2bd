-- ===== src/Reader/Steps.antt =====
-- tracing/nvme-trace/src/lib.rs, lines 306 to 347: the stages of `next_record` on a steady source.
use gds_traces.Format.Parse.{parse_record_bytes}
use gds_traces.Format.Layout.{header_at}
use gds_traces.Format.Readers.{Binrw}
use gds_traces.Format.Types.{
  RawRecord, nvme_trace_magic, nvme_trace_version, truncated_header, truncated_payload,
}
use gds_traces.Format.Accept.{parse_header-eq}
use gds_traces.Reader.Source.{
  IsSteady, Source, contents, read_exact_or_eof, read_exact_or_eof-Reads,
}
use gds_traces.Base.{
  [], arith, eq→==, length-take, le→ltb, ne→==, none, take_all, ◌<◌, ◌≤◌, List, drop, length, some,
  take, ◌%◌, ◌^◌, ◌++◌, ◌+◌, ◌-◌, ◌≡◌, ℕ,
}
use gds_traces.Base.Outcome.{ok, err}
use gds_traces.Reader.Records.{
  next_header, next_payload, short_header, start_record, RecordReader, ◌>>=◌,
}

-- The source behind a buffer of `n` bytes.
pub after : ℕ → Source → Source
after n source = (read_exact_or_eof n source).1

pub after-contents :
    (n : ℕ) (source : Source)
    → IsSteady source
    → (contents (after n source) ≡ drop n (contents source)) × IsSteady (after n source)
unfolding after
after-contents n source s = let (p, q, t) = read_exact_or_eof-Reads n source s in (q, t)

read_exact_or_eof-eq :
    (n : ℕ) (source : Source)
    → IsSteady source
    → read_exact_or_eof n source ≡ (ok (take n (contents source)), after n source)
unfolding after
read_exact_or_eof-eq n source s =
    let (p, q, t) = read_exact_or_eof-Reads n source s in λ i. (p i, (read_exact_or_eof n source).1)

abbrev pub moved : RecordReader → ℕ → ℕ → RecordReader
moved r n k = record { inner = after n r.inner; offset = (r.offset + k) % 2 ^ 64 }

abbrev pub filled : RecordReader → ℕ → RecordReader
filled r n = record { inner = after n r.inner; offset = r.offset }

module _ {E : Type 0} (binrw : Binrw E) where
  pub start_record-full :
      (offset : ℕ) (r : RecordReader)
      → IsSteady r.inner
      → 24 ≤ length (contents r.inner)
      → start_record binrw offset r
        ≡ next_header binrw offset (take 24 (contents r.inner)) (filled r 24)
  unfolding start_record after
  start_record-full offset r s h =
      let n = length-take 24 (contents r.inner) in
      let some_bytes = ne→== (length (take 24 (contents r.inner))) 0 (omega arith) in
      let all_bytes = eq→== (length (take 24 (contents r.inner))) 24 (omega arith) in
      rw (read_exact_or_eof-eq 24 r.inner s, ◌>>=◌) (rw some_bytes (rw all_bytes))

  pub start_record-end :
      (offset : ℕ) (r : RecordReader)
      → IsSteady r.inner
      → contents r.inner ≡ []
      → start_record binrw offset r ≡ (ok none, filled r 24)
  unfolding start_record after
  start_record-end offset r s h = rw (read_exact_or_eof-eq 24 r.inner s, ◌>>=◌) (rw h)

  pub start_record-short :
      (offset : ℕ) (r : RecordReader)
      → IsSteady r.inner
      → 0 < length (contents r.inner)
      → length (contents r.inner) < 24
      → start_record binrw offset r ≡ (
        err (truncated_header offset (length (contents r.inner))),
        moved r 24 (length (contents r.inner)),
      )
  unfolding start_record after short_header
  start_record-short offset r s h k =
      let t = take_all (contents r.inner) 24 (omega arith) in
      let some_bytes = ne→== (length (contents r.inner)) 0 (omega arith) in
      let not_all = ne→== (length (contents r.inner)) 24 (omega arith) in
      rw (read_exact_or_eof-eq 24 r.inner s, ◌>>=◌) (rw t (rw some_bytes (rw not_all)))

  pub next_header-ok :
      (offset : ℕ) (hb : List ℕ) (r : RecordReader)
      → 24 ≤ length hb
      → (header_at hb).magic ≡ nvme_trace_magic
      → (header_at hb).version ≡ nvme_trace_version
      → 24 ≤ (header_at hb).len
      → next_header binrw offset hb r ≡ next_payload binrw offset hb (header_at hb).len r
  unfolding next_header
  next_header-ok offset hb r long magic version len =
      rw (parse_header-eq binrw hb offset long)
        (rw (eq→== _ _ magic) (rw (eq→== _ _ version) (rw (le→ltb (header_at hb).len 24 len))))

  pub next_payload-full :
      (offset : ℕ) (hb : List ℕ) (len : ℕ) (r : RecordReader) (w : RawRecord)
      → IsSteady r.inner
      → len - 24 ≤ length (contents r.inner)
      → parse_record_bytes binrw (hb ++ take (len - 24) (contents r.inner)) offset ≡ ok w
      → next_payload binrw offset hb len r ≡ (ok (some w), moved r (len - 24) len)
  unfolding next_payload after
  next_payload-full offset hb len r w s h e =
      let n = length-take (len - 24) (contents r.inner) in
      let all_bytes =
        eq→== (length (take (len - 24) (contents r.inner))) (len - 24) (omega arith) in
      rw (read_exact_or_eof-eq (len - 24) r.inner s, ◌>>=◌) (rw all_bytes (rw (e, ◌>>=◌)))

  pub next_payload-short :
      (offset : ℕ) (hb : List ℕ) (len : ℕ) (r : RecordReader)
      → IsSteady r.inner
      → length (contents r.inner) < len - 24
      → next_payload binrw offset hb len r ≡ (
        err (truncated_payload offset (len - 24) (length (contents r.inner))),
        moved r (len - 24) (24 + length (contents r.inner)),
      )
  unfolding next_payload after
  next_payload-short offset hb len r s h =
      let t = take_all (contents r.inner) (len - 24) (omega arith) in
      let not_all = ne→== (length (contents r.inner)) (len - 24) (omega arith) in
      rw (read_exact_or_eof-eq (len - 24) r.inner s, ◌>>=◌) (rw t (rw not_all))
