-- ===== src/Format/Accept.antt =====
-- tracing/nvme-trace/src/lib.rs, lines 350 to 386: the bytes that are a record, and the record
-- that they are.
use gds_traces.Format.Types.{
  CompleteRecord, RawRecord, SubmitFixed, SubmitRecord, TraceRecord, complete, complete_into_record,
  complete_len, expected_tail_len, into_tail, invalid_magic, nvme_trace_complete, nvme_trace_magic,
  nvme_trace_submit, nvme_trace_version, submit, submit_into_record, unsupported_version,
}
use gds_traces.Base.Outcome.{>>=-ok-parts, ◌>>◌, ok, require}
use gds_traces.Format.Parse.{
  parse_body, parse_record_bytes, parse_complete, parse_submit, parse_header, read_bin,
}
use gds_traces.Format.Layout.{
  read_complete_payload-at, read_submit_fixed-at, read_submit_tail-at, read_header-header_at,
  submit_tail_at, complete_payload_at, Consumes, submit_fixed_at, header_at,
}
use gds_traces.Base.{
  ==→eq, Bool-cases, inl, inr, leb, leb→le, ne→==, subst, Bool, eq→==, if◌then◌else◌, length-drop,
  length-take, le→leb, ◌*◌, slice-take, arith, ◌==◌, drop, ◌-◌, slice, length, ◌≤◌, take, List, ℕ,
  ◌≡◌,
}
use gds_traces.Format.Readers.{
  read_complete_payload, read_submit_fixed, read_submit_tail, Cursor, Binrw,
}

-- The record that well-formed bytes stand for, each field read at its position.
unfoldable pub fixed_of : List ℕ → SubmitFixed
fixed_of bytes = submit_fixed_at (slice bytes 24 76)

unfoldable pub submit_of : List ℕ → SubmitRecord
submit_of bytes =
    let fixed = fixed_of bytes in
    submit_into_record fixed (header_at bytes)
      (into_tail (submit_tail_at fixed.use_sgl fixed.nr_entries (drop 100 bytes)) fixed.use_sgl)

unfoldable pub complete_of : List ℕ → CompleteRecord
complete_of bytes = complete_into_record (complete_payload_at (drop 24 bytes)) (header_at bytes)

abbrev pub HasSubmitShape : List ℕ → Type 0
HasSubmitShape bytes =
    (100 ≤ length bytes) × (length bytes - 100 ≡ expected_tail_len (fixed_of bytes))

abbrev pub raw : List ℕ → ℕ → TraceRecord → RawRecord
raw bytes offset r = record {
  header = header_at bytes;
  trace_record = r;
  bytes = bytes;
  offset = offset;
}

-- The bytes are one record, and `r` is it.
pub data IsRecord (bytes : List ℕ) : TraceRecord → Type 0 where
  is_submit :
      (header_at bytes).record_type ≡ nvme_trace_submit
      → HasSubmitShape bytes
      → IsRecord bytes (submit (submit_of bytes))
  is_complete :
      (header_at bytes).record_type ≡ nvme_trace_complete
      → length bytes ≡ complete_len
      → IsRecord bytes (complete (complete_of bytes))

abbrev pub HasFrame : List ℕ → Type 0
HasFrame bytes =
    (24 ≤ length bytes)
    × ((header_at bytes).magic ≡ nvme_trace_magic)
    × ((header_at bytes).version ≡ nvme_trace_version)
    × ((header_at bytes).len ≡ length bytes)

read_bin-Consumes :
    {E A : Type 0} (w : ℕ) (r : Cursor E A) (value : List ℕ → A) (bytes : List ℕ) (offset : ℕ)
    → Consumes w r value
    → w ≤ length bytes
    → read_bin r bytes offset ≡ ok (value bytes)
unfolding read_bin
read_bin-Consumes w r value bytes offset c h = rw (c bytes h)

pub header_at-take : (bytes : List ℕ) → header_at (take 24 bytes) ≡ header_at bytes
unfolding header_at
header_at-take bytes = simp (
  slice-take 24 bytes 0 4 (omega arith),
  slice-take 24 bytes 4 1 (omega arith),
  slice-take 24 bytes 5 1 (omega arith),
  slice-take 24 bytes 6 2 (omega arith),
  slice-take 24 bytes 8 8 (omega arith),
  slice-take 24 bytes 16 4 (omega arith),
  slice-take 24 bytes 20 1 (omega arith),
  slice-take 24 bytes 21 1 (omega arith),
  slice-take 24 bytes 22 2 (omega arith),
)

module _ {E : Type 0} (binrw : Binrw E) where
  pub parse_header-eq :
      (bytes : List ℕ) (offset : ℕ)
      → 24 ≤ length bytes
      → parse_header binrw bytes offset ≡ (do
        require
            ((header_at bytes).magic == nvme_trace_magic)
            (invalid_magic offset (header_at bytes).magic)
        require
            ((header_at bytes).version == nvme_trace_version)
            (unsupported_version offset (header_at bytes).version)
        ok (header_at bytes))
  unfolding parse_header
  parse_header-eq bytes offset h =
      rw (read_bin-Consumes 24 _ header_at bytes offset (read_header-header_at binrw) h)

  pub read_fixed :
      (bytes : List ℕ) (offset : ℕ)
      → 100 ≤ length bytes
      → read_bin (read_submit_fixed binrw) (slice bytes 24 76) offset ≡ ok (fixed_of bytes)
  unfolding fixed_of
  read_fixed bytes offset h =
      read_bin-Consumes 76 _ submit_fixed_at (slice bytes 24 76) offset (read_submit_fixed-at binrw)
        (omega (arith, length-take 76 (drop 24 bytes), length-drop 24 bytes))

  read_tail :
      (use_sgl : Bool) (n : ℕ) (bytes : List ℕ) (offset : ℕ)
      → n * (if use_sgl then 16 else 8) ≤ length bytes
      → read_bin (read_submit_tail binrw use_sgl n) bytes offset
        ≡ ok (submit_tail_at use_sgl n bytes)
  unfolding read_bin
  read_tail use_sgl n bytes offset h = rw (read_submit_tail-at binrw use_sgl n bytes h).1

  read_payload :
      (bytes : List ℕ) (offset : ℕ)
      → length bytes ≡ 40
      → read_bin (read_complete_payload binrw) (drop 24 bytes) offset
        ≡ ok (complete_payload_at (drop 24 bytes))
  read_payload bytes offset h =
      read_bin-Consumes 16 _ complete_payload_at (drop 24 bytes) offset
        (read_complete_payload-at binrw) (omega (arith, length-drop 24 bytes))

  pub parse_submit-ok :
      (bytes : List ℕ) (offset : ℕ)
      → HasSubmitShape bytes
      → parse_submit binrw (header_at bytes) bytes offset ≡ ok (submit_of bytes)
  unfolding parse_submit submit_of
  parse_submit-ok bytes offset (long, fits) =
      let f = fixed_of bytes in
      rw (le→leb 100 (length bytes) long) (
        rw (read_fixed bytes offset long) (
          rw (eq→== (length bytes - 100) (expected_tail_len f) fits) (
            rw (
              read_tail f.use_sgl f.nr_entries (drop 100 bytes) offset
                (omega (arith, length-drop 100 bytes))))))

  parse_submit-inv :
      (bytes : List ℕ) (offset : ℕ) (r : SubmitRecord)
      → parse_submit binrw (header_at bytes) bytes offset ≡ ok r
      → HasSubmitShape bytes
  unfolding parse_submit
  parse_submit-inv bytes offset r e = elim (Bool-cases (leb 100 (length bytes))) [
    | inr short ↦ cc (rw short at e)
    | inl enough ↦
        let long = leb→le 100 (length bytes) enough in
        let e' = rw (read_fixed bytes offset long) at (rw enough at e) in
        elim (Bool-cases (length bytes - 100 == expected_tail_len (fixed_of bytes))) [
          | inl fits ↦ (long, ==→eq _ _ fits)
          | inr wrong ↦ cc (rw wrong at e')
        ]
  ]

  pub parse_complete-ok :
      (bytes : List ℕ) (offset : ℕ)
      → length bytes ≡ 40
      → parse_complete binrw (header_at bytes) bytes offset ≡ ok (complete_of bytes)
  unfolding parse_complete complete_of
  parse_complete-ok bytes offset h =
      rw (eq→== (length bytes) 40 h) (rw (read_payload bytes offset h))

  parse_complete-inv :
      (bytes : List ℕ) (offset : ℕ) (r : CompleteRecord)
      → parse_complete binrw (header_at bytes) bytes offset ≡ ok r
      → length bytes ≡ 40
  unfolding parse_complete
  parse_complete-inv bytes offset r e = ground arith

  pub parse_body-ok :
      (bytes : List ℕ) (offset : ℕ) (r : TraceRecord)
      → IsRecord bytes r
      → parse_body binrw (header_at bytes) bytes offset ≡ ok r
  unfolding parse_body
  parse_body-ok bytes offset r (is_submit t shape) =
      rw (eq→== _ _ t) (rw (parse_submit-ok bytes offset shape))
  parse_body-ok bytes offset r (is_complete t shape) =
      let differs = ne→== (header_at bytes).record_type 0 (omega arith) in
      rw differs (rw (eq→== _ _ t) (rw (parse_complete-ok bytes offset shape)))

  parse_body-inv :
      (bytes : List ℕ) (offset : ℕ) (r : TraceRecord)
      → parse_body binrw (header_at bytes) bytes offset ≡ ok r
      → IsRecord bytes r
  unfolding parse_body
  parse_body-inv bytes offset r e = elim (Bool-cases ((header_at bytes).record_type == 0)) [
    | inl t ↦
        let (s, p, q) =
          >>=-ok-parts (parse_submit binrw (header_at bytes) bytes offset) _ (rw t at e) in
        let shape = parse_submit-inv bytes offset s p in
        let same = parse_submit-ok bytes offset shape in
        subst (IsRecord bytes) (cc) (is_submit (==→eq _ _ t) shape)
    | inr t ↦ elim (Bool-cases ((header_at bytes).record_type == 1)) [
      | inl u ↦
          let (c, p, q) =
            >>=-ok-parts (parse_complete binrw (header_at bytes) bytes offset) _
              (rw u at (rw t at e)) in
          let shape = parse_complete-inv bytes offset c p in
          let same = parse_complete-ok bytes offset shape in
          subst (IsRecord bytes) (cc) (is_complete (==→eq _ _ u) shape)
      | inr u ↦ cc (rw u at (rw t at e))
    ]
  ]

  pub parse_record_bytes_accepts :
      (bytes : List ℕ) (offset : ℕ) (r : TraceRecord)
      → HasFrame bytes
      → IsRecord bytes r
      → parse_record_bytes binrw bytes offset ≡ ok (raw bytes offset r)
  unfolding parse_record_bytes
  parse_record_bytes_accepts bytes offset r (long, magic, version, len) shape =
      rw (le→leb 24 (length bytes) long) (
        rw (parse_header-eq (take 24 bytes) offset (omega (arith, length-take 24 bytes))) (
          rw (header_at-take bytes) (
            rw (eq→== _ _ magic) (
              rw (eq→== _ _ version)
                (rw (eq→== _ _ len) (rw (parse_body-ok bytes offset r shape)))))))
