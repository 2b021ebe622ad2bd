-- ===== src/Format/Reject.antt =====
-- tracing/nvme-trace/src/lib.rs, lines 350 to 386: the errors of `parse_record_bytes`.
use gds_traces.Format.Readers.{Binrw}
use gds_traces.Format.Parse.{parse_body, parse_complete, parse_record_bytes, parse_submit}
use gds_traces.Format.Accept.{
  HasFrame, IsRecord, header_at-take, is_complete, is_submit, parse_complete-ok, parse_header-eq,
  raw, HasSubmitShape, fixed_of, parse_submit-ok, read_fixed,
}
use gds_traces.Format.Layout.{header_at}
use gds_traces.Format.Types.{
  Header, RawRecord, TraceRecord, complete, submit, TraceError, complete_len, expected_tail_len,
  invalid_length, invalid_magic, nvme_trace_complete, nvme_trace_magic, nvme_trace_submit,
  nvme_trace_version, submit_fixed_len, truncated_header, unknown_type, unsupported_version,
}
use gds_traces.Base.{
  ==→ne, leb→lt, eq→==, length-take, le→leb, take, ==→eq, Bool-cases, List, arith, inl, inr, leb,
  leb→le, length, refl, ◌-◌, ◌<◌, ◌==◌, ◌≡◌, ◌≢◌, ◌≤◌, ◌⊎◌, ℕ,
}
use gds_traces.Base.Outcome.{◌>>=◌, ◌>>◌, require, Result, err, ok}

-- The first check that the bytes fail, and the error that reports it at `offset`.
pub data Explains {E : Type 0} (bytes : List ℕ) (offset : ℕ) : TraceError E → Type 0 where
  too_short : length bytes < 24 → Explains bytes offset (truncated_header offset (length bytes))
  bad_magic :
      24 ≤ length bytes
      → (header_at bytes).magic ≢ nvme_trace_magic
      → Explains bytes offset (invalid_magic offset (header_at bytes).magic)
  bad_version :
      (header_at bytes).magic ≡ nvme_trace_magic
      → (header_at bytes).version ≢ nvme_trace_version
      → Explains bytes offset (unsupported_version offset (header_at bytes).version)
  bad_len :
      (header_at bytes).version ≡ nvme_trace_version
      → (header_at bytes).len ≢ length bytes
      → Explains bytes offset (
          invalid_length offset
            (header_at bytes).record_type
            (header_at bytes).len
            "header length does not match byte slice length")
  bad_type :
      (header_at bytes).record_type ≢ nvme_trace_submit
      → (header_at bytes).record_type ≢ nvme_trace_complete
      → Explains bytes offset (unknown_type offset (header_at bytes).record_type)
  short_submit :
      (header_at bytes).record_type ≡ nvme_trace_submit
      → length bytes < submit_fixed_len
      → Explains bytes offset (
          invalid_length offset
            (header_at bytes).record_type
            (length bytes)
            "submit record is smaller than the fixed struct")
  bad_tail :
      (header_at bytes).record_type ≡ nvme_trace_submit
      → length bytes - submit_fixed_len ≢ expected_tail_len (fixed_of bytes)
      → Explains bytes offset (
          invalid_length offset
            (header_at bytes).record_type
            (length bytes)
            "submit tail length does not match nr_entries")
  bad_complete :
      (header_at bytes).record_type ≡ nvme_trace_complete
      → length bytes ≢ complete_len
      → Explains bytes offset (
          invalid_length offset
            (header_at bytes).record_type
            (length bytes)
            "completion record must be exactly the fixed struct size")

-- `m` succeeds with a value that `P` allows, or fails with an error that `Q` allows.
abbrev pub Decides {ℓ κ μ ν} :
    {E : Type μ} {A : Type ℓ} → (A → Type κ) → (E → Type ν) → Result E A → Type (ℓ ⊔ κ ⊔ μ ⊔ ν)
Decides {E = E} {A = A} P Q m = ((a : A) × (m ≡ ok a) × P a) ⊎ ((e : E) × (m ≡ err e) × Q e)

because :
    {E A : Type 0} {P : A → Type 0} {Q : E → Type 0} {m : Result E A} {e : E}
    → Q e
    → m ≡ err e
    → Decides P Q m
because q h = inr (_, h, q)

module _ {E : Type 0} (binrw : Binrw E) (bytes : List ℕ) (offset : ℕ) where
  abbrev Body : TraceError E → Type 0
  Body = Explains bytes offset

  submit_cases :
      (header_at bytes).record_type ≡ nvme_trace_submit
      → Decides
          (IsRecord bytes)
          Body
          (do ok (submit (← parse_submit binrw (header_at bytes) bytes offset)))
  submit_cases t = elim (Bool-cases (leb 100 (length bytes))) [
    | inr short ↦
        because (short_submit t (leb→lt 100 (length bytes) short)) (unfold parse_submit in rw short)
    | inl enough ↦
        let long = leb→le 100 (length bytes) enough in
        elim (Bool-cases (length bytes - 100 == expected_tail_len (fixed_of bytes))) [
          | inl fits ↦
              let shape : HasSubmitShape bytes = (long, ==→eq _ _ fits) in
              inl (_, rw (parse_submit-ok binrw bytes offset shape), is_submit t shape)
          | inr wrong ↦
              let read = read_fixed binrw bytes offset long in
              because (bad_tail t (==→ne _ _ wrong))
                (unfold parse_submit in rw enough (rw read (rw wrong)))
        ]
  ]

  complete_cases :
      (header_at bytes).record_type ≡ nvme_trace_complete
      → Decides
          (IsRecord bytes)
          Body
          (do ok (complete (← parse_complete binrw (header_at bytes) bytes offset)))
  complete_cases t = elim (Bool-cases (length bytes == 40)) [
    | inl fits ↦
        let shape = ==→eq (length bytes) 40 fits in
        inl (_, rw (parse_complete-ok binrw bytes offset shape), is_complete t shape)
    | inr wrong ↦
        because (bad_complete t (==→ne (length bytes) 40 wrong)) (unfold parse_complete in rw wrong)
  ]

  Body-cases : Decides (IsRecord bytes) Body (parse_body binrw (header_at bytes) bytes offset)
  unfolding parse_body
  Body-cases = elim (Bool-cases ((header_at bytes).record_type == 0)) [
    | inl t ↦ rw t (submit_cases (==→eq _ _ t))
    | inr t ↦ elim (Bool-cases ((header_at bytes).record_type == 1)) [
      | inl u ↦ rw t (rw u (complete_cases (==→eq _ _ u)))
      | inr u ↦ inr (_, rw t (rw u), bad_type (==→ne _ _ t) (==→ne _ _ u))
    ]
  ]

  abbrev framed : Header → Result (TraceError E) RawRecord
  framed header = do
    require (header.len == length bytes) (
        invalid_length offset header.record_type header.len
          "header length does not match byte slice length")
    body ← parse_body binrw header bytes offset
    ok (record { header = header; trace_record = body; bytes = bytes; offset = offset })

  parse_record_bytes-framed :
      24 ≤ length bytes
      → (header_at bytes).magic ≡ nvme_trace_magic
      → (header_at bytes).version ≡ nvme_trace_version
      → parse_record_bytes binrw bytes offset ≡ framed (header_at bytes)
  unfolding parse_record_bytes
  parse_record_bytes-framed long magic version = rw (le→leb 24 (length bytes) long) (
      rw (parse_header-eq binrw (take 24 bytes) offset (omega (arith, length-take 24 bytes)))
        (rw (header_at-take bytes) (rw (eq→== _ _ magic) (rw (eq→== _ _ version)))))

  abbrev IsRaw : RawRecord → Type 0
  IsRaw x = (r : TraceRecord) × (x ≡ raw bytes offset r) × HasFrame bytes × IsRecord bytes r

  framed_cases :
      24 ≤ length bytes
      → (header_at bytes).magic ≡ nvme_trace_magic
      → (header_at bytes).version ≡ nvme_trace_version
      → Decides IsRaw Body (framed (header_at bytes))
  framed_cases long magic version = elim (Bool-cases ((header_at bytes).len == length bytes)) [
    | inr wrong ↦ inr (_, rw wrong, bad_len version (==→ne _ _ wrong))
    | inl fits ↦ elim Body-cases [
      | inl (r, e, shape) ↦ inl (
        raw bytes offset r,
        rw fits (rw e),
        (r, refl, (long, magic, version, ==→eq _ _ fits), shape),
      )
      | inr (x, e, why) ↦ inr (x, rw fits (rw e), why)
    ]
  ]

  -- For any bytes and any offset, `parse_record_bytes` either returns the raw record of these
  -- bytes, and then they have a record's frame and are the record returned, or it returns an error
  -- that reports, at the given offset, a check that they do fail. It never returns a read error.
  pub parse_record_bytes-Decides : Decides IsRaw Body (parse_record_bytes binrw bytes offset)
  parse_record_bytes-Decides = elim (Bool-cases (leb 24 (length bytes))) [
    | inr short ↦
        because (too_short (leb→lt 24 (length bytes) short)) (unfold parse_record_bytes in rw short)
    | inl enough ↦
        let long = leb→le 24 (length bytes) enough in
        let head =
          parse_header-eq binrw (take 24 bytes) offset (omega (arith, length-take 24 bytes)) in
        elim (Bool-cases ((header_at bytes).magic == nvme_trace_magic)) [
          | inr wrong ↦ because (bad_magic long (==→ne _ _ wrong)) (
              unfold parse_record_bytes in
              rw enough (rw head (rw (header_at-take bytes) (rw wrong))))
          | inl magic ↦ elim (Bool-cases ((header_at bytes).version == nvme_trace_version)) [
            | inr wrong ↦ because (bad_version (==→eq _ _ magic) (==→ne _ _ wrong)) (
                unfold parse_record_bytes in
                rw enough (rw head (rw (header_at-take bytes) (rw magic (rw wrong)))))
            | inl version ↦
                rw (parse_record_bytes-framed long (==→eq _ _ magic) (==→eq _ _ version))
                  (framed_cases long (==→eq _ _ magic) (==→eq _ _ version))
          ]
        ]
  ]
