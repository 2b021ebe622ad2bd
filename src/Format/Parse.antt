-- ===== src/Format/Parse.antt =====
-- tracing/nvme-trace/src/lib.rs, lines 350 to 386 and 509 to 592: parsing one record.
use gds_traces.Base.{ℕ, ◌-◌, List, ◌==◌, leb, if◌then◌else◌, length, take, drop, slice}
use gds_traces.Base.Outcome.{Result, ok, err, ◌>>=◌, ◌>>◌, require, map_err}
use gds_traces.Format.Types.{
  TraceError, parse, truncated_header, invalid_magic, unsupported_version, unknown_type,
  invalid_length, Header, SubmitRecord, CompleteRecord, TraceRecord, submit, complete, RawRecord,
  submit_into_record, complete_into_record, into_tail, expected_tail_len, nvme_trace_magic,
  nvme_trace_version, nvme_trace_submit, nvme_trace_complete, header_len, submit_fixed_len,
  complete_len,
}
use gds_traces.Format.Readers.{
  Cursor, Binrw, read_header, read_submit_fixed, read_submit_tail, read_complete_payload,
}

-- `read_bin` and `read_bin_args`: a fresh cursor over `bytes`; what is left is dropped.
unfoldable pub read_bin : {E A : Type 0} → Cursor E A → List ℕ → ℕ → Result (TraceError E) A
read_bin r bytes offset =
    map_err (parse offset) (elim (r bytes) [ ok (a, rest) ↦ ok a | err e ↦ err e ])

module _ {E : Type 0} (binrw : Binrw E) where
  unfoldable pub parse_header : List ℕ → ℕ → Result (TraceError E) Header
  parse_header bytes offset = do
    header ← read_bin (read_header binrw) bytes offset
    require (header.magic == nvme_trace_magic) (invalid_magic offset header.magic)
    require (header.version == nvme_trace_version) (unsupported_version offset header.version)
    ok header

  unfoldable pub parse_submit : Header → List ℕ → ℕ → Result (TraceError E) SubmitRecord
  parse_submit header bytes offset = do
    require (leb submit_fixed_len (length bytes)) (
        invalid_length offset header.record_type (length bytes)
          "submit record is smaller than the fixed struct")
    fixed ←
        read_bin (read_submit_fixed binrw) (slice bytes header_len (submit_fixed_len - header_len))
          offset
    require (length bytes - submit_fixed_len == expected_tail_len fixed) (
        invalid_length offset header.record_type (length bytes)
          "submit tail length does not match nr_entries")
    tail ←
        read_bin (read_submit_tail binrw fixed.use_sgl fixed.nr_entries)
          (drop submit_fixed_len bytes) offset
    ok (submit_into_record fixed header (into_tail tail fixed.use_sgl))

  unfoldable pub parse_complete : Header → List ℕ → ℕ → Result (TraceError E) CompleteRecord
  parse_complete header bytes offset = do
    require (length bytes == complete_len) (
        invalid_length offset header.record_type (length bytes)
          "completion record must be exactly the fixed struct size")
    payload ← read_bin (read_complete_payload binrw) (drop header_len bytes) offset
    ok (complete_into_record payload header)

  -- The `match` on the record's type.
  unfoldable pub parse_body : Header → List ℕ → ℕ → Result (TraceError E) TraceRecord
  parse_body header bytes offset =
      if header.record_type == nvme_trace_submit
      then (do ok (submit (← parse_submit header bytes offset)))
      else if header.record_type == nvme_trace_complete
      then (do ok (complete (← parse_complete header bytes offset)))
      else err (unknown_type offset header.record_type)

  unfoldable pub parse_record_bytes : List ℕ → ℕ → Result (TraceError E) RawRecord
  parse_record_bytes bytes offset = do
    require (leb header_len (length bytes)) (truncated_header offset (length bytes))
    header ← parse_header (take header_len bytes) offset
    require (header.len == length bytes) (
        invalid_length offset header.record_type header.len
          "header length does not match byte slice length")
    body ← parse_body header bytes offset
    ok (record { header = header; trace_record = body; bytes = bytes; offset = offset })
