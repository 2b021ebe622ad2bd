-- ===== src/Ftrace/Values.antt =====
-- tracing/nvme-trace/src/ftrace.rs, lines 556 to 618: the header and the record of a completion,
-- as the reader of lib.rs sees them.
use gds_traces.Format.Types.{
  CompleteRecord, Header, complete, complete_len, nvme_trace_complete, nvme_trace_magic,
  nvme_trace_version,
}
use gds_traces.Ftrace.Encode.{CompleteValues, encode_header, write_complete}
use gds_traces.Format.Layout.{complete_payload_at, header_at}
use gds_traces.Base.Bytes.{from_le-le_bytes, le_bytes}
use gds_traces.Format.Accept.{HasFrame, IsRecord, complete_of, is_complete}
use native.Mathlib.Nat.{mod-eq_of_lt}
use gds_traces.Base.{
  List, ap, arith, drop, length, refl, subst, sym, ◌%◌, ◌++◌, ◌<◌, ◌^◌, ◌∙◌, ◌≡◌, ℕ,
}

-- The header that `encode_header` writes, as the reader sees it.
abbrev pub written_header : ℕ → ℕ → ℕ → ℕ → ℕ → ℕ → Header
written_header record_type len timestamp_ns ctrl_id qid cid = record {
  magic = nvme_trace_magic;
  version = nvme_trace_version;
  record_type = record_type;
  len = len;
  timestamp_ns = timestamp_ns;
  seq = 0;
  ctrl_id = ctrl_id;
  qid = qid;
  cid = cid;
}

pub header_at-encode_header :
    (record_type len ts ctrl_id qid cid : ℕ) (rest : List ℕ)
    → record_type < 256
    → len < 2 ^ 16
    → ts < 2 ^ 64
    → ctrl_id < 256
    → qid < 256
    → cid < 2 ^ 16
    → header_at (encode_header record_type len ts ctrl_id qid cid ++ rest)
      ≡ written_header record_type len ts ctrl_id qid cid
unfolding header_at encode_header le_bytes
header_at-encode_header record_type len ts ctrl_id qid cid rest ht hl hs hc hq hi = λ i. record {
  magic = from_le-le_bytes 4 nvme_trace_magic (omega arith) i;
  version = from_le-le_bytes 1 nvme_trace_version (omega arith) i;
  record_type = from_le-le_bytes 1 record_type (omega arith) i;
  len = (from_le-le_bytes 2 (len % 2 ^ 16) (omega arith) ∙ mod-eq_of_lt hl) i;
  timestamp_ns = from_le-le_bytes 8 ts (omega arith) i;
  seq = from_le-le_bytes 4 0 (omega arith) i;
  ctrl_id = from_le-le_bytes 1 ctrl_id (omega arith) i;
  qid = from_le-le_bytes 1 qid (omega arith) i;
  cid = from_le-le_bytes 2 cid (omega arith) i;
}

pub length-encode_header :
    (record_type len ts ctrl_id qid cid : ℕ)
    → length (encode_header record_type len ts ctrl_id qid cid) ≡ 24
unfolding encode_header le_bytes
length-encode_header record_type len ts ctrl_id qid cid = refl

-- The values fit the record's fields.
pub record AreCompleteValues (v : CompleteValues) : Type 0 where
  pub ctrl_id_fits : v.ctrl_id < 256
  pub qid_fits : v.qid < 256
  pub cid_fits : v.cid < 2 ^ 16
  pub result_fits : v.result < 2 ^ 64
  pub sq_head_fits : v.sq_head < 2 ^ 16
  pub sq_id_fits : v.sq_id < 2 ^ 16
  pub status_fits : v.status < 2 ^ 16
  pub retries_fits : v.retries < 256

abbrev pub complete_record : ℕ → CompleteValues → CompleteRecord
complete_record ts v = record {
  header = written_header nvme_trace_complete complete_len ts v.ctrl_id v.qid v.cid;
  result = v.result;
  sq_head = v.sq_head;
  sq_id = v.sq_id;
  status = v.status;
  retries = v.retries;
}

length-write_complete : (ts : ℕ) (v : CompleteValues) → length (write_complete ts v) ≡ 40
unfolding write_complete encode_header le_bytes
length-write_complete ts v = refl

header_at-write_complete :
    (ts : ℕ) (v : CompleteValues)
    → ts < 2 ^ 64
    → AreCompleteValues v
    → header_at (write_complete ts v) ≡ written_header 1 40 ts v.ctrl_id v.qid v.cid
unfolding write_complete
header_at-write_complete ts v h a =
    header_at-encode_header 1 40 ts v.ctrl_id v.qid v.cid _ (omega arith) (omega arith) h
      (a.ctrl_id_fits) (a.qid_fits) (a.cid_fits)

complete_payload_at-write_complete :
    (ts : ℕ) (v : CompleteValues)
    → AreCompleteValues v
    → complete_payload_at (drop 24 (write_complete ts v)) ≡ record {
      result = v.result;
      sq_head = v.sq_head;
      sq_id = v.sq_id;
      status = v.status;
      retries = v.retries;
      reserved = 0;
    }
unfolding write_complete encode_header le_bytes complete_payload_at
complete_payload_at-write_complete ts v a = λ i. record {
  result = from_le-le_bytes 8 v.result (omega arith) i;
  sq_head = from_le-le_bytes 2 v.sq_head (omega arith) i;
  sq_id = from_le-le_bytes 2 v.sq_id (omega arith) i;
  status = from_le-le_bytes 2 v.status (omega arith) i;
  retries = from_le-le_bytes 1 v.retries (omega arith) i;
  reserved = from_le-le_bytes 1 0 (omega arith) i;
}

-- Let the values of a completion fit their fields and the time 64 bits. Then the bytes written
-- have a record's frame and are the completion record with these values.
pub write_complete-IsRecord :
    (ts : ℕ) (v : CompleteValues)
    → ts < 2 ^ 64
    → AreCompleteValues v
    → HasFrame (write_complete ts v)
      × IsRecord (write_complete ts v) (complete (complete_record ts v))
unfolding complete_of
write_complete-IsRecord ts v h a =
    let head = header_at-write_complete ts v h a in
    let n = length-write_complete ts v in
    let body = complete_payload_at-write_complete ts v a in
    (
      (omega arith, ap (λ x. x.magic) head, ap (λ x. x.version) head, ap (λ x. x.len) head ∙ sym n),
      subst (λ (r : CompleteRecord). IsRecord (write_complete ts v) (complete r)) (cc)
          (is_complete (ap (λ x. x.record_type) head) n),
    )
