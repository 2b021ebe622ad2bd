-- ===== src/Format/Types.antt =====
-- tracing/nvme-trace/src/lib.rs, lines 9 to 295: constants, errors and records of the trace format.
use gds_traces.Base.{ℕ, ◌*◌, Bool, List, String, if◌then◌else◌, length}

abbrev pub nvme_trace_magic : ℕ
nvme_trace_magic = 0x4e56_4d45

abbrev pub nvme_trace_version : ℕ
nvme_trace_version = 1

abbrev pub nvme_trace_submit : ℕ
nvme_trace_submit = 0

abbrev pub nvme_trace_complete : ℕ
nvme_trace_complete = 1

abbrev pub header_len : ℕ
header_len = 24

abbrev pub submit_fixed_len : ℕ
submit_fixed_len = 100

abbrev pub complete_len : ℕ
complete_len = 40

abbrev pub sqe_len : ℕ
sqe_len = 64

abbrev pub prp_entry_len : ℕ
prp_entry_len = 8

abbrev pub sgl_desc_len : ℕ
sgl_desc_len = 16

-- The kinds of `std::io::Error` that the program tells apart.
pub data IoError : Type 0 where
  interrupted would_block : IoError
  other : ℕ → IoError

-- `E` is the error type of the binary reader.
pub data TraceError (E : Type 0) : Type 0 where
  io : IoError → TraceError E
  parse : ℕ → E → TraceError E
  truncated_header : ℕ → ℕ → TraceError E
  truncated_payload : ℕ → ℕ → ℕ → TraceError E
  invalid_magic : ℕ → ℕ → TraceError E
  unsupported_version : ℕ → ℕ → TraceError E
  unknown_type : ℕ → ℕ → TraceError E
  invalid_length : ℕ → ℕ → ℕ → String → TraceError E

pub record Header : Type 0 where
  pub magic : ℕ
  pub version : ℕ
  pub record_type : ℕ
  pub len : ℕ
  pub timestamp_ns : ℕ
  pub seq : ℕ
  pub ctrl_id : ℕ
  pub qid : ℕ
  pub cid : ℕ

pub record SglDesc : Type 0 where
  pub addr : ℕ
  pub length : ℕ
  pub reserved : List ℕ
  pub desc_type : ℕ

pub data SubmitTail : Type 0 where
  prp : List ℕ → SubmitTail
  sgl : List SglDesc → SubmitTail

abbrev pub tail_len : SubmitTail → ℕ
tail_len (prp entries) = length entries
tail_len (sgl entries) = length entries

pub record SubmitRecord : Type 0 where
  pub header : Header
  pub sqe : List ℕ
  pub data_len : ℕ
  pub meta_len : ℕ
  pub use_sgl : Bool
  pub single_segment : Bool
  pub nr_entries : ℕ
  pub tail : SubmitTail

pub record CompleteRecord : Type 0 where
  pub header : Header
  pub result : ℕ
  pub sq_head : ℕ
  pub sq_id : ℕ
  pub status : ℕ
  pub retries : ℕ

pub data TraceRecord : Type 0 where
  submit : SubmitRecord → TraceRecord
  complete : CompleteRecord → TraceRecord

abbrev pub record_header : TraceRecord → Header
record_header (submit r) = r.header
record_header (complete r) = r.header

pub record RawRecord : Type 0 where
  pub header : Header
  pub trace_record : TraceRecord
  pub bytes : List ℕ
  pub offset : ℕ

pub record SubmitFixed : Type 0 where
  pub sqe : List ℕ
  pub data_len : ℕ
  pub meta_len : ℕ
  pub use_sgl : Bool
  pub single_segment : Bool
  pub nr_entries : ℕ

abbrev pub entry_len : SubmitFixed → ℕ
entry_len f = if f.use_sgl then sgl_desc_len else prp_entry_len

abbrev pub expected_tail_len : SubmitFixed → ℕ
expected_tail_len f = f.nr_entries * entry_len f

abbrev pub submit_into_record : SubmitFixed → Header → SubmitTail → SubmitRecord
submit_into_record f h t = record {
  header = h;
  sqe = f.sqe;
  data_len = f.data_len;
  meta_len = f.meta_len;
  use_sgl = f.use_sgl;
  single_segment = f.single_segment;
  nr_entries = f.nr_entries;
  tail = t;
}

pub record SubmitTailPayload : Type 0 where
  pub prp_entries : List ℕ
  pub sgl_entries : List SglDesc

abbrev pub into_tail : SubmitTailPayload → Bool → SubmitTail
into_tail p use_sgl = if use_sgl then sgl p.sgl_entries else prp p.prp_entries

pub record CompletePayload : Type 0 where
  pub result : ℕ
  pub sq_head : ℕ
  pub sq_id : ℕ
  pub status : ℕ
  pub retries : ℕ
  pub reserved : ℕ

abbrev pub complete_into_record : CompletePayload → Header → CompleteRecord
complete_into_record p h = record {
  header = h;
  result = p.result;
  sq_head = p.sq_head;
  sq_id = p.sq_id;
  status = p.status;
  retries = p.retries;
}
