-- ===== src/Ftrace/Encode.antt =====
-- tracing/nvme-trace/src/ftrace.rs, lines 509 to 619: an event's data as a trace record.
use gds_traces.Ftrace.Formats.{CompleteFormat, SubmitFormat}
use gds_traces.Format.Readers.{to_bool}
use gds_traces.Base.Bytes.{from_le, le_bytes}
use gds_traces.Format.Types.{
  complete_len, nvme_trace_complete, nvme_trace_magic, nvme_trace_submit, nvme_trace_version,
  submit_fixed_len,
}
use gds_traces.Base.{
  Bool, List, Option, [], false, if◌then◌else◌, leb, length, ltb, none, slice, some, true, ◌%◌,
  ◌&&◌, ◌++◌, ◌+◌, ◌/◌, ◌^◌, ℕ,
}
use gds_traces.Ftrace.Run.{Run, done, end_within, index, range, ◌>>=◌}

-- The header that both encoders write; `seq` is 0.
unfoldable pub encode_header : ℕ → ℕ → ℕ → ℕ → ℕ → ℕ → List ℕ
encode_header record_type total_len timestamp_ns ctrl_id qid cid =
    le_bytes 4 nvme_trace_magic
    ++ (le_bytes 1 nvme_trace_version
        ++ (le_bytes 1 record_type
            ++ (le_bytes 2 (total_len % 2 ^ 16)
                ++ (le_bytes 8 timestamp_ns
                    ++ (le_bytes 4 0
                        ++ (le_bytes 1 ctrl_id ++ (le_bytes 1 qid ++ le_bytes 2 cid)))))))

-- The values that the encoder of a submission takes from the event.
pub record SubmitValues : Type 0 where
  pub ctrl_id : ℕ
  pub qid : ℕ
  pub cid : ℕ
  pub data_len : ℕ
  pub meta_len : ℕ
  pub use_sgl : Bool
  pub single_segment : Bool
  pub sqe : List ℕ
  pub descriptors : List ℕ

-- `u8::from(b)`
abbrev pub from_bool : Bool → ℕ
from_bool true = 1
from_bool false = 0

abbrev pub nr_entries_of : Bool → ℕ → ℕ
nr_entries_of use_sgl n = if use_sgl then n / 16 % 2 ^ 16 else n / 8 % 2 ^ 16

abbrev pub descriptors_of : List ℕ → ℕ → List ℕ
descriptors_of bytes dataloc =
    let desc_off = dataloc % 2 ^ 16 in
    let desc_len = dataloc / 2 ^ 16 in
    if ltb 0 desc_len && leb (desc_off + desc_len) (length bytes)
    then slice bytes desc_off desc_len
    else []

unfoldable pub submit_values : List ℕ → SubmitFormat → Run SubmitValues
submit_values bytes fmt = do
  ctrl_id ← range bytes fmt.ctrl_id 4
  qid ← range bytes fmt.qid 4
  cid ← range bytes fmt.cid 2
  data_len ← range bytes fmt.data_len 4
  meta_len ← range bytes fmt.meta_len 4
  use_sgl ← index bytes fmt.use_sgl
  single_segment ← index bytes fmt.single_segment
  sqe ← range bytes fmt.sqe 64
  dataloc ← range bytes fmt.descriptors_dataloc 4
  done (record {
    ctrl_id = from_le ctrl_id % 256;
    qid = from_le qid % 256;
    cid = from_le cid;
    data_len = from_le data_len;
    meta_len = from_le meta_len;
    use_sgl = to_bool use_sgl;
    single_segment = to_bool single_segment;
    sqe = sqe;
    descriptors = descriptors_of bytes (from_le dataloc);
  })

unfoldable pub write_submit : ℕ → SubmitValues → List ℕ
unfolding encode_header
write_submit timestamp_ns v =
    encode_header nvme_trace_submit (submit_fixed_len + length v.descriptors) timestamp_ns v.ctrl_id
      v.qid v.cid
    ++ (v.sqe
        ++ (le_bytes 4 v.data_len
            ++ (le_bytes 4 v.meta_len
                ++ (le_bytes 1 (from_bool v.use_sgl)
                    ++ (le_bytes 1 (from_bool v.single_segment)
                        ++ (le_bytes 2 (nr_entries_of v.use_sgl (length v.descriptors))
                            ++ v.descriptors))))))

unfoldable pub encode_submit : List ℕ → ℕ → SubmitFormat → Run (Option (List ℕ))
encode_submit bytes timestamp_ns fmt =
    if end_within fmt.descriptors_dataloc 4 (length bytes) && end_within fmt.sqe 64 (length bytes)
    then (do v ← submit_values bytes fmt; done (some (write_submit timestamp_ns v)))
    else done none

pub record CompleteValues : Type 0 where
  pub ctrl_id : ℕ
  pub qid : ℕ
  pub cid : ℕ
  pub result : ℕ
  pub sq_head : ℕ
  pub sq_id : ℕ
  pub status : ℕ
  pub retries : ℕ

unfoldable pub complete_values : List ℕ → CompleteFormat → Run CompleteValues
complete_values bytes fmt = do
  ctrl_id ← range bytes fmt.ctrl_id 4
  qid ← range bytes fmt.qid 4
  cid ← range bytes fmt.cid 2
  result ← range bytes fmt.result 8
  sq_head ← range bytes fmt.sq_head 2
  sq_id ← range bytes fmt.sq_id 2
  status ← range bytes fmt.status 2
  retries ← index bytes fmt.retries
  done (record {
    ctrl_id = from_le ctrl_id % 256;
    qid = from_le qid % 256;
    cid = from_le cid;
    result = from_le result;
    sq_head = from_le sq_head;
    sq_id = from_le sq_id;
    status = from_le status;
    retries = retries;
  })

unfoldable pub write_complete : ℕ → CompleteValues → List ℕ
unfolding encode_header
write_complete timestamp_ns v =
    encode_header nvme_trace_complete complete_len timestamp_ns v.ctrl_id v.qid v.cid
    ++ (le_bytes 8 v.result
        ++ (le_bytes 2 v.sq_head
            ++ (le_bytes 2 v.sq_id
                ++ (le_bytes 2 v.status ++ (le_bytes 1 v.retries ++ le_bytes 1 0)))))

unfoldable pub encode_complete : List ℕ → ℕ → CompleteFormat → Run (Option (List ℕ))
encode_complete bytes timestamp_ns fmt =
    if end_within fmt.retries 1 (length bytes)
    then (do v ← complete_values bytes fmt; done (some (write_complete timestamp_ns v)))
    else done none
