-- ===== src/Ftrace/Safety.antt =====
-- tracing/nvme-trace/src/ftrace.rs, lines 509 to 619: the indices of the encoders, and the layouts
-- of the field tables.
use gds_traces.Base.Bytes.{from_le}
use gds_traces.Ftrace.Formats.{CompleteFormat, SubmitFormat}
use gds_traces.Format.Readers.{to_bool}
use gds_traces.Ftrace.Encode.{
  CompleteValues, SubmitValues, complete_values, descriptors_of, encode_complete, encode_submit,
  submit_values, write_complete, write_submit,
}
use gds_traces.Base.{
  Bool-cases, List, arith, get_or, if◌then◌else◌, inl, inr, length, none, slice, some, ◌%◌, ◌&&◌,
  ◌+◌, ◌≡◌, ◌≤◌, ℕ,
}
use gds_traces.Ftrace.Run.{done, end_within, end_within→le, index-done, range-done}

-- The `__data_loc` word ends behind every other field but the SQE.
pub record IsSubmitLayout (fmt : SubmitFormat) : Type 0 where
  pub ctrl_id_end : fmt.ctrl_id ≤ fmt.descriptors_dataloc
  pub qid_end : fmt.qid ≤ fmt.descriptors_dataloc
  pub cid_end : fmt.cid ≤ fmt.descriptors_dataloc + 2
  pub data_len_end : fmt.data_len ≤ fmt.descriptors_dataloc
  pub meta_len_end : fmt.meta_len ≤ fmt.descriptors_dataloc
  pub use_sgl_end : fmt.use_sgl ≤ fmt.descriptors_dataloc + 3
  pub single_segment_end : fmt.single_segment ≤ fmt.descriptors_dataloc + 3

-- `retries` is the last field.
pub record IsCompleteLayout (fmt : CompleteFormat) : Type 0 where
  pub ctrl_id_end : fmt.ctrl_id + 3 ≤ fmt.retries
  pub qid_end : fmt.qid + 3 ≤ fmt.retries
  pub cid_end : fmt.cid + 1 ≤ fmt.retries
  pub result_end : fmt.result + 7 ≤ fmt.retries
  pub sq_head_end : fmt.sq_head + 1 ≤ fmt.retries
  pub sq_id_end : fmt.sq_id + 1 ≤ fmt.retries
  pub status_end : fmt.status + 1 ≤ fmt.retries

-- The values of a submission, by position.
unfoldable pub submit_values_at : List ℕ → SubmitFormat → SubmitValues
submit_values_at bytes fmt = record {
  ctrl_id = from_le (slice bytes fmt.ctrl_id 4) % 256;
  qid = from_le (slice bytes fmt.qid 4) % 256;
  cid = from_le (slice bytes fmt.cid 2);
  data_len = from_le (slice bytes fmt.data_len 4);
  meta_len = from_le (slice bytes fmt.meta_len 4);
  use_sgl = to_bool (get_or bytes fmt.use_sgl 0);
  single_segment = to_bool (get_or bytes fmt.single_segment 0);
  sqe = slice bytes fmt.sqe 64;
  descriptors = descriptors_of bytes (from_le (slice bytes fmt.descriptors_dataloc 4));
}

unfoldable pub complete_values_at : List ℕ → CompleteFormat → CompleteValues
complete_values_at bytes fmt = record {
  ctrl_id = from_le (slice bytes fmt.ctrl_id 4) % 256;
  qid = from_le (slice bytes fmt.qid 4) % 256;
  cid = from_le (slice bytes fmt.cid 2);
  result = from_le (slice bytes fmt.result 8);
  sq_head = from_le (slice bytes fmt.sq_head 2);
  sq_id = from_le (slice bytes fmt.sq_id 2);
  status = from_le (slice bytes fmt.status 2);
  retries = get_or bytes fmt.retries 0;
}

submit_values-at :
    (bytes : List ℕ) (fmt : SubmitFormat)
    → IsSubmitLayout fmt
    → fmt.descriptors_dataloc + 4 ≤ length bytes
    → fmt.sqe + 64 ≤ length bytes
    → submit_values bytes fmt ≡ done (submit_values_at bytes fmt)
unfolding submit_values submit_values_at
submit_values-at bytes fmt l h k = rw (range-done bytes fmt.ctrl_id 4 (omega arith)) (
    rw (range-done bytes fmt.qid 4 (omega arith)) (
      rw (range-done bytes fmt.cid 2 (omega arith)) (
        rw (range-done bytes fmt.data_len 4 (omega arith)) (
          rw (range-done bytes fmt.meta_len 4 (omega arith)) (
            rw (index-done bytes fmt.use_sgl (omega arith)) (
              rw (index-done bytes fmt.single_segment (omega arith)) (
                rw (range-done bytes fmt.sqe 64 k)
                  (rw (range-done bytes fmt.descriptors_dataloc 4 h)))))))))

complete_values-at :
    (bytes : List ℕ) (fmt : CompleteFormat)
    → IsCompleteLayout fmt
    → fmt.retries + 1 ≤ length bytes
    → complete_values bytes fmt ≡ done (complete_values_at bytes fmt)
unfolding complete_values complete_values_at
complete_values-at bytes fmt l h = rw (range-done bytes fmt.ctrl_id 4 (omega arith)) (
    rw (range-done bytes fmt.qid 4 (omega arith)) (
      rw (range-done bytes fmt.cid 2 (omega arith)) (
        rw (range-done bytes fmt.result 8 (omega arith)) (
          rw (range-done bytes fmt.sq_head 2 (omega arith)) (
            rw (range-done bytes fmt.sq_id 2 (omega arith)) (
              rw (range-done bytes fmt.status 2 (omega arith))
                (rw (index-done bytes fmt.retries (omega arith)))))))))

-- With a field table of the documented layout, the encoder of submissions does not index out of
-- range: it writes the values at their places where the two checked fields lie within the event's
-- data, and nothing where one does not.
pub encode_submit-eq :
    (bytes : List ℕ) (ts : ℕ) (fmt : SubmitFormat)
    → IsSubmitLayout fmt
    → encode_submit bytes ts fmt
      ≡ done (
          if end_within fmt.descriptors_dataloc 4 (length bytes)
            && end_within fmt.sqe 64 (length bytes)
          then some (write_submit ts (submit_values_at bytes fmt))
          else none)
unfolding encode_submit
encode_submit-eq bytes ts fmt l =
    elim (Bool-cases (end_within fmt.descriptors_dataloc 4 (length bytes))) [
      | inr short ↦ rw short
      | inl loc ↦ elim (Bool-cases (end_within fmt.sqe 64 (length bytes))) [
        | inr short ↦ rw loc (rw short)
        | inl sqe ↦ rw loc (
            rw sqe (
              rw
                (submit_values-at bytes fmt l (end_within→le _ _ _ loc) (end_within→le _ _ _ sqe))))
      ]
    ]

-- With a field table of the documented layout, the encoder of completions does not index out of
-- range: it writes the values at their places where the last field lies within the event's data,
-- and nothing where it does not.
pub encode_complete-eq :
    (bytes : List ℕ) (ts : ℕ) (fmt : CompleteFormat)
    → IsCompleteLayout fmt
    → encode_complete bytes ts fmt
      ≡ done (
          if end_within fmt.retries 1 (length bytes)
          then some (write_complete ts (complete_values_at bytes fmt))
          else none)
unfolding encode_complete
encode_complete-eq bytes ts fmt l = elim (Bool-cases (end_within fmt.retries 1 (length bytes))) [
  | inr short ↦ rw short
  | inl last ↦ rw last (rw (complete_values-at bytes fmt l (end_within→le _ _ _ last)))
]
