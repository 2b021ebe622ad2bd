-- ===== src/Ftrace/Formats.antt =====
-- tracing/nvme-trace/src/ftrace.rs, lines 37 to 80: page constants and the tables of field offsets.
use gds_traces.Base.{ℕ}

abbrev pub page_size : ℕ
page_size = 4096

abbrev pub page_data_offset : ℕ
page_data_offset = 16

abbrev pub ringbuf_type_time_extend : ℕ
ringbuf_type_time_extend = 29

abbrev pub ringbuf_type_time_stamp : ℕ
ringbuf_type_time_stamp = 30

abbrev pub ringbuf_type_padding : ℕ
ringbuf_type_padding = 31

pub record SubmitFormat : Type 0 where
  pub ctrl_id : ℕ
  pub qid : ℕ
  pub cid : ℕ
  pub data_len : ℕ
  pub meta_len : ℕ
  pub use_sgl : ℕ
  pub single_segment : ℕ
  pub sqe : ℕ
  pub descriptors_dataloc : ℕ

pub record CompleteFormat : Type 0 where
  pub ctrl_id : ℕ
  pub qid : ℕ
  pub cid : ℕ
  pub result : ℕ
  pub sq_head : ℕ
  pub sq_id : ℕ
  pub status : ℕ
  pub retries : ℕ
