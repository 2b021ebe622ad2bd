-- ===== src/Ftrace/Submit.antt =====
-- tracing/nvme-trace/src/ftrace.rs, lines 547 to 578: the record of a submission, as the reader of
-- lib.rs sees it.
use gds_traces.Format.Readers.{to_bool}
use gds_traces.Format.Accept.{
  HasFrame, HasSubmitShape, IsRecord, fixed_of, is_complete, is_submit, submit_of,
}
use gds_traces.Format.Layout.{bytes_at-take, le_at, submit_fixed_at, submit_tail_at, header_at}
use gds_traces.Base.Bytes.{from_le, from_le-le_bytes, le_bytes}
use gds_traces.Ftrace.Values.{header_at-encode_header, length-encode_header, written_header}
use gds_traces.Ftrace.Encode.{SubmitValues, encode_header, from_bool, nr_entries_of, write_submit}
use gds_traces.Format.Types.{
  SubmitFixed, SubmitRecord, TraceRecord, into_tail, prp_entry_len, sgl_desc_len, submit,
  submit_into_record, nvme_trace_submit, submit_fixed_len,
}
use gds_traces.Base.{
  ap, false, refl, subst, take-append_length, true, ◌*◌, ◌≢◌, Bool, List, arith, drop,
  drop-append_length, drop-drop, if◌then◌else◌, length, length-append, slice, sym, take,
  take-append_behind, ◌%◌, ◌++◌, ◌+◌, ◌<◌, ◌^◌, ◌∙◌, ◌≡◌, ℕ,
}

-- The values fit the record's fields, and the whole record its 16-bit length.
pub record AreSubmitValues (v : SubmitValues) : Type 0 where
  pub ctrl_id_fits : v.ctrl_id < 256
  pub qid_fits : v.qid < 256
  pub cid_fits : v.cid < 2 ^ 16
  pub data_len_fits : v.data_len < 2 ^ 32
  pub meta_len_fits : v.meta_len < 2 ^ 32
  pub sqe_fits : length v.sqe ≡ 64
  pub descriptors_fit : 100 + length v.descriptors < 2 ^ 16

abbrev pub entry_size : Bool → ℕ
entry_size use_sgl = if use_sgl then 16 else 8

-- The descriptors are whole entries.
abbrev pub AreWhole : SubmitValues → Type 0
AreWhole v = length v.descriptors % entry_size v.use_sgl ≡ 0

-- What stands behind the SQE.
abbrev behind_sqe : SubmitValues → List ℕ
behind_sqe v =
    le_bytes 4 v.data_len
    ++ (le_bytes 4 v.meta_len
        ++ (le_bytes 1 (from_bool v.use_sgl)
            ++ (le_bytes 1 (from_bool v.single_segment)
                ++ (le_bytes 2 (nr_entries_of v.use_sgl (length v.descriptors)) ++ v.descriptors))))

module _ (ts : ℕ) (v : SubmitValues) (ts_fits : ts < 2 ^ 64) (a : AreSubmitValues v) where
  abbrev written : List ℕ
  written = write_submit ts v

  length-behind : length (behind_sqe v) ≡ 12 + length v.descriptors
  unfolding le_bytes
  length-behind = omega arith

  header_at-write_submit :
      header_at written ≡ written_header 0 (100 + length v.descriptors) ts v.ctrl_id v.qid v.cid
  unfolding write_submit
  header_at-write_submit =
      header_at-encode_header 0 (100 + length v.descriptors) ts v.ctrl_id v.qid v.cid _
        (omega arith) a.descriptors_fit ts_fits a.ctrl_id_fits a.qid_fits a.cid_fits

  drop-write_submit : drop 24 written ≡ v.sqe ++ behind_sqe v
  unfolding write_submit
  drop-write_submit = drop-append_length 24 _ _ (length-encode_header _ _ _ _ _ _)

  length-write_submit : length written ≡ 100 + length v.descriptors
  unfolding write_submit
  length-write_submit = omega (
    arith,
    length-append
        (encode_header nvme_trace_submit (submit_fixed_len + length v.descriptors) ts v.ctrl_id
          v.qid v.cid)
        (v.sqe ++ behind_sqe v),
    length-encode_header nvme_trace_submit (submit_fixed_len + length v.descriptors) ts v.ctrl_id
        v.qid v.cid,
    length-append v.sqe (behind_sqe v),
    length-behind,
    a.sqe_fits,
  )

  tail-write_submit : drop 100 written ≡ v.descriptors
  unfolding le_bytes
  tail-write_submit =
      sym (drop-drop 76 24 written)
      ∙ rw drop-write_submit
          (take-append_behind v.sqe (behind_sqe v) 76 12 (omega (arith, a.sqe_fits))).1

  fixed-write_submit : slice written 24 76 ≡ v.sqe ++ take 12 (behind_sqe v)
  fixed-write_submit =
      rw drop-write_submit
        (take-append_behind v.sqe (behind_sqe v) 76 12 (omega (arith, a.sqe_fits))).0

  abbrev Z : List ℕ
  Z = take 12 (behind_sqe v)

  after_sqe : (n j : ℕ) → 64 + j ≡ n → drop n (v.sqe ++ Z) ≡ drop j Z
  after_sqe n j e = (take-append_behind v.sqe Z n j (omega (arith, a.sqe_fits))).1

  field_behind : (k n j : ℕ) → 64 + j ≡ n → le_at k n (v.sqe ++ Z) ≡ from_le (slice Z j k)
  field_behind k n j e = ap (λ d. from_le (take k d)) (after_sqe n j e)

  -- What the reader finds in the fixed part.
  abbrev fixed_written : SubmitFixed
  fixed_written = record {
    sqe = v.sqe;
    data_len = v.data_len;
    meta_len = v.meta_len;
    use_sgl = v.use_sgl;
    single_segment = v.single_segment;
    nr_entries = nr_entries_of v.use_sgl (length v.descriptors);
  }

  to_bool-from_bool : (b : Bool) → to_bool (from_bool b) ≡ b
  to_bool-from_bool true = refl
  to_bool-from_bool false = refl

  from_bool-lt : (b : Bool) → from_bool b < 256
  from_bool-lt true = omega arith
  from_bool-lt false = omega arith

  nr_entries_of-lt : (b : Bool) (n : ℕ) → nr_entries_of b n < 2 ^ 16
  nr_entries_of-lt true n = omega arith
  nr_entries_of-lt false n = omega arith

  fixed_of-write_submit : fixed_of written ≡ fixed_written
  unfolding fixed_of submit_fixed_at le_bytes
  fixed_of-write_submit = ap submit_fixed_at fixed-write_submit ∙ λ i. record {
    sqe =
        (bytes_at-take 64 (v.sqe ++ Z) (omega (arith, length-append v.sqe Z, a.sqe_fits))
            ∙ take-append_length 64 v.sqe Z a.sqe_fits)
          i;
    data_len =
        (field_behind 4 64 0 (omega arith)
            ∙ from_le-le_bytes 4 v.data_len (omega (arith, a.data_len_fits)))
          i;
    meta_len =
        (field_behind 4 68 4 (omega arith)
            ∙ from_le-le_bytes 4 v.meta_len (omega (arith, a.meta_len_fits)))
          i;
    use_sgl =
        (ap to_bool (
              field_behind 1 72 8 (omega arith)
              ∙ from_le-le_bytes 1 (from_bool v.use_sgl) (omega (arith, from_bool-lt v.use_sgl)))
            ∙ to_bool-from_bool v.use_sgl)
          i;
    single_segment =
        (ap to_bool (
              field_behind 1 73 9 (omega arith)
              ∙ from_le-le_bytes 1 (from_bool v.single_segment)
                  (omega (arith, from_bool-lt v.single_segment)))
            ∙ to_bool-from_bool v.single_segment)
          i;
    nr_entries =
        (field_behind 2 74 10 (omega arith)
            ∙ from_le-le_bytes 2 (nr_entries_of v.use_sgl (length v.descriptors))
                (omega (arith, nr_entries_of-lt v.use_sgl (length v.descriptors))))
          i;
  }

  entries_whole :
      (b : Bool) (n : ℕ)
      → 100 + n < 2 ^ 16
      → n % entry_size b ≡ 0
      → n ≡ nr_entries_of b n * (if b then sgl_desc_len else prp_entry_len)
  entries_whole true n h w = omega arith
  entries_whole false n h w = omega arith

  entries_cut :
      (b : Bool) (n : ℕ)
      → n % entry_size b ≢ 0
      → n ≢ nr_entries_of b n * (if b then sgl_desc_len else prp_entry_len)
  entries_cut true n w = omega arith
  entries_cut false n w = omega arith

  pub submit_record : SubmitRecord
  submit_record =
      let n = length v.descriptors in
      submit_into_record fixed_written (written_header 0 (100 + n) ts v.ctrl_id v.qid v.cid)
        (into_tail (submit_tail_at v.use_sgl (nr_entries_of v.use_sgl n) v.descriptors) v.use_sgl)

  HasFrame-write_submit : HasFrame written
  HasFrame-write_submit =
      let head = header_at-write_submit in
      let n = length-write_submit in
      (omega arith, ap (λ x. x.magic) head, ap (λ x. x.version) head, ap (λ x. x.len) head ∙ sym n)

  -- Let the values of a submission fit their fields, the time 64 bits and the whole record its
  -- 16-bit length. Where the descriptors are whole entries, the bytes written have a record's
  -- frame and are the submission record with these values.
  pub write_submit-IsRecord :
      AreWhole v → HasFrame written × IsRecord written (submit submit_record)
  unfolding submit_of submit_record
  write_submit-IsRecord whole =
      let head = header_at-write_submit in
      let n = length-write_submit in
      let fixed = fixed_of-write_submit in
      let tail = tail-write_submit in
      let w = entries_whole v.use_sgl (length v.descriptors) a.descriptors_fit whole in
      let shape : HasSubmitShape written = (omega arith, rw fixed (omega arith)) in
      let same : submit_of written ≡ submit_record = rw fixed (rw head (rw tail)) in
      (
        HasFrame-write_submit,
        subst (λ (r : SubmitRecord). IsRecord written (submit r)) same
            (is_submit (ap (λ x. x.record_type) head) shape),
      )

  -- Let the values of a submission fit their fields, the time 64 bits and the whole record its
  -- 16-bit length. Where the descriptors are not whole entries, the bytes written are no record.
  pub write_submit_rejected : ¬ AreWhole v → (t : TraceRecord) → ¬ IsRecord written t
  write_submit_rejected cut t (is_submit r (long, fits)) =
      let n = length-write_submit in
      let fits' = rw fixed_of-write_submit at fits in
      entries_cut v.use_sgl (length v.descriptors) cut (omega arith)
  write_submit_rejected cut t (is_complete r n) =
      let head = ap (λ x. x.record_type) header_at-write_submit in omega arith
