-- ===== src/Examples/Streams.antt =====
-- The properties of Reader at concrete sources.
use gds_traces.Reader.Streams.{Leaves, next_record-record, next_record-short_payload}
use gds_traces.Format.Layout.{header_at}
use gds_traces.Base.Bytes.{from_le}
use gds_traces.Examples.Data.{
  completion-HasFrame, completion-IsRecord, completion_bytes, le_binrw, submission-HasFrame,
  submission-IsRecord, submission_bytes,
}
use gds_traces.Base.Outcome.{Result, err, ok}
use gds_traces.Base.{List, [], arith, drop, length, refl, some, take, ◌∷◌, ◌≡◌}
use gds_traces.Format.Accept.{complete_of, raw, submit_of}
use gds_traces.Format.Types.{
  RawRecord, TraceError, complete, interrupted, submit, truncated_payload,
}
use gds_traces.Reader.Source.{
  Reads, Source, chunk, contents, fails, read_exact_or_eof, read_exact_or_eof-Reads,
}
use gds_traces.Reader.Loop.{
  Stream, read_records-stream, read_records_total, stream_bytes, stream_records,
}
use gds_traces.Reader.Records.{RecordReader, new, next_record, read_records}

-- The two records in four chunks, with an interruption.
abbrev pub two_records : Source
two_records =
    chunk (take 5 submission_bytes)
    ∷ fails interrupted
    ∷ chunk (drop 5 submission_bytes)
    ∷ chunk (take 30 completion_bytes)
    ∷ chunk (drop 30 completion_bytes)
    ∷ []

abbrev cut_in_header : Source
cut_in_header = chunk (take 10 submission_bytes) ∷ []

abbrev cut_in_payload : Source
cut_in_payload = chunk (take 60 submission_bytes) ∷ []

abbrev both : Stream
both =
    (submission_bytes, submit (submit_of submission_bytes))
    ∷ (completion_bytes, complete (complete_of completion_bytes))
    ∷ []

read_exact_or_eof-Reads_example : Reads 24 two_records (read_exact_or_eof 24 two_records)
read_exact_or_eof-Reads_example = read_exact_or_eof-Reads 24 two_records tt

read_records-stream_example :
    read_records le_binrw 3 (new two_records) ≡ some (ok (stream_records 0 both))
unfolding contents stream_bytes
read_records-stream_example =
    read_records-stream le_binrw both 3 (new two_records) tt refl
      ((submission-HasFrame, submission-IsRecord), ((completion-HasFrame, completion-IsRecord), tt))
      (omega arith)

read_records_total_example :
    (x : Result (TraceError (Unit {0})) (List RawRecord)) × (read_records le_binrw 200
        (new two_records)
      ≡ some x)
unfolding contents
read_records_total_example = read_records_total le_binrw 200 (new two_records) (omega arith)

next_record-record_example :
    (r' : RecordReader) × (next_record le_binrw (new two_records)
      ≡ (ok (some (raw submission_bytes 0 (submit (submit_of submission_bytes)))), r'))
    × Leaves (new two_records) (length submission_bytes) completion_bytes r'
unfolding contents
next_record-record_example =
    next_record-record le_binrw (new two_records) tt submission_bytes completion_bytes
      (submit (submit_of submission_bytes)) refl submission-HasFrame submission-IsRecord

next_record-short_payload_example :
    (r' : RecordReader) × (next_record le_binrw (new cut_in_payload)
      ≡ (err (truncated_payload 0 84 36), r'))
    × (r'.offset ≡ 60)
unfolding contents header_at from_le
next_record-short_payload_example =
    next_record-short_payload le_binrw (new cut_in_payload) tt (omega arith)
      (refl, refl, omega arith) (omega arith)
