-- ===== src/Examples/Merges.antt =====
-- The properties of Splice at concrete streams: a submission in one, its completion in the other.
use gds_traces.Splice.Ordered.{Ordered}
use gds_traces.Reader.Loop.{Stream}
use gds_traces.Format.Accept.{submit_of, complete_of}
use gds_traces.Format.Types.{TraceRecord, submit, complete}
use gds_traces.Base.{◌++◌, ℕ, List, [], ◌∷◌}
use gds_traces.Examples.Data.{as_source, completion_bytes, submission_bytes}
use gds_traces.Reader.Records.{RecordReader, new}

abbrev two_readers : List RecordReader
two_readers = new (as_source completion_bytes) ∷ new (as_source submission_bytes) ∷ []

abbrev two_streams : List Stream
two_streams =
    ((completion_bytes, complete (complete_of completion_bytes)) ∷ [])
    ∷ ((submission_bytes, submit (submit_of submission_bytes)) ∷ [])
    ∷ []

-- A submission and its completion in one stream, and a completion of the same time in the other.
abbrev ordered_streams : List Stream
ordered_streams =
    ((submission_bytes, submit (submit_of submission_bytes))
      ∷ (completion_bytes, complete (complete_of completion_bytes))
      ∷ [])
    ∷ ((completion_bytes, complete (complete_of completion_bytes)) ∷ [])
    ∷ []

abbrev ordered_readers : List RecordReader
ordered_readers =
    new (as_source (submission_bytes ++ completion_bytes)) ∷ new (as_source completion_bytes) ∷ []

-- A completion with a sequence number.
abbrev numbered_bytes : ℕ → List ℕ
numbered_bytes seq =
    69 ∷ 77 ∷ 86 ∷ 78 ∷ 1 ∷ 1 ∷ 40 ∷ 0 ∷ 5 ∷ 0 ∷ 0 ∷ 0 ∷ 0 ∷ 0 ∷ 0 ∷ 0 ∷ seq ∷ 0 ∷ 0 ∷ 0 ∷ 0 ∷ 1 ∷ 7
    ∷ 0 ∷ 9 ∷ 0 ∷ 0 ∷ 0 ∷ 0 ∷ 0 ∷ 0 ∷ 0 ∷ 3 ∷ 0 ∷ 1 ∷ 0 ∷ 0 ∷ 0 ∷ 0 ∷ 0 ∷ []

abbrev numbered : ℕ → List ℕ × TraceRecord
numbered seq = (numbered_bytes seq, complete (complete_of (numbered_bytes seq)))

abbrev numbered_streams : List Stream
numbered_streams = (numbered 1 ∷ numbered 3 ∷ []) ∷ (numbered 2 ∷ []) ∷ []

abbrev numbered_readers : List RecordReader
numbered_readers =
    new (as_source (numbered_bytes 1 ++ numbered_bytes 3)) ∷ new (as_source (numbered_bytes 2)) ∷ []
