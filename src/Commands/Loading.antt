-- ===== src/Commands/Loading.antt =====
-- tracing/nvme-trace/src/analyze.rs, lines 156 to 181: the records that the analyses get.
use gds_traces.Reader.Records.{new}
use gds_traces.Format.Readers.{Binrw}
use gds_traces.Format.Types.{RawRecord, TraceRecord}
use gds_traces.Base.Outcome.{Result, Result-cases, err, map_err, ok}
use gds_traces.Reader.Source.{IsSteady, Source, contents}
use gds_traces.Inputs.{expand_input_paths, FilePath}
use gds_traces.Reader.Loop.{
  read_records_total, IsStream, Stream, read_records-stream, stream_bytes, stream_records,
}
use gds_traces.Base.{
  ◌%◌, ◌^◌, inl, inr, List, [], ap, arith, length, length-append, map, refl, some, suc, ℕ, ◌++◌,
  ◌+◌, ◌<◌, ◌∷◌, ◌≡◌, ◌≤◌,
}
use gds_traces.Commands.{
  CommandError, Outcome, analyze_records, input_files, opening, parsing, push_records, load_records,
  read_file, System,
}

-- Each file opens as a steady source with the bytes of well-formed records.
abbrev pub HaveStreams : System → List FilePath → List Stream → Type 0
HaveStreams system [] [] = Unit {0}
HaveStreams system [] (ps ∷ pss) = ⊥
HaveStreams system (path ∷ paths) [] = ⊥
HaveStreams system (path ∷ paths) (ps ∷ pss) =
    ((source : Source) × (system.open_file path ≡ ok source)
      × IsSteady source
      × (contents source ≡ stream_bytes ps)
      × IsStream ps)
    × HaveStreams system paths pss

-- The records of the streams, one stream behind the other.
unfoldable pub loaded_records : List Stream → List TraceRecord
loaded_records [] = []
loaded_records (ps ∷ pss) = map (λ p. p.1) ps ++ loaded_records pss

pub length-stream_bytes : (ps : Stream) → IsStream ps → length ps ≤ length (stream_bytes ps)
unfolding stream_bytes
length-stream_bytes [] good = omega arith
length-stream_bytes ((bytes, t) ∷ ps) ((frame, shape), good) =
    omega (arith, length-append {0} bytes (stream_bytes ps), length-stream_bytes ps good)

trace_records-stream :
    (offset : ℕ) (ps : Stream)
    → map (λ raw. raw.trace_record) (stream_records offset ps) ≡ map (λ p. p.1) ps
unfolding stream_records
trace_records-stream offset [] = refl
trace_records-stream offset ((bytes, t) ∷ ps) =
    ap (λ ts. t ∷ ts) (trace_records-stream ((offset + length bytes) % 2 ^ 64) ps)

module _ {E : Type 0} (binrw : Binrw E) where
  load_records-streams :
      (system : System) (paths : List FilePath) (pss : List Stream)
      → HaveStreams system paths pss
      → load_records binrw system paths ≡ some (ok (loaded_records pss))
  unfolding load_records loaded_records read_file
  load_records-streams system [] [] h = refl
  load_records-streams system [] (ps ∷ pss) h = absurd h
  load_records-streams system (path ∷ paths) [] h = absurd h
  load_records-streams system (path ∷ paths) (ps ∷ pss) ((source, opened, steady, held, good), h) =
      let enough : length ps < suc (length (contents source)) =
        rw held (omega (arith, length-stream_bytes ps good)) in
      let read =
        read_records-stream binrw ps (suc (length (contents source))) (new source) steady held good
          enough in
      rw opened (
        rw read (
          rw (load_records-streams system paths pss h)
            (ap (λ ts. some (ok (ts ++ loaded_records pss))) (trace_records-stream 0 ps))))

  -- What a loop that has enough fuel gives.
  Gives : {A : Type 0} → Outcome E A → Type 0
  Gives {A} outcome = (r : Result (CommandError E) A) × (outcome ≡ some r)

  push_records-Gives :
      (raws : Outcome E (List RawRecord)) (more : Outcome E (List TraceRecord))
      → Gives raws
      → Gives more
      → Gives (push_records raws more)
  unfolding Gives
  push_records-Gives raws more (err e, p) (r, q) = (err e, rw p)
  push_records-Gives raws more (ok rs, p) (err e, q) = (err e, rw p (rw q))
  push_records-Gives raws more (ok rs, p) (ok ts, q) =
      (ok (map (λ raw. raw.trace_record) rs ++ ts), rw p (rw q))

  read_file-Gives :
      (path : FilePath) (opened : Result ℕ Source) → Gives (read_file binrw path opened)
  unfolding Gives read_file
  read_file-Gives path (err e) = (err (opening path e), refl)
  read_file-Gives path (ok source) =
      let (r, e) =
        read_records_total binrw (suc (length (contents source))) (new source) (omega arith) in
      (map_err (parsing path) r, rw e)

  load_records-Gives :
      (system : System) (paths : List FilePath) → Gives (load_records binrw system paths)
  unfolding load_records
  load_records-Gives system [] = unfold Gives in (ok [], refl)
  load_records-Gives system (path ∷ paths) =
      push_records-Gives _ _ (read_file-Gives path (system.open_file path))
        (load_records-Gives system paths)

  -- On any system, with any inputs, whatever the files hold, the records of a command are loaded
  -- or an error is returned: the rounds that are given to each file are enough.
  pub analyze_records_total :
      (system : System) (inputs : List FilePath)
      → (r : Result (CommandError E) (List TraceRecord)) × (analyze_records binrw system inputs
          ≡ some r)
  unfolding analyze_records Gives
  analyze_records_total system inputs = elim (Result-cases (input_files {E = E} system inputs)) [
    | inl (files, found) ↦ rw found (load_records-Gives system files)
    | inr (e, failed_with) ↦ rw failed_with (err e, refl)
  ]

  -- Let the inputs of a command expand to some files, and let each file open as a steady source
  -- with the bytes of a list of well-formed records. Then the analysis gets the records of all
  -- files, in the order of the files and in each in its own.
  pub analyze_records-streams :
      (system : System) (inputs : List FilePath) (path : FilePath) (paths : List FilePath)
      (pss : List Stream)
      → expand_input_paths system.tree inputs ≡ ok (path ∷ paths)
      → HaveStreams system (path ∷ paths) pss
      → analyze_records binrw system inputs ≡ some (ok (loaded_records pss))
  unfolding analyze_records input_files
  analyze_records-streams system inputs path paths pss expanded have =
      rw expanded (load_records-streams system (path ∷ paths) pss have)
