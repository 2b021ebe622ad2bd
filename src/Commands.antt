-- ===== src/Commands.antt =====
-- tracing/nvme-trace/src/splice.rs, lines 10 to 38, and analyze.rs, lines 80 to 181: the commands
-- over their input files. A `System` is what its calls answer, an error by its number. The output
-- file and the standard output take every write.
use gds_traces.Format.Accept.{raw}
use gds_traces.Format.Readers.{Binrw}
use gds_traces.Analyze.Percent.{empty_percent, PercentState, percent_records}
use gds_traces.Analyze.History.{command}
use gds_traces.Reader.Source.{Source, contents}
use gds_traces.Analyze.Throughput.{ThroughputState, no_throughput, throughput_records}
use gds_traces.Format.Types.{RawRecord, TraceError, TraceRecord}
use gds_traces.Reader.Records.{new, read_records}
use gds_traces.Inputs.{FilePath, FileTree, InputError, expand_input_paths}
use gds_traces.Analyze.Sampling.{Sampling, analyze_queue_depth_records, start_sampling}
use gds_traces.Text.Affix.{Text, same_text}
use gds_traces.Analyze.Samples.{Row}
use gds_traces.Base.{
  List, Option, [], if◌then◌else◌, length, ltb, map, none, some, suc, ℕ, ◌++◌, ◌+◌, ◌==◌, ◌^◌, ◌∷◌,
}
use gds_traces.Base.Outcome.{map_err, Result, ok, err, ◌>>=◌, ◌>>◌}
use gds_traces.Splice.Merge.{
  failed, finished, panicked, splice_named_streams, starved, SpliceState, Merged,
}
pub mod Loading
pub mod Splicing

pub record System : Type 0 where
  pub tree : FileTree
  pub open_file : FilePath → Result ℕ Source
  pub parent : FilePath → Option FilePath
  pub create_dir_all : FilePath → Result ℕ (Unit {0})
  pub create_file : FilePath → Result ℕ (Unit {0})
  pub flush_file : FilePath → Result ℕ (Unit {0})

-- Why a command fails.
pub data CommandError (E : Type 0) : Type 0 where
  expanding : InputError → CommandError E
  no_input_files bad_scale zero_scale large_scale zero_block_size : CommandError E
  opening creating_directory creating flushing : FilePath → ℕ → CommandError E
  parsing : FilePath → TraceError E → CommandError E
  merging : TraceError E → CommandError E

-- What a command over files gives; `none` is a merge that panics, or a loop without fuel.
abbrev pub Outcome : Type 0 → Type 0 → Type 0
Outcome E A = Option (Result (CommandError E) A)

abbrev pub some_files : {E : Type 0} → List FilePath → Result (CommandError E) (List FilePath)
some_files [] = err no_input_files
some_files (path ∷ paths) = ok (path ∷ paths)

-- `expand_input_paths`, and at least one file.
unfoldable pub input_files :
    {E : Type 0} → System → List FilePath → Result (CommandError E) (List FilePath)
input_files system inputs = do
  files ← map_err expanding (expand_input_paths system.tree inputs)
  some_files files

module _ {E : Type 0} where
  abbrev pub named_parsing :
      {A : Type 0} → FilePath → Option (Result (TraceError E) A) → Outcome E A
  named_parsing path none = none
  named_parsing path (some r) = some (map_err (parsing path) r)

  -- `records.push(raw.record)`, file by file.
  abbrev pub push_records :
      Outcome E (List RawRecord) → Outcome E (List TraceRecord) → Outcome E (List TraceRecord)
  push_records none more = none
  push_records (some (err e)) more = some (err e)
  push_records (some (ok raws)) none = none
  push_records (some (ok raws)) (some (err e)) = some (err e)
  push_records (some (ok raws)) (some (ok more)) =
      some (ok (map (λ raw. raw.trace_record) raws ++ more))

  -- `parse_scale_ns`, over what `humantime::parse_duration` makes of the text, in nanoseconds.
  unfoldable pub parse_scale_ns : (Text → Option ℕ) → Text → Result (CommandError E) ℕ
  parse_scale_ns parse_duration scale = elim (parse_duration scale) [
    | none ↦ err bad_scale
    | some nanos ↦
        if nanos == 0
        then err zero_scale
        else if ltb nanos (2 ^ 64)
        then ok nanos
        else err large_scale
  ]

  abbrev pub some_ok : {A : Type 0} → Option A → Outcome E A
  some_ok none = none
  some_ok (some a) = some (ok a)

  -- An analysis of the records at a scale, where neither fails.
  abbrev pub analyzed :
      {A : Type 0} → (List TraceRecord → Option A) → Outcome E (List TraceRecord) → Outcome E A
  analyzed analyze none = none
  analyzed analyze (some (err e)) = some (err e)
  analyzed analyze (some (ok records)) = some_ok (analyze records)

  abbrev pub at_scale : {A : Type 0} → Result (CommandError E) ℕ → (ℕ → Outcome E A) → Outcome E A
  at_scale (err e) command = some (err e)
  at_scale (ok scale_ns) command = command scale_ns

module _ {E : Type 0} (binrw : Binrw E) where
  -- A file's records, where it can be opened, with a round for each of its bytes and one.
  unfoldable pub read_file : FilePath → Result ℕ Source → Outcome E (List RawRecord)
  read_file path (err e) = some (err (opening path e))
  read_file path (ok source) =
      named_parsing path (read_records binrw (suc (length (contents source))) (new source))

  unfoldable pub load_records : System → List FilePath → Outcome E (List TraceRecord)
  load_records system [] = some (ok [])
  load_records system (path ∷ paths) =
      push_records (read_file path (system.open_file path)) (load_records system paths)

  abbrev pub load_found :
      System → Result (CommandError E) (List FilePath) → Outcome E (List TraceRecord)
  load_found system (err e) = some (err e)
  load_found system (ok files) = load_records system files

  -- What `analyze_records` hands to the analysis.
  unfoldable pub analyze_records : System → List FilePath → Outcome E (List TraceRecord)
  analyze_records system inputs = load_found system (input_files system inputs)

  unfoldable pub throughput :
      (Text → Option ℕ) → System → List FilePath → Text → Outcome E ThroughputState
  throughput parse_duration system inputs scale =
      at_scale (parse_scale_ns parse_duration scale) λ scale_ns.
        analyzed (λ records. some (throughput_records scale_ns records no_throughput))
          (analyze_records system inputs)

  unfoldable pub queue_depth :
      (Text → Option ℕ) → System → List FilePath → Text → Outcome E (List Row × Sampling)
  queue_depth parse_duration system inputs scale =
      at_scale (parse_scale_ns parse_duration scale) λ scale_ns.
        analyzed (λ records. analyze_queue_depth_records scale_ns records start_sampling)
          (analyze_records system inputs)

  unfoldable pub queue_depth_percent : System → List FilePath → Outcome E PercentState
  queue_depth_percent system inputs =
      analyzed (λ records. some (percent_records records empty_percent))
        (analyze_records system inputs)

-- A file, where the command made it: its bytes.
abbrev pub OutputFile : Type 0
OutputFile = Option (List ℕ)

-- The number of the bytes of the streams.
abbrev pub bytes_of : List (List ℕ × Source) → ℕ
bytes_of [] = 0
bytes_of ((name, source) ∷ streams) = length (contents source) + bytes_of streams

module _ {E : Type 0} where
  -- The files that are opened, in order, with their names.
  unfoldable pub open_streams :
      System → List FilePath → Result (CommandError E) (List (List ℕ × Source))
  open_streams system [] = ok []
  open_streams system (path ∷ paths) = do
    source ← map_err (opening path) (system.open_file path)
    streams ← open_streams system paths
    ok ((path.shown, source) ∷ streams)

  unfoldable pub create_parent : System → Option FilePath → Result (CommandError E) (Unit {0})
  create_parent system none = ok tt
  create_parent system (some dir) =
      if same_text dir.shown []
      then ok tt
      else map_err (creating_directory dir) (system.create_dir_all dir)

  -- What comes before the merge: the streams, with the output made.
  unfoldable pub prepare_splice :
      System → List FilePath → FilePath → Result (CommandError E) (List (List ℕ × Source))
  prepare_splice system inputs out = do
    files ← input_files system inputs
    create_parent system (system.parent out)
    streams ← open_streams system files
    map_err (creating out) (system.create_file out)
    ok streams

  abbrev pub finish_splice : System → FilePath → Merged E → Outcome E ℕ
  finish_splice system out (finished written) =
      some (map_err (flushing out) (system.flush_file out) >>= λ flushed. ok written)
  finish_splice system out (failed e) = some (err (merging e))
  finish_splice system out panicked = none
  finish_splice system out starved = none

  abbrev pub merge_into : System → FilePath → Merged E × SpliceState → Outcome E ℕ × OutputFile
  merge_into system out (merged, s) = (finish_splice system out merged, some s.output)

module _ {E : Type 0} (binrw : Binrw E) where
  abbrev pub splice_prepared :
      System
      → FilePath
      → Result (CommandError E) (List (List ℕ × Source))
      → Outcome E ℕ × OutputFile
  splice_prepared system out (err e) = (some (err e), none)
  splice_prepared system out (ok streams) =
      merge_into system out (splice_named_streams binrw (suc (bytes_of streams)) streams)

  unfoldable pub splice : System → List FilePath → FilePath → Outcome E ℕ × OutputFile
  splice system inputs out = splice_prepared system out (prepare_splice system inputs out)
