-- ===== src/Commands/Splicing.antt =====
-- tracing/nvme-trace/src/splice.rs, lines 10 to 38: what `splice` writes.
use gds_traces.Splice.Total.{bytes_left, splice_streams_with_names-Ends}
use gds_traces.Ftrace.Replay.{flatten}
use gds_traces.Splice.Merge.{
  splice_streams_with_names, Merged, SpliceState, finished, splice_named_streams,
}
use gds_traces.Splice.Output.{splice_streams_with_names-Splices}
use gds_traces.Splice.Interleave.{Interleaves}
use gds_traces.Commands.Loading.{HaveStreams, length-stream_bytes}
use gds_traces.Reader.Loop.{Stream}
use gds_traces.Inputs.{expand_input_paths, FilePath}
use gds_traces.Splice.Update.{total_length}
use gds_traces.Reader.Records.{new}
use gds_traces.Splice.Start.{AreBehind}
use gds_traces.Format.Readers.{Binrw}
use gds_traces.Base.{
  ap, ◌∙◌, length, some, ◌%◌, ◌^◌, List, [], arith, map, refl, suc, ℕ, ◌<◌, ◌∷◌, ◌≡◌,
}
use gds_traces.Reader.Source.{Source}
use gds_traces.Commands.{
  merge_into, splice_prepared, create_parent, input_files, prepare_splice, splice, open_streams,
  bytes_of, System,
}
use gds_traces.Base.Outcome.{ok}

module _ {E : Type 0} where
  open_streams-HaveStreams :
      (system : System) (paths : List FilePath) (pss : List Stream)
      → HaveStreams system paths pss
      → (streams : List (List ℕ × Source)) × (open_streams {E = E} system paths ≡ ok streams)
        × AreBehind (map (λ p. new p.1) streams) pss
        × (total_length pss < suc (bytes_of streams))
  unfolding open_streams total_length
  open_streams-HaveStreams system [] [] h = ([], refl, tt, omega arith)
  open_streams-HaveStreams system [] (ps ∷ pss) h = absurd h
  open_streams-HaveStreams system (path ∷ paths) [] h = absurd h
  open_streams-HaveStreams system (path ∷ paths) (ps ∷ pss)
        ((source, opened, steady, held, good), h) =
      let (streams, e, behind, enough) = open_streams-HaveStreams system paths pss h in
      (
        (path.shown, source) ∷ streams,
        rw opened (rw e),
        ((steady, held, good), behind),
        rw held (omega (arith, length-stream_bytes ps good)),
      )

bytes_left-bytes_of :
    (streams : List (List ℕ × Source)) → bytes_left (map (λ p. new p.1) streams) ≡ bytes_of streams
unfolding bytes_left
bytes_left-bytes_of [] = refl
bytes_left-bytes_of ((name, source) ∷ streams) = omega (arith, bytes_left-bytes_of streams)

merge_into-finished :
    {E : Type 0} (system : System) (out : FilePath) (merged : Merged E) (s : SpliceState)
    (bytes : List ℕ)
    → merged ≡ finished s.written
    → s.written ≡ length s.output % 2 ^ 64
    → s.output ≡ bytes
    → system.flush_file out ≡ ok tt
    → merge_into system out (merged, s) ≡ (some (ok (length bytes % 2 ^ 64)), some bytes)
merge_into-finished system out merged s bytes e counted same flushed =
    rw e (rw flushed (rw counted (rw same)))

prepare_splice-ok :
    {E : Type 0} (system : System) (inputs : List FilePath) (out path : FilePath)
    (paths : List FilePath) (streams : List (List ℕ × Source))
    → expand_input_paths system.tree inputs ≡ ok (path ∷ paths)
    → create_parent {E = E} system (system.parent out) ≡ ok tt
    → open_streams {E = E} system (path ∷ paths) ≡ ok streams
    → system.create_file out ≡ ok tt
    → prepare_splice {E = E} system inputs out ≡ ok streams
unfolding prepare_splice input_files
prepare_splice-ok system inputs out path paths streams expanded parent opened made =
    rw expanded (rw parent (rw opened (rw made)))

module _ {E : Type 0} (binrw : Binrw E) where
  -- Let the inputs expand to some files, and let each open as a steady source with the bytes of a
  -- list of well-formed records; let the system make the output's directory, where there is one to
  -- make, and the output, and flush it. Then `splice` returns the number of the bytes written, in
  -- 64 bits, and the output has the records of all files, each once and each file's in its order.
  pub splice-Interleaves :
      (system : System) (inputs : List FilePath) (out : FilePath) (path : FilePath)
      (paths : List FilePath) (pss : List Stream)
      → expand_input_paths system.tree inputs ≡ ok (path ∷ paths)
      → HaveStreams system (path ∷ paths) pss
      → create_parent {E = E} system (system.parent out) ≡ ok tt
      → system.create_file out ≡ ok tt
      → system.flush_file out ≡ ok tt
      → (recs : List (List ℕ)) × Interleaves pss recs
        × (splice binrw system inputs out
            ≡ (some (ok (length (flatten recs) % 2 ^ 64)), some (flatten recs)))
  unfolding splice splice_named_streams
  splice-Interleaves system inputs out path paths pss expanded have parent made flushed =
      let (streams, opened, behind, enough) =
        open_streams-HaveStreams {E = E} system (path ∷ paths) pss have in
      let (all, (recs, order, written)) =
        splice_streams_with_names-Splices binrw (suc (bytes_of streams)) (map (λ p. p.0) streams)
          (map (λ p. new p.1) streams) pss behind enough in
      let readers = map (λ (p : List ℕ × Source). new p.1) streams in
      let names = map (λ (p : List ℕ × Source). p.0) streams in
      let merge = splice_streams_with_names binrw (suc (bytes_of streams)) readers names in
      let (counted, ended) =
        splice_streams_with_names-Ends binrw (suc (bytes_of streams)) readers names
          (omega (arith, bytes_left-bytes_of streams)) in
      (
        recs,
        order,
        ap (splice_prepared binrw system out)
              (prepare_splice-ok system inputs out path paths streams expanded parent opened made)
            ∙ merge_into-finished system out merge.0 merge.1 (flatten recs) all counted written
                flushed,
      )
