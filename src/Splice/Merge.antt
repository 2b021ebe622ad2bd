-- ===== src/Splice/Merge.antt =====
-- tracing/nvme-trace/src/lib.rs, lines 432 to 476: `splice_streams_with_names`. The output takes
-- every write; the warnings are values.
use gds_traces.Format.Readers.{Binrw}
use gds_traces.Reader.Records.{RecordReader, new, next_record}
use gds_traces.Format.Types.{RawRecord, TraceError}
use gds_traces.Splice.Heap.{HeapItem, pop}
use gds_traces.Reader.Source.{Source}
use gds_traces.Base.{
  List, Option, [], get_or, if◌then◌else◌, length, ltb, map, none, some, suc, zero, ℕ, ◌%◌, ◌++◌,
  ◌+◌, ◌^◌, ◌∷◌,
}
use gds_traces.Analyze.Maps.{insert, lookup}
use gds_traces.Base.Outcome.{Result, err, ok}
use gds_traces.Analyze.Keys.{depth_key}

-- `timestamp went backwards`: the controller, the two times, the source and the offset.
pub data BackwardsWarning : Type 0 where
  backwards : ℕ → ℕ → ℕ → List ℕ → ℕ → BackwardsWarning

pub record SpliceState : Type 0 where
  pub readers : List RecordReader
  pub heap : List HeapItem
  pub last_ts_by_ctrl : List (ℕ × ℕ)
  pub written : ℕ
  pub output : List ℕ
  pub warnings : List BackwardsWarning

-- How a merge ends. `panicked` is an index out of range; `starved` is fuel that ran out.
pub data Merged (E : Type 0) : Type 0 where
  finished : ℕ → Merged E
  failed : TraceError E → Merged E
  panicked starved : Merged E

pub data Turn (E : Type 0) : Type 0 where
  ends : Merged E → SpliceState → Turn E
  goes : SpliceState → Turn E

-- The warning for a time that goes backwards within a controller.
unfoldable pub backwards_warning : HeapItem → Option ℕ → List BackwardsWarning
backwards_warning item none = []
backwards_warning item (some last_ts) =
    let header = item.raw_record.header in
    if ltb header.timestamp_ns last_ts
    then backwards header.ctrl_id last_ts header.timestamp_ns item.source_name
        item.raw_record.offset
      ∷ []
    else []

-- The record of `item` is written; its reader is not touched yet.
unfoldable pub write_item : HeapItem → List HeapItem → SpliceState → SpliceState
write_item item rest s =
    let header = item.raw_record.header in
    let bytes = item.raw_record.bytes in
    record {
      readers = s.readers;
      heap = rest;
      last_ts_by_ctrl = insert header.ctrl_id header.timestamp_ns s.last_ts_by_ctrl;
      written = (s.written + length bytes) % 2 ^ 64;
      output = s.output ++ bytes;
      warnings = s.warnings ++ backwards_warning item (lookup header.ctrl_id s.last_ts_by_ctrl);
    }

module _ {E : Type 0} (binrw : Binrw E) where
  -- `heap.push` of a reader's first record, where it has one; `later` is the rest of the loop.
  abbrev pub fill_with :
      ℕ
      → List ℕ
      → Result (TraceError E) (Option RawRecord)
      → RecordReader
      → Result (TraceError E) (List HeapItem × List RecordReader)
      → Result (TraceError E) (List HeapItem × List RecordReader)
  fill_with i name (err e) r later = err e
  fill_with i name (ok none) r (err e) = err e
  fill_with i name (ok none) r (ok (heap, rs)) = ok (heap, r ∷ rs)
  fill_with i name (ok (some w)) r (err e) = err e
  fill_with i name (ok (some w)) r (ok (heap, rs)) =
      ok (record { source_name = name; input_index = i; raw_record = w } ∷ heap, r ∷ rs)

  unfoldable pub fill_heap :
      ℕ
      → List (List ℕ)
      → List RecordReader
      → Result (TraceError E) (List HeapItem × List RecordReader)
  fill_heap input_index names [] = ok ([], [])
  fill_heap input_index names (r ∷ rs) =
      let (x, r') = next_record binrw r in
      fill_with input_index (get_or names input_index []) x r'
        (fill_heap (suc input_index) names rs)

  -- `readers[i].next_record()`, with the readers behind it; `none` out of range.
  unfoldable pub next_at :
      ℕ → List RecordReader → Option (Result (TraceError E) (Option RawRecord) × List RecordReader)
  next_at i [] = none
  next_at zero (r ∷ rs) = let (x, r') = next_record binrw r in some (x, r' ∷ rs)
  next_at (suc i) (r ∷ rs) = elim (next_at i rs) [ none ↦ none | some (x, rs') ↦ some (x, r ∷ rs') ]

  -- Behind the write: the next record of the item's reader takes its place.
  abbrev pub take_next :
      HeapItem
      → SpliceState
      → Option (Result (TraceError E) (Option RawRecord) × List RecordReader)
      → Turn E
  take_next item s none = ends panicked s
  take_next item s (some (err e, rs)) = ends (failed e) (record s { readers = rs })
  take_next item s (some (ok none, rs)) = goes (record s { readers = rs })
  take_next item s (some (ok (some w), rs)) =
      goes (record s { readers = rs; heap = record item { raw_record = w } ∷ s.heap })

  abbrev pub turn_with : SpliceState → Option (HeapItem × List HeapItem) → Turn E
  turn_with s none = ends (finished s.written) s
  turn_with s (some (item, rest)) =
      take_next item (write_item item rest s) (next_at item.input_index s.readers)

  -- One round of the loop.
  unfoldable pub splice_turn : SpliceState → Turn E
  splice_turn s = turn_with s (pop s.heap)

  -- The loop, on fuel for its rounds.
  unfoldable pub splice_loop : ℕ → SpliceState → Merged E × SpliceState
  splice_loop zero s = (starved, s)
  splice_loop (suc fuel) s = elim (splice_turn s) [
    | ends m s' ↦ (m, s')
    | goes s' ↦ splice_loop fuel s'
  ]

  abbrev pub merge_start : List HeapItem → List RecordReader → SpliceState
  merge_start heap readers = record {
    readers = readers;
    heap = heap;
    last_ts_by_ctrl = [];
    written = 0;
    output = [];
    warnings = [];
  }

  unfoldable pub splice_streams_with_names :
      ℕ → List RecordReader → List (List ℕ) → Merged E × SpliceState
  splice_streams_with_names fuel readers names = elim (fill_heap 0 names readers) [
    | err e ↦ (failed e, merge_start [] readers)
    | ok (heap, rs) ↦ splice_loop fuel (merge_start heap rs)
  ]

  -- `splice_named_streams`, and `splice_streams`, which calls it.
  unfoldable pub splice_named_streams : ℕ → List (List ℕ × Source) → Merged E × SpliceState
  splice_named_streams fuel inputs =
      splice_streams_with_names fuel (map (λ p. new p.1) inputs) (map (λ p. p.0) inputs)
