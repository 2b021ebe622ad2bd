-- ===== src/Splice/Output.antt =====
-- tracing/nvme-trace/src/lib.rs, lines 432 to 476: what the merge of well-formed streams writes.
use gds_traces.Order.Laws.{IsUnnumbered, NotAfter, record_order-trans_unnumbered}
use gds_traces.Splice.Merges.{
  HeadsAre, IsLeast, Merges, Merges-Interleaves, all_merged, merges, picked-IsLeast,
}
use gds_traces.Splice.Start.{AreBehind, fill_heap-IsReady}
use gds_traces.Format.Readers.{Binrw}
use gds_traces.Splice.Distinct.{Has, PopsDistinct, pop-PopsDistinct}
use gds_traces.Reader.Records.{RecordReader, new, next_record}
use gds_traces.Ftrace.Replay.{flatten}
use gds_traces.Reader.Loop.{Stream, stream_bytes}
use gds_traces.Base.Outcome.{Result, ok}
use gds_traces.Reader.Streams.{next_record-end, next_record-record}
use gds_traces.Splice.Interleave.{IsReady-end, IsReady-next, Interleaves, IsHead, IsReady}
use gds_traces.Splice.Heap.{HeapItem, Popped, pop, pop-Popped}
use gds_traces.Format.Types.{Header, RawRecord, TraceError, TraceRecord}
use gds_traces.Splice.Merge.{
  merge_start, splice_streams_with_names, Merged, SpliceState, ends, finished, goes, splice_loop,
  splice_turn, take_next, turn_with, write_item,
}
use gds_traces.Splice.Update.{next_at-set_at, set_at, total_length, total_length-set_at}
use gds_traces.Format.Accept.{raw}
use gds_traces.Base.{
  All, ◌⊎◌, List, Option, [], ap, append-nil, append_assoc, arith, get_or, inl, inr, length, none,
  refl, some, suc, sym, zero, ℕ, ◌++◌, ◌<◌, ◌∙◌, ◌∷◌, ◌≡◌,
}

-- A merge that finishes, with an interleaving of the streams behind the output.
abbrev Splices :
    {E : Type 0} → (Header → Type 0) → List Stream → SpliceState → Merged E × SpliceState → Type 0
Splices P pss s out =
    (out.0 ≡ finished out.1.written)
    × ((recs : List (List ℕ)) × Merges P pss recs × (out.1.output ≡ s.output ++ flatten recs))

module _ {E : Type 0} (binrw : Binrw E) (P : Header → Type 0)
    (trans : (a b c : Header) → P a → P b → P c → NotAfter a b → NotAfter b c → NotAfter a c) where
  splice_loop-goes :
      (fuel : ℕ) (s s' : SpliceState)
      → splice_turn binrw s ≡ goes s'
      → splice_loop binrw (suc fuel) s ≡ splice_loop binrw fuel s'
  unfolding splice_loop
  splice_loop-goes fuel s s' e = rw (e, splice_loop)

  splice_loop-ends :
      (fuel : ℕ) (s : SpliceState)
      → splice_turn binrw s ≡ ends (finished s.written) s
      → splice_loop binrw (suc fuel) s ≡ (finished s.written, s)
  unfolding splice_loop
  splice_loop-ends fuel s e = rw (e, splice_loop)

  -- A round that writes the first record of the stream `i`, and what comes behind it.
  Splices-round :
      (fuel : ℕ) (pss : List Stream) (s s' : SpliceState) (i : ℕ) (bytes : List ℕ) (t : TraceRecord)
      (ps : Stream)
      → get_or pss i [] ≡ (bytes, t) ∷ ps
      → (HeadsAre P pss → IsLeast pss bytes)
      → splice_turn binrw s ≡ goes s'
      → s'.output ≡ s.output ++ bytes
      → Splices P (set_at i ps pss) s' (splice_loop binrw fuel s')
      → Splices P pss s (splice_loop binrw (suc fuel) s)
  unfolding flatten
  Splices-round fuel pss s s' i bytes t ps e least turn o (f, (recs, w, out)) =
      rw (splice_loop-goes fuel s s' turn) (
        f,
        (
          bytes ∷ recs,
          merges i bytes t ps recs e least w,
          out ∙ ap (λ x. x ++ flatten recs) o ∙ append_assoc s.output bytes (flatten recs),
        ),
      )

  turn_eq :
      (s : SpliceState) (item : HeapItem) (rest : List HeapItem)
      (x : Result (TraceError E) (Option RawRecord)) (r' : RecordReader)
      → pop s.heap ≡ some (item, rest)
      → item.input_index < length s.readers
      → next_record binrw (get_or s.readers item.input_index (new [])) ≡ (x, r')
      → splice_turn binrw s
        ≡ take_next binrw item
            (write_item item rest s)
            (some (x, set_at item.input_index r' s.readers))
  unfolding splice_turn
  turn_eq s item rest x r' p i q =
      ap (turn_with binrw s) p
      ∙ ap (take_next binrw item (write_item item rest s)) (
          next_at-set_at binrw item.input_index s.readers (new []) i
          ∙ ap
              (λ (o : Result (TraceError E) (Option RawRecord) × RecordReader).
                some (o.0, set_at item.input_index o.1 s.readers))
              q)

  pub splice_loop-Splices :
      (fuel : ℕ) (pss : List Stream) (s : SpliceState)
      → IsReady pss s.readers s.heap
      → total_length pss < fuel
      → Splices P pss s (splice_loop binrw fuel s)
  unfolding write_item splice_turn stream_bytes flatten
  splice_loop-Splices zero pss s ready f = absurd (omega arith)
  splice_loop-Splices (suc fuel) pss s ready f =
      go (pop s.heap) refl (pop-Popped (IsHead pss s.readers) s.heap ready.heads)
        (pop-PopsDistinct s.heap ready.distinct)
        λ pss' s' ready' less. splice_loop-Splices fuel pss' s' ready' (omega arith)
    where
      picked :
          {item : HeapItem} {rest : List HeapItem}
          → pop s.heap ≡ some (item, rest)
          → ((i : ℕ) → Has i s.heap → (item.input_index ≡ i) ⊎ Has i rest)
          → IsHead pss s.readers item
          → All (IsHead pss s.readers) rest
          → HeadsAre P pss
          → IsLeast pss item.raw_record.bytes
      picked {item} {rest} p m h hs =
          picked-IsLeast P trans pss s.readers s.heap rest item ready p m h hs

      go :
          (o : Option (HeapItem × List HeapItem))
          → pop s.heap ≡ o
          → Popped (IsHead pss s.readers) s.heap o
          → PopsDistinct s.heap o
          → ((pss' : List Stream) (s' : SpliceState)
              → IsReady pss' s'.readers s'.heap
              → suc (total_length pss') ≡ total_length pss
              → Splices {E = E} P pss' s' (splice_loop binrw fuel s'))
          → Splices {E = E} P pss s (splice_loop binrw (suc fuel) s)
      go none p q none_has ih = rw (splice_loop-ends fuel s (ap (turn_with binrw s) p)) (
        refl,
        (
          [],
          all_merged {pss = pss}
              (λ i. elim (ready.covers i) [ inl e ↦ e | inr has ↦ absurd (none_has i has) ]),
          sym (append-nil s.output),
        ),
      )
      go (some (item, rest)) p (n, (i, own, (t, [], e, (st, c, good))), hs) (d, ds, m) ih =
          let (r', q, o) =
            next_record-end binrw (get_or s.readers item.input_index (new [])) st c in
          Splices-round fuel pss s _ item.input_index item.raw_record.bytes t [] e
            (picked p m (i, own, (t, [], e, (st, c, good))) hs)
            (turn_eq s item rest (ok none) r' p i q) refl
            (ih _ _ (IsReady-end pss s.readers s.heap rest item ready d ds m hs i r')
              (total_length-set_at item.input_index _ [] pss e))
      go (some (item, rest)) p
            (n, (i, own, (t, (b, u) ∷ ps, e, (st, c, ((frame, shape), good)))), hs) (d, ds, m) ih =
          let reader = get_or s.readers item.input_index (new []) in
          let (r', q, (o, c', st')) =
            next_record-record binrw reader st b (stream_bytes ps) u c frame shape in
          Splices-round fuel pss s _ item.input_index item.raw_record.bytes t ((b, u) ∷ ps) e
            (picked p m (i, own, (t, (b, u) ∷ ps, e, (st, c, ((frame, shape), good)))) hs)
            (turn_eq s item rest (ok (some (raw b reader.offset u))) r' p i q) refl
            (ih _ _
              (IsReady-next pss s.readers s.heap rest item ready d ds m hs i r'
                (raw b reader.offset u) u ps (st', c', good) refl)
              (total_length-set_at item.input_index _ ((b, u) ∷ ps) pss e))

  pub splice_streams_with_names-Merges :
      (fuel : ℕ) (names : List (List ℕ)) (rs : List RecordReader) (pss : List Stream)
      → AreBehind rs pss
      → total_length pss < fuel
      → let out = splice_streams_with_names binrw fuel rs names in
        (out.0 ≡ finished out.1.written)
        × ((recs : List (List ℕ)) × Merges P pss recs × (out.1.output ≡ flatten recs))
  unfolding splice_streams_with_names
  splice_streams_with_names-Merges fuel names rs pss h f =
      let (heap, rs', e, ready) = fill_heap-IsReady binrw names rs pss h in
      let (done_now, (recs, w, o)) =
        splice_loop-Splices fuel pss (merge_start binrw heap rs') ready f in
      rw (e, splice_streams_with_names) (done_now, (recs, w, o))

module _ {E : Type 0} (binrw : Binrw E) where
  pub splice_streams_with_names-Splices :
      (fuel : ℕ) (names : List (List ℕ)) (rs : List RecordReader) (pss : List Stream)
      → AreBehind rs pss
      → total_length pss < fuel
      → let out = splice_streams_with_names binrw fuel rs names in
        (out.0 ≡ finished out.1.written)
        × ((recs : List (List ℕ)) × Interleaves pss recs × (out.1.output ≡ flatten recs))
  splice_streams_with_names-Splices fuel names rs pss h f =
      let (done_now, (recs, w, o)) =
        splice_streams_with_names-Merges binrw IsUnnumbered record_order-trans_unnumbered fuel names
          rs pss h f in
      (done_now, (recs, Merges-Interleaves IsUnnumbered pss recs w, o))
