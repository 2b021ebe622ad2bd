-- ===== src/Splice/Start.antt =====
-- tracing/nvme-trace/src/lib.rs, lines 438 to 447: the heap's first items, of well-formed streams.
use gds_traces.Format.Readers.{Binrw}
use gds_traces.Format.Accept.{raw}
use gds_traces.Splice.Heap.{HeapItem}
use gds_traces.Reader.Streams.{next_record-end, next_record-record}
use gds_traces.Format.Types.{RawRecord, TraceError, TraceRecord}
use gds_traces.Reader.Loop.{Stream, stream_bytes}
use gds_traces.Splice.Interleave.{Behind, IsHead, IsReady}
use gds_traces.Splice.Merge.{fill_heap, fill_with}
use gds_traces.Splice.Distinct.{Distinct, Has}
use gds_traces.Base.Outcome.{Result, ok}
use gds_traces.Reader.Records.{RecordReader, new, next_record}
use gds_traces.Base.{
  All, List, Option, [], ap, arith, get_or, inl, inr, length, none, refl, some, subst, suc, zero, ℕ,
  ◌+◌, ◌<◌, ◌∙◌, ◌∷◌, ◌≡◌, ◌≢◌, ◌⊎◌,
}
use gds_traces.Format.Layout.{header_at}

-- The readers stand before the streams.
abbrev pub AreBehind : List RecordReader → List Stream → Type 0
AreBehind [] [] = Unit
AreBehind [] (ps ∷ pss) = ⊥
AreBehind (r ∷ rs) [] = ⊥
AreBehind (r ∷ rs) (ps ∷ pss) = Behind r ps × AreBehind rs pss

-- `IsHead`, for readers that are counted from `k` on.
abbrev IsHeadFrom : ℕ → List Stream → List RecordReader → HeapItem → Type 0
IsHeadFrom k pss rs item =
    (j : ℕ) × (item.input_index ≡ k + j)
    × (j < length rs)
    × (item.raw_record.header ≡ header_at item.raw_record.bytes)
    × ((t : TraceRecord) × (ps : Stream) × (get_or pss j [] ≡ (item.raw_record.bytes, t) ∷ ps)
        × Behind (get_or rs j (new [])) ps)

record IsFilled (k : ℕ) (pss : List Stream) (rs : List RecordReader) (heap : List HeapItem)
    : Type 0 where
  same_length : length pss ≡ length rs
  heads : All (IsHeadFrom k pss rs) heap
  distinct : Distinct heap
  covers : (j : ℕ) → (get_or pss j [] ≡ []) ⊎ Has (k + j) heap

heads_suc :
    (k : ℕ) (pss : List Stream) (rs : List RecordReader) (ps : Stream) (r : RecordReader)
    (heap : List HeapItem)
    → All (IsHeadFrom (suc k) pss rs) heap
    → All (IsHeadFrom k (ps ∷ pss) (r ∷ rs)) heap
heads_suc k pss rs ps r [] h = tt
heads_suc k pss rs ps r (x ∷ xs) ((j, e, l, own, rest), hs) =
    ((suc j, omega arith, omega arith, own, rest), heads_suc k pss rs ps r xs hs)

heads_differ :
    (k : ℕ) (pss : List Stream) (rs : List RecordReader) (heap : List HeapItem)
    → All (IsHeadFrom (suc k) pss rs) heap
    → All (λ y. y.input_index ≢ k) heap
heads_differ k pss rs [] h = tt
heads_differ k pss rs (x ∷ xs) ((j, e, l, own, rest), hs) =
    ((λ same. omega arith), heads_differ k pss rs xs hs)

Has-suc : (k j : ℕ) (heap : List HeapItem) → Has (suc k + j) heap → Has (k + suc j) heap
Has-suc k j heap h = let e : suc k + j ≡ k + suc j = omega arith in subst (λ i. Has i heap) e h

IsFilled-none :
    (k : ℕ) (pss : List Stream) (rs : List RecordReader) (r : RecordReader) (heap : List HeapItem)
    → IsFilled (suc k) pss rs heap
    → IsFilled k ([] ∷ pss) (r ∷ rs) heap
IsFilled-none k pss rs r heap f = record {
  same_length = ap suc f.same_length;
  heads = heads_suc k pss rs [] r heap f.heads;
  distinct = f.distinct;
  covers = covers_none;
}
  where
    covers_none : (j : ℕ) → (get_or ([] ∷ pss) j [] ≡ []) ⊎ Has (k + j) heap
    covers_none zero = inl refl
    covers_none (suc j) = elim (f.covers j) [ inl e ↦ inl e | inr has ↦ inr (Has-suc k j heap has) ]

IsFilled-some :
    (k : ℕ) (name : List ℕ) (pss : List Stream) (rs : List RecordReader) (r : RecordReader)
    (heap : List HeapItem) (w : RawRecord) (t : TraceRecord) (ps : Stream)
    → Behind r ps
    → w.header ≡ header_at w.bytes
    → IsFilled (suc k) pss rs heap
    → IsFilled k
        (((w.bytes, t) ∷ ps) ∷ pss)
        (r ∷ rs)
        (record { source_name = name; input_index = k; raw_record = w } ∷ heap)
IsFilled-some k name pss rs r heap w t ps b own f = record {
  same_length = ap suc f.same_length;
  heads = (
    (0, omega arith, omega arith, own, (t, ps, refl, b)),
    heads_suc k pss rs ((w.bytes, t) ∷ ps) r heap f.heads,
  );
  distinct = (heads_differ k pss rs heap f.heads, f.distinct);
  covers = covers_some;
}
  where
    covers_some :
        (j : ℕ)
        → (get_or (((w.bytes, t) ∷ ps) ∷ pss) j [] ≡ [])
          ⊎ Has (k + j) (record { source_name = name; input_index = k; raw_record = w } ∷ heap)
    covers_some zero = inr (inl (omega arith))
    covers_some (suc j) = elim (f.covers j) [
      | inl e ↦ inl e
      | inr has ↦ inr (inr (Has-suc k j heap has))
    ]

module _ {E : Type 0} (binrw : Binrw E) where
  fill_heap-step :
      (k : ℕ) (names : List (List ℕ)) (r r' : RecordReader) (rs : List RecordReader)
      (x : Result (TraceError E) (Option RawRecord))
      (later : Result (TraceError E) (List HeapItem × List RecordReader))
      → next_record binrw r ≡ (x, r')
      → fill_heap binrw (suc k) names rs ≡ later
      → fill_heap binrw k names (r ∷ rs) ≡ fill_with binrw k (get_or names k []) x r' later
  unfolding fill_heap
  fill_heap-step k names r r' rs x later e l =
      ap
        (λ (o : Result (TraceError E) (Option RawRecord) × RecordReader).
          fill_with binrw k (get_or names k []) o.0 o.1 (fill_heap binrw (suc k) names rs))
        e
      ∙ ap (fill_with binrw k (get_or names k []) x r') l

  fill_heap-IsFilled :
      (k : ℕ) (names : List (List ℕ)) (rs : List RecordReader) (pss : List Stream)
      → AreBehind rs pss
      → (heap : List HeapItem) × (rs' : List RecordReader) × (fill_heap binrw k names rs
          ≡ ok (heap, rs'))
        × IsFilled k pss rs' heap
  unfolding fill_heap stream_bytes
  fill_heap-IsFilled k names [] [] h = (
    [],
    [],
    refl,
    record { same_length = refl; heads = tt; distinct = tt; covers = λ j. inl refl },
  )
  fill_heap-IsFilled k names [] (ps ∷ pss) h = absurd h
  fill_heap-IsFilled k names (r ∷ rs) [] h = absurd h
  fill_heap-IsFilled k names (r ∷ rs) ([] ∷ pss) ((st, c, good), hs) =
      let (heap, rs', e, f) = fill_heap-IsFilled (suc k) names rs pss hs in
      let (r', q, o) = next_record-end binrw r st c in
      (
        heap,
        r' ∷ rs',
        fill_heap-step k names r r' rs (ok none) _ q e,
        IsFilled-none k pss rs' r' heap f,
      )
  fill_heap-IsFilled k names (r ∷ rs) (((b, t) ∷ ps) ∷ pss) ((st, c, ((frame, shape), good)), hs) =
      let (heap, rs', e, f) = fill_heap-IsFilled (suc k) names rs pss hs in
      let (r', q, (o, c', st')) =
        next_record-record binrw r st b (stream_bytes ps) t c frame shape in
      (
        _,
        r' ∷ rs',
        fill_heap-step k names r r' rs (ok (some (raw b r.offset t))) _ q e,
        IsFilled-some k (get_or names k []) pss rs' r' heap (raw b r.offset t) t ps (st', c', good)
            refl f,
      )

  heads_zero :
      (pss : List Stream) (rs : List RecordReader) (heap : List HeapItem)
      → All (IsHeadFrom 0 pss rs) heap
      → All (IsHead pss rs) heap
  heads_zero pss rs [] h = tt
  heads_zero pss rs (x ∷ xs) ((j, e, l, own, (t, ps, g, b)), hs) =
      let same : j ≡ x.input_index = omega arith in
      (
        (
          omega arith,
          own,
          (
            t,
            ps,
            subst (λ i. get_or pss i [] ≡ (x.raw_record.bytes, t) ∷ ps) same g,
            subst (λ i. Behind (get_or rs i (new [])) ps) same b,
          ),
        ),
        heads_zero pss rs xs hs,
      )

  pub fill_heap-IsReady :
      (names : List (List ℕ)) (rs : List RecordReader) (pss : List Stream)
      → AreBehind rs pss
      → (heap : List HeapItem) × (rs' : List RecordReader) × (fill_heap binrw 0 names rs
          ≡ ok (heap, rs'))
        × IsReady pss rs' heap
  fill_heap-IsReady names rs pss h =
      let (heap, rs', e, f) = fill_heap-IsFilled 0 names rs pss h in
      (
        heap,
        rs',
        e,
        record {
          same_length = f.same_length;
          heads = heads_zero pss rs' heap f.heads;
          distinct = f.distinct;
          covers = λ j.
              let same : 0 + j ≡ j = omega arith in
              elim (f.covers j) [
                | inl e' ↦ inl e'
                | inr has ↦ inr (subst (λ i. Has i heap) same has)
              ];
        },
      )
