-- ===== src/Splice/Interleave.antt =====
-- tracing/nvme-trace/src/lib.rs, lines 452 to 475: the merge of well-formed streams.
use gds_traces.Splice.Heap.{HeapItem}
use gds_traces.Splice.Distinct.{Distinct, Has}
use gds_traces.Reader.Records.{RecordReader, new}
use gds_traces.Format.Types.{RawRecord, TraceRecord}
use gds_traces.Reader.Source.{IsSteady, contents}
use gds_traces.Base.{
  ==→eq, ==→ne, All, Bool-cases, List, [], arith, get_or, inl, inr, length, subst, sym, ℕ, ◌<◌,
  ◌==◌, ◌∙◌, ◌∷◌, ◌≡◌, ◌≢◌, ◌⊎◌,
}
use gds_traces.Splice.Update.{get_or-set_at_other, get_or-set_at_same, length-set_at, set_at}
use gds_traces.Reader.Loop.{IsStream, Stream, stream_bytes}
use gds_traces.Format.Layout.{header_at}

-- What a reader has left is the stream `ps`.
abbrev pub Behind : RecordReader → Stream → Type 0
Behind r ps = IsSteady r.inner × (contents r.inner ≡ stream_bytes ps) × IsStream ps

-- The item is the first record of its stream, and its reader stands behind it.
abbrev pub IsHead : List Stream → List RecordReader → HeapItem → Type 0
IsHead pss rs item =
    (item.input_index < length rs)
    × (item.raw_record.header ≡ header_at item.raw_record.bytes)
    × ((t : TraceRecord) × (ps : Stream) × (get_or pss item.input_index []
          ≡ (item.raw_record.bytes, t) ∷ ps)
        × Behind (get_or rs item.input_index (new [])) ps)

-- The heap has the first record of each stream that is not at its end.
pub record IsReady (pss : List Stream) (rs : List RecordReader) (heap : List HeapItem)
    : Type 0 where
  pub same_length : length pss ≡ length rs
  pub heads : All (IsHead pss rs) heap
  pub distinct : Distinct heap
  pub covers : (i : ℕ) → (get_or pss i [] ≡ []) ⊎ Has i heap

-- The records of the streams, each stream in its own order.
pub data Interleaves : List Stream → List (List ℕ) → Type 0 where
  all_done : {pss : List Stream} → ((i : ℕ) → get_or pss i [] ≡ []) → Interleaves pss []
  takes :
      {pss : List Stream} (i : ℕ) (bytes : List ℕ) (t : TraceRecord) (ps : Stream)
      (out : List (List ℕ))
      → get_or pss i [] ≡ (bytes, t) ∷ ps
      → Interleaves (set_at i ps pss) out
      → Interleaves pss (bytes ∷ out)

heads_other :
    (pss : List Stream) (rs : List RecordReader) (i : ℕ) (ps : Stream) (r : RecordReader)
    (heap : List HeapItem)
    → All (λ y. y.input_index ≢ i) heap
    → All (IsHead pss rs) heap
    → All (IsHead (set_at i ps pss) (set_at i r rs)) heap
heads_other pss rs i ps r [] d h = tt
heads_other pss rs i ps r (y ∷ ys) (d, ds) ((k, own, (t, qs, e, b)), hs) =
    let differs : i ≢ y.input_index = λ same. d (sym same) in
    let p = get_or-set_at_other i y.input_index ps [] pss differs in
    let q = get_or-set_at_other i y.input_index r (new []) rs differs in
    (
      (
        omega (arith, length-set_at i r rs),
        own,
        (t, qs, p ∙ e, subst (λ x. Behind x qs) (sym q) b),
      ),
      heads_other pss rs i ps r ys ds hs,
    )

module _ (pss : List Stream) (rs : List RecordReader) (heap rest : List HeapItem) (item : HeapItem)
    (ready : IsReady pss rs heap) (d : All (λ y. y.input_index ≢ item.input_index) rest)
    (ds : Distinct rest) (m : (i : ℕ) → Has i heap → (item.input_index ≡ i) ⊎ Has i rest)
    (hs : All (IsHead pss rs) rest) (i_lt : item.input_index < length rs) where
  covers_other :
      (ps : Stream) (j : ℕ)
      → item.input_index ≢ j
      → (get_or (set_at item.input_index ps pss) j [] ≡ []) ⊎ Has j rest
  covers_other ps j differs = elim (ready.covers j) [
    | inl e ↦ inl (get_or-set_at_other item.input_index j ps [] pss differs ∙ e)
    | inr has ↦ elim (m j has) [ inl e ↦ absurd (differs e) | inr has' ↦ inr has' ]
  ]

  same_lengths :
      (ps : Stream) (r : RecordReader)
      → length (set_at item.input_index ps pss) ≡ length (set_at item.input_index r rs)
  same_lengths ps r = omega (
    arith,
    length-set_at item.input_index ps pss,
    length-set_at item.input_index r rs,
    ready.same_length,
  )

  pub IsReady-end :
      (r : RecordReader)
      → IsReady (set_at item.input_index [] pss) (set_at item.input_index r rs) rest
  IsReady-end r = record {
    same_length = same_lengths [] r;
    heads = heads_other pss rs item.input_index [] r rest d hs;
    distinct = ds;
    covers = λ j. elim (Bool-cases (item.input_index == j)) [
      | inl same ↦
          let e = ==→eq _ _ same in
          inl (
            subst (λ k. get_or (set_at item.input_index [] pss) k [] ≡ []) e
              (get_or-set_at_same item.input_index [] [] pss (omega (arith, ready.same_length))))
      | inr differs ↦ covers_other [] j (==→ne _ _ differs)
    ];
  }

  pub IsReady-next :
      (r : RecordReader) (w : RawRecord) (t : TraceRecord) (ps : Stream)
      → Behind r ps
      → w.header ≡ header_at w.bytes
      → IsReady
          (set_at item.input_index ((w.bytes, t) ∷ ps) pss)
          (set_at item.input_index r rs)
          (record item { raw_record = w } ∷ rest)
  IsReady-next r w t ps b own = record {
    same_length = same_lengths ((w.bytes, t) ∷ ps) r;
    heads = (
      (
        omega (arith, length-set_at item.input_index r rs),
        own,
        (
          t,
          ps,
          get_or-set_at_same item.input_index ((w.bytes, t) ∷ ps) [] pss
              (omega (arith, ready.same_length)),
          subst (λ x. Behind x ps) (sym (get_or-set_at_same item.input_index r (new []) rs i_lt)) b,
        ),
      ),
      heads_other pss rs item.input_index ((w.bytes, t) ∷ ps) r rest d hs,
    );
    distinct = (d, ds);
    covers = λ j. elim (Bool-cases (item.input_index == j)) [
      | inl same ↦ inr (inl (==→eq _ _ same))
      | inr differs ↦ elim (covers_other ((w.bytes, t) ∷ ps) j (==→ne _ _ differs)) [
        | inl e ↦ inl e
        | inr has ↦ inr (inr has)
      ]
    ];
  }
