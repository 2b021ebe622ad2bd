-- ===== src/Splice/Total.antt =====
-- tracing/nvme-trace/src/lib.rs, lines 432 to 476: how a merge ends, and its count of bytes.
use gds_traces.Reader.Records.{next_record, RecordReader}
use gds_traces.Base.Outcome.{err, ok, Result}
use gds_traces.Reader.Source.{contents}
use gds_traces.Reader.Cost.{cost, next_record-cost}
use gds_traces.Format.Readers.{Binrw}
use gds_traces.Splice.Heap.{Popped, pop, pop-Popped, HeapItem}
use gds_traces.Format.Types.{RawRecord, TraceError}
use gds_traces.Base.{
  get_or, inl, inr, All, List, Option, [], arith, length, length-append, none, refl, some, suc,
  zero, ℕ, ◌%◌, ◌+◌, ◌<◌, ◌^◌, ◌∷◌, ◌≡◌, ◌≤◌, ◌⊎◌,
}
use gds_traces.Splice.Merge.{
  Turn, ends, fill_heap, fill_with, goes, merge_start, splice_streams_with_names, splice_turn,
  take_next, turn_with, Merged, SpliceState, failed, finished, next_at, splice_loop, write_item,
}

-- The bytes that the readers still have.
unfoldable pub bytes_left : List RecordReader → ℕ
bytes_left [] = 0
bytes_left (r ∷ rs) = length (contents r.inner) + bytes_left rs

-- Each item of the heap comes from one of the readers.
abbrev pub InRange : ℕ → HeapItem → Type 0
InRange n item = item.input_index < n

-- The count is that of the bytes written, in 64 bits.
abbrev pub IsCounted : SpliceState → Type 0
IsCounted s = s.written ≡ length s.output % 2 ^ 64

-- A merge that ends, with the count or with an error of a reader.
abbrev pub Ends : {E : Type 0} → Merged E × SpliceState → Type 0
Ends {E} out =
    IsCounted out.1 × ((out.0 ≡ finished out.1.written) ⊎ ((e : TraceError E) × (out.0 ≡ failed e)))

All-map :
    (P Q : HeapItem → Type 0) (items : List HeapItem)
    → ((x : HeapItem) → P x → Q x)
    → All P items
    → All Q items
All-map P Q [] f h = tt
All-map P Q (x ∷ xs) f (h, hs) = (f x h, All-map P Q xs f hs)

write_item-IsCounted :
    (item : HeapItem) (rest : List HeapItem) (s : SpliceState)
    → IsCounted s
    → IsCounted (write_item item rest s)
unfolding write_item
write_item-IsCounted item rest s h =
    let bytes = item.raw_record.bytes in omega (arith, length-append s.output bytes)

module _ {E : Type 0} (binrw : Binrw E) where
  -- What `next_at` gives within range: the readers are as many, and have what the result left.
  abbrev Turns :
      List RecordReader
      → Option (Result (TraceError E) (Option RawRecord) × List RecordReader)
      → Type 0
  Turns rs none = ⊥
  Turns rs (some (x, rs')) =
      (length rs' ≡ length rs) × (cost binrw x + bytes_left rs' ≤ bytes_left rs)

  Turns-later :
      (r : RecordReader) (rs : List RecordReader)
      (o : Option (Result (TraceError E) (Option RawRecord) × List RecordReader))
      → Turns rs o
      → Turns (r ∷ rs) (elim o [ none ↦ none | some (x, rs') ↦ some (x, r ∷ rs') ])
  unfolding bytes_left
  Turns-later r rs none h = h
  Turns-later r rs (some (x, rs')) (n, b) = (omega arith, omega arith)

  next_at-Turns : (i : ℕ) (rs : List RecordReader) → i < length rs → Turns rs (next_at binrw i rs)
  unfolding next_at bytes_left
  next_at-Turns i [] h = absurd (omega arith)
  next_at-Turns zero (r ∷ rs) h = (refl, omega (arith, next_record-cost binrw r))
  next_at-Turns (suc i) (r ∷ rs) h =
      Turns-later r rs (next_at binrw i rs) (next_at-Turns i rs (omega arith))

  abbrev measure : SpliceState → ℕ
  measure s = length s.heap + bytes_left s.readers

  abbrev IsMergeable : SpliceState → Type 0
  IsMergeable s = All (InRange (length s.readers)) s.heap × IsCounted s

  -- A round ends the merge well, or leaves less to do.
  abbrev Advances : ℕ → Turn E → Type 0
  Advances n (ends m s') = Ends (m, s')
  Advances n (goes s') = IsMergeable s' × (measure s' < n)

  take_next-Advances :
      (n : ℕ) (item : HeapItem) (s : SpliceState)
      (o : Option (Result (TraceError E) (Option RawRecord) × List RecordReader))
      → IsMergeable s
      → InRange (length s.readers) item
      → suc (measure s) ≤ n
      → Turns s.readers o
      → Advances n (take_next binrw item s o)
  take_next-Advances n item s none (h, c) i m t = absurd t
  take_next-Advances n item s (some (err e, rs)) (h, c) i m (k, b) = (c, inr (e, refl))
  take_next-Advances n item s (some (ok none, rs)) (h, c) i m (k, b) =
      ((All-map _ _ s.heap (λ x p. omega arith) h, c), omega arith)
  take_next-Advances n item s (some (ok (some w), rs)) (h, c) i m (k, b) =
      (((omega arith, All-map _ _ s.heap (λ x p. omega arith) h), c), omega arith)

  turn_with-Advances :
      (s : SpliceState) (o : Option (HeapItem × List HeapItem))
      → IsMergeable s
      → Popped (InRange (length s.readers)) s.heap o
      → Advances (measure s) (turn_with binrw s o)
  unfolding write_item
  turn_with-Advances s none (h, c) p = (c, inl refl)
  turn_with-Advances s (some (item, rest)) (h, c) (n, i, hs) =
      take_next-Advances (measure s) item (write_item item rest s) _
        (hs, write_item-IsCounted item rest s c) i (omega arith)
        (next_at-Turns item.input_index s.readers i)

  splice_turn-Advances :
      (s : SpliceState) → IsMergeable s → Advances (measure s) (splice_turn binrw s)
  unfolding splice_turn
  splice_turn-Advances s (h, c) =
      turn_with-Advances s (pop s.heap) (h, c) (pop-Popped (InRange (length s.readers)) s.heap h)

  pub splice_loop-Ends :
      (fuel : ℕ) (s : SpliceState)
      → All (InRange (length s.readers)) s.heap
      → IsCounted s
      → length s.heap + bytes_left s.readers < fuel
      → Ends (splice_loop binrw fuel s)
  unfolding splice_loop
  splice_loop-Ends zero s h c f = absurd (omega arith)
  splice_loop-Ends (suc fuel) s h c f =
      go (splice_turn binrw s) (splice_turn-Advances s (h, c))
        λ s' m less. splice_loop-Ends fuel s' m.0 m.1 (omega arith)
    where
      go :
          (t : Turn E)
          → Advances (measure s) t
          → ((s' : SpliceState)
              → IsMergeable s'
              → measure s' < measure s
              → Ends (splice_loop binrw fuel s'))
          → Ends {E = E} (elim t [ ends m s' ↦ (m, s') | goes s' ↦ splice_loop binrw fuel s' ])
      go (ends m s') a ih = a
      go (goes s') (m, less) ih = ih s' m less

  abbrev Filled :
      ℕ → List RecordReader → Result (TraceError E) (List HeapItem × List RecordReader) → Type 0
  Filled i rs (err e) = Unit
  Filled i rs (ok (heap, rs')) =
      (length rs' ≡ length rs)
      × (length heap + bytes_left rs' ≤ bytes_left rs)
      × All (InRange (i + length rs)) heap

  fill_heap-Filled :
      (i : ℕ) (names : List (List ℕ)) (rs : List RecordReader)
      → Filled i rs (fill_heap binrw i names rs)
  unfolding fill_heap bytes_left
  fill_heap-Filled i names [] = (refl, omega arith, tt)
  fill_heap-Filled i names (r ∷ rs) =
      go (next_record binrw r).0 (next_record-cost binrw r) (fill_heap binrw (suc i) names rs)
        (fill_heap-Filled (suc i) names rs)
    where
      go :
          (x : Result (TraceError E) (Option RawRecord))
          → cost binrw x + length (contents (next_record binrw r).1.inner)
            ≤ length (contents r.inner)
          → (later : Result (TraceError E) (List HeapItem × List RecordReader))
          → Filled (suc i) rs later
          → Filled i
              (r ∷ rs)
              (fill_with binrw i (get_or names i []) x (next_record binrw r).1 later)
      go (err e) h later l = tt
      go (ok none) h (err e) l = tt
      go (ok none) h (ok (heap, rs')) (n, b, a) =
          (omega arith, omega arith, All-map _ _ heap (λ x p. omega arith) a)
      go (ok (some w)) h (err e) l = tt
      go (ok (some w)) h (ok (heap, rs')) (n, b, a) =
          (omega arith, omega arith, (omega arith, All-map _ _ heap (λ x p. omega arith) a))

  pub splice_streams_with_names-Ends :
      (fuel : ℕ) (rs : List RecordReader) (names : List (List ℕ))
      → bytes_left rs < fuel
      → Ends (splice_streams_with_names binrw fuel rs names)
  unfolding splice_streams_with_names
  splice_streams_with_names-Ends fuel rs names f =
      go (fill_heap binrw 0 names rs) (fill_heap-Filled 0 names rs)
    where
      go :
          (x : Result (TraceError E) (List HeapItem × List RecordReader))
          → Filled 0 rs x
          → Ends {E = E} (elim x [
            | err e ↦ (failed e, merge_start binrw [] rs)
            | ok (heap, rs') ↦ splice_loop binrw fuel (merge_start binrw heap rs')
          ])
      go (err e) l = (refl, inr (e, refl))
      go (ok (heap, rs')) (n, b, a) =
          splice_loop-Ends fuel (merge_start binrw heap rs')
            (All-map _ _ heap (λ x p. omega arith) a) refl (omega arith)
