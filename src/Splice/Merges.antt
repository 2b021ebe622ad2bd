-- ===== src/Splice/Merges.antt =====
-- tracing/nvme-trace/src/lib.rs, lines 452 to 475 and 495 to 501: what is taken from the heap, among
-- records whose order is transitive.
use gds_traces.Order.Compare.{record_order}
use gds_traces.Order.Laws.{NotAfter}
use gds_traces.Splice.Update.{set_at}
use gds_traces.Reader.Loop.{Stream}
use gds_traces.Reader.Records.{RecordReader}
use gds_traces.Format.Layout.{header_at}
use gds_traces.Base.{
  ap, some, ◌∙◌, ◌⊎◌, All, List, [], arith, get_or, inl, inr, subst, sym, ℕ, ◌∷◌, ◌≡◌,
}
use gds_traces.Format.Types.{Header, TraceRecord}
use gds_traces.Splice.Heap.{HeapItem, pop}
use gds_traces.Splice.Earliest.{pop-PopsFirst, IsFirst, PopsFirst, header_of_item}
use gds_traces.Splice.Interleave.{Interleaves, IsHead, IsReady, all_done, takes}
use gds_traces.Splice.Distinct.{Has}

-- What holds of the headers of the streams' first records.
abbrev pub HeadsAre : (Header → Type 0) → List Stream → Type 0
HeadsAre P pss =
    (j : ℕ) (b : List ℕ) (u : TraceRecord) (us : Stream)
    → get_or pss j [] ≡ (b, u) ∷ us
    → P (header_at b)

-- The record does not come behind the first one of any stream.
abbrev pub IsLeast : List Stream → List ℕ → Type 0
IsLeast pss bytes = HeadsAre (NotAfter (header_at bytes)) pss

-- An interleaving that takes a least record, where `P` holds of those to choose from.
pub data Merges (P : Header → Type 0) : List Stream → List (List ℕ) → Type 0 where
  all_merged : {pss : List Stream} → ((i : ℕ) → get_or pss i [] ≡ []) → Merges P pss []
  merges :
      {pss : List Stream} (i : ℕ) (bytes : List ℕ) (t : TraceRecord) (ps : Stream)
      (out : List (List ℕ))
      → get_or pss i [] ≡ (bytes, t) ∷ ps
      → (HeadsAre P pss → IsLeast pss bytes)
      → Merges P (set_at i ps pss) out
      → Merges P pss (bytes ∷ out)

pub Merges-Interleaves :
    (P : Header → Type 0) (pss : List Stream) (out : List (List ℕ))
    → Merges P pss out
    → Interleaves pss out
Merges-Interleaves P pss out (all_merged e) = all_done e
Merges-Interleaves P pss out (merges i bytes t ps more e least w) =
    takes i bytes t ps more e (Merges-Interleaves P (set_at i ps pss) more w)

NotAfter-refl : (h : Header) → NotAfter h h
unfolding record_order
NotAfter-refl h e = ground arith

-- The heap's items are first records, so `P` holds of them.
heads-All :
    (P : Header → Type 0) (pss : List Stream) (rs : List RecordReader) (heap : List HeapItem)
    → HeadsAre P pss
    → All (IsHead pss rs) heap
    → All (λ item. P (header_of_item item)) heap
heads-All P pss rs [] h hs = tt
heads-All P pss rs (x ∷ xs) h ((k, own, (t, ps, e, b)), hs) =
    (subst P (sym own) (h x.input_index x.raw_record.bytes t ps e), heads-All P pss rs xs h hs)

abbrev first_bytes : Stream → List ℕ
first_bytes [] = []
first_bytes ((b, u) ∷ us) = b

same_first :
    (pss : List Stream) (i j : ℕ) (a b : List ℕ) (t u : TraceRecord) (ps us : Stream)
    → get_or pss i [] ≡ (a, t) ∷ ps
    → i ≡ j
    → get_or pss j [] ≡ (b, u) ∷ us
    → a ≡ b
same_first pss i j a b t u ps us p same q =
    sym (ap first_bytes p) ∙ ap (λ k. first_bytes (get_or pss k [])) same ∙ ap first_bytes q

-- A record of the rest is not before the item's.
least-Has :
    (pss : List Stream) (rs : List RecordReader) (item : HeapItem) (rest : List HeapItem) (j : ℕ)
    (b : List ℕ) (u : TraceRecord) (us : Stream)
    → get_or pss j [] ≡ (b, u) ∷ us
    → Has j rest
    → IsFirst item rest
    → All (IsHead pss rs) rest
    → NotAfter (header_of_item item) (header_at b)
least-Has pss rs item [] j b u us e m first hs = absurd m
least-Has pss rs item (y ∷ ys) j b u us e (inl same) (f, fs) ((k, own, (t, ps, at, r)), hs) =
    subst (NotAfter (header_of_item item))
      (own ∙ ap header_at (same_first pss y.input_index j y.raw_record.bytes b t u ps us at same e))
      f
least-Has pss rs item (y ∷ ys) j b u us e (inr later) (f, fs) (h, hs) =
    least-Has pss rs item ys j b u us e later fs hs

module _ (P : Header → Type 0)
    (trans : (a b c : Header) → P a → P b → P c → NotAfter a b → NotAfter b c → NotAfter a c) where
  -- The record that a round writes is a least one.
  pub picked-IsLeast :
      (pss : List Stream) (rs : List RecordReader) (heap rest : List HeapItem) (item : HeapItem)
      → IsReady pss rs heap
      → pop heap ≡ some (item, rest)
      → ((i : ℕ) → Has i heap → (item.input_index ≡ i) ⊎ Has i rest)
      → IsHead pss rs item
      → All (IsHead pss rs) rest
      → HeadsAre P pss
      → IsLeast pss item.raw_record.bytes
  picked-IsLeast pss rs heap rest item state popped m (k, own, (t, ps, at, r)) hs alike j b u us e =
      let first : IsFirst item rest =
        subst PopsFirst popped
          (pop-PopsFirst P trans heap (heads-All P pss rs heap alike state.heads)) in
      elim (state.covers j) [
        | inl spent ↦ cc
        | inr there ↦ elim (m j there) [
          | inl same ↦
              let same_record =
                same_first pss item.input_index j item.raw_record.bytes b t u ps us at same e in
              subst (λ x. NotAfter (header_at item.raw_record.bytes) (header_at x)) same_record
                (NotAfter-refl (header_at item.raw_record.bytes))
          | inr later ↦
              subst (λ h. NotAfter h (header_at b)) own
                (least-Has pss rs item rest j b u us e later first hs)
        ]
      ]
