-- ===== src/Splice/Earliest.antt =====
-- tracing/nvme-trace/src/lib.rs, lines 495 to 501: the record that the heap gives first.
use gds_traces.Order.Compare.{record_order, reverse}
use gds_traces.Analyze.Maps.{is_lt}
use gds_traces.Order.Laws.{
  IsNumbered, IsUnnumbered, record_order-reverse, record_order-trans_numbered,
  record_order-trans_unnumbered, NotAfter,
}
use gds_traces.Format.Types.{Header}
use gds_traces.Splice.Heap.{Popped, greatest, pop, pop-Popped, HeapItem, item_cmp}
use gds_traces.Base.{
  Bool-cases, Ordering, [], ap, false, inl, inr, refl, true, ℕ, ◌∙◌, ◌∷◌, All, List, Option, none,
  some, ◌≡◌, ◌≢◌,
}
use Prim.Native.Nat.{lt, eq, gt}

abbrev pub header_of_item : HeapItem → Header
header_of_item item = item.raw_record.header

-- The item's record does not come behind any of the others'.
abbrev pub IsFirst : HeapItem → List HeapItem → Type 0
IsFirst item rest = All (λ other. NotAfter (header_of_item item) (header_of_item other)) rest

-- What `pop` gives: nothing, or an item whose record comes first.
abbrev pub PopsFirst : Option (HeapItem × List HeapItem) → Type 0
PopsFirst none = Unit
PopsFirst (some (item, rest)) = IsFirst item rest

below-NotAfter :
    (x y : HeapItem) → item_cmp x y ≡ lt → NotAfter (header_of_item y) (header_of_item x)
unfolding item_cmp
below-NotAfter x y e = λ h. cc (rw h at e)

above-NotAfter :
    (x y : HeapItem) → item_cmp x y ≢ lt → NotAfter (header_of_item x) (header_of_item y)
unfolding item_cmp
above-NotAfter x y e = λ h.
    let swapped : record_order (header_of_item y) (header_of_item x) ≡ lt =
      record_order-reverse (header_of_item x) (header_of_item y) ∙ ap reverse h in
    e (rw swapped refl)

is_lt→lt : (o : Ordering) → is_lt o ≡ true → o ≡ lt
is_lt→lt lt h = refl
is_lt→lt eq h = cc
is_lt→lt gt h = cc

is_lt→ne : (o : Ordering) → is_lt o ≡ false → o ≢ lt
is_lt→ne lt h = λ e. cc
is_lt→ne eq h = λ e. cc
is_lt→ne gt h = λ e. cc

-- On headers for which `NotAfter` is transitive.
module _ (P : Header → Type 0)
    (trans : (a b c : Header) → P a → P b → P c → NotAfter a b → NotAfter b c → NotAfter a c) where
  IsFirst-trans :
      (x y : HeapItem) (rest : List HeapItem)
      → P (header_of_item x)
      → P (header_of_item y)
      → All (λ i. P (header_of_item i)) rest
      → NotAfter (header_of_item x) (header_of_item y)
      → IsFirst y rest
      → IsFirst x rest
  IsFirst-trans x y [] px py pr l h = tt
  IsFirst-trans x y (z ∷ rest) px py (pz, pr) l (h, hs) = (
    trans (header_of_item x) (header_of_item y) (header_of_item z) px py pz l h,
    IsFirst-trans x y rest px py pr l hs,
  )

  greatest-PopsFirst :
      (x : HeapItem) (o : Option (HeapItem × List HeapItem)) (xs : List HeapItem)
      → P (header_of_item x)
      → Popped (λ i. P (header_of_item i)) xs o
      → PopsFirst o
      → PopsFirst (some (greatest x o))
  greatest-PopsFirst x none xs px p h = tt
  greatest-PopsFirst x (some (y, ys)) xs px (n, py, pys) h =
      elim (Bool-cases (is_lt (item_cmp x y))) [
        | inl below ↦ rw below (below-NotAfter x y (is_lt→lt _ below), h)
        | inr above ↦
            let l = above-NotAfter x y (is_lt→ne _ above) in
            rw above (l, IsFirst-trans x y ys px py pys l h)
      ]

  pub pop-PopsFirst :
      (heap : List HeapItem) → All (λ i. P (header_of_item i)) heap → PopsFirst (pop heap)
  unfolding pop
  pop-PopsFirst [] h = tt
  pop-PopsFirst (x ∷ xs) (px, pxs) =
      greatest-PopsFirst x (pop xs) xs px (pop-Popped (λ i. P (header_of_item i)) xs pxs)
        (pop-PopsFirst xs pxs)

-- On a heap of records without sequence numbers, as of ftrace captures, `pop` gives an item whose
-- record does not come behind that of any item left.
pub pop-PopsFirst_unnumbered :
    (heap : List HeapItem)
    → All (λ item. IsUnnumbered (header_of_item item)) heap
    → PopsFirst (pop heap)
pop-PopsFirst_unnumbered heap h = pop-PopsFirst IsUnnumbered record_order-trans_unnumbered heap h

-- On a heap of records of one controller that all have sequence numbers, as of a relay capture,
-- `pop` gives an item whose record does not come behind that of any item left.
pub pop-PopsFirst_numbered :
    (n : ℕ) (heap : List HeapItem)
    → All (λ item. IsNumbered n (header_of_item item)) heap
    → PopsFirst (pop heap)
pop-PopsFirst_numbered n heap h =
    pop-PopsFirst (IsNumbered n) (record_order-trans_numbered n) heap h
