-- ===== src/Splice/Heap.antt =====
-- tracing/nvme-trace/src/lib.rs, lines 434 to 443 and 478 to 507: the items of the heap and their
-- order. A `BinaryHeap` is a list, whose `pop` takes a greatest item; which one of several greatest
-- ones the standard library leaves open, and the first is taken here.

use gds_traces.Format.Types.{RawRecord}
use gds_traces.Analyze.Maps.{is_lt}
use gds_traces.Base.{
  Bool-cases, arith, inl, inr, All, List, Option, Ordering, [], compare, if◌then◌else◌, length,
  none, refl, some, suc, ℕ, ◌∷◌, ◌≡◌,
}
use gds_traces.Order.Compare.{record_order, then_with}
use Prim.Native.Nat.{lt, eq, gt}

-- A name is its bytes.
pub record HeapItem : Type 0 where
  pub source_name : List ℕ
  pub input_index : ℕ
  pub raw_record : RawRecord

-- The order of strings: byte by byte.
unfoldable pub bytes_cmp : List ℕ → List ℕ → Ordering
bytes_cmp [] [] = eq
bytes_cmp [] (b ∷ bs) = lt
bytes_cmp (a ∷ more) [] = gt
bytes_cmp (a ∷ more) (b ∷ bs) = then_with (compare a b) (bytes_cmp more bs)

-- `HeapItem::cmp`: the greatest item is the one whose record comes first.
unfoldable pub item_cmp : HeapItem → HeapItem → Ordering
item_cmp a b = then_with (record_order (b.raw_record.header) (a.raw_record.header)) (
    then_with (bytes_cmp b.source_name a.source_name)
      (compare b.raw_record.offset a.raw_record.offset))

abbrev pub greatest : HeapItem → Option (HeapItem × List HeapItem) → HeapItem × List HeapItem
greatest x none = (x, [])
greatest x (some (y, ys)) = if is_lt (item_cmp x y) then (y, x ∷ ys) else (x, y ∷ ys)

unfoldable pub pop : List HeapItem → Option (HeapItem × List HeapItem)
pop [] = none
pop (x ∷ xs) = some (greatest x (pop xs))

-- What `pop` gives: nothing of an empty heap, and else an item and the rest.
abbrev pub Popped : (HeapItem → Type 0) → List HeapItem → Option (HeapItem × List HeapItem) → Type 0
Popped P heap none = length heap ≡ 0
Popped P heap (some (item, rest)) = (length heap ≡ suc (length rest)) × P item × All P rest

greatest-Popped :
    (P : HeapItem → Type 0) (x : HeapItem) (xs : List HeapItem)
    (o : Option (HeapItem × List HeapItem))
    → P x
    → Popped P xs o
    → Popped P (x ∷ xs) (some (greatest x o))
greatest-Popped P x xs none h e = (omega arith, h, tt)
greatest-Popped P x xs (some (y, ys)) h (e, hy, hys) = elim (Bool-cases (is_lt (item_cmp x y))) [
  | inl below ↦ rw below (omega arith, hy, (h, hys))
  | inr above ↦ rw above (omega arith, h, (hy, hys))
]

pub pop-Popped :
    (P : HeapItem → Type 0) (heap : List HeapItem) → All P heap → Popped P heap (pop heap)
unfolding pop
pop-Popped P [] h = refl
pop-Popped P (x ∷ xs) (h, hs) = greatest-Popped P x xs (pop xs) h (pop-Popped P xs hs)
