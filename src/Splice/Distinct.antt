-- ===== src/Splice/Distinct.antt =====
-- Heaps with one item of each reader at most.
use gds_traces.Analyze.Maps.{is_lt}
use gds_traces.Splice.Heap.{HeapItem, Popped, greatest, item_cmp, pop, pop-Popped}
use gds_traces.Base.{
  All, Bool-cases, List, Option, [], inl, inr, none, some, sym, ℕ, ◌∷◌, ◌≡◌, ◌≢◌, ◌⊎◌,
}

abbrev pub Distinct : List HeapItem → Type 0
Distinct [] = Unit
Distinct (x ∷ xs) = All (λ y. y.input_index ≢ x.input_index) xs × Distinct xs

-- The heap has an item of the reader `i`.
abbrev pub Has : ℕ → List HeapItem → Type 0
Has i [] = ⊥
Has i (x ∷ xs) = (x.input_index ≡ i) ⊎ Has i xs

abbrev pub PopsDistinct : List HeapItem → Option (HeapItem × List HeapItem) → Type 0
PopsDistinct heap none = (i : ℕ) → ¬ Has i heap
PopsDistinct heap (some (item, rest)) =
    All (λ y. y.input_index ≢ item.input_index) rest
    × Distinct rest
    × ((i : ℕ) → Has i heap → (item.input_index ≡ i) ⊎ Has i rest)

greatest-PopsDistinct :
    (x : HeapItem) (xs : List HeapItem) (o : Option (HeapItem × List HeapItem))
    → Popped (λ y. y.input_index ≢ x.input_index) xs o
    → PopsDistinct xs o
    → PopsDistinct (x ∷ xs) (some (greatest x o))
greatest-PopsDistinct x xs none p h =
    (tt, tt, λ i m. elim m [ inl e ↦ inl e | inr m' ↦ absurd (h i m') ])
greatest-PopsDistinct x xs (some (y, ys)) (n, py, pys) (d, ds, m) =
    elim (Bool-cases (is_lt (item_cmp x y))) [
      | inl below ↦ rw below (
        ((λ e. py (sym e)), d),
        (pys, ds),
        λ i k. elim k [
          | inl e ↦ inr (inl e)
          | inr k' ↦ elim (m i k') [ inl e ↦ inl e | inr k'' ↦ inr (inr k'') ]
        ],
      )
      | inr above ↦ rw above (
        (py, pys),
        (d, ds),
        λ i k. elim k [
          | inl e ↦ inl e
          | inr k' ↦ elim (m i k') [ inl e ↦ inr (inl e) | inr k'' ↦ inr (inr k'') ]
        ],
      )
    ]

pub pop-PopsDistinct : (heap : List HeapItem) → Distinct heap → PopsDistinct heap (pop heap)
unfolding pop
pop-PopsDistinct [] h = λ i m. m
pop-PopsDistinct (x ∷ xs) (h, hs) =
    greatest-PopsDistinct x xs (pop xs) (pop-Popped (λ y. y.input_index ≢ x.input_index) xs h)
      (pop-PopsDistinct xs hs)
