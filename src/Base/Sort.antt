-- ===== src/Base/Sort.antt =====
-- `sort_by_key`: a stable sort, over the comparison of two items.
use Prim.Native.Nat.{lt, eq, gt, Ordering}
use mathlib.Core.Path.{◌≡◌, refl}
use mathlib.Core.Logic.{◌≢◌}
use mathlib.Core.List.{List, [], ◌∷◌, Perm}
use mathlib.Core.List.Perm

module _ {ℓ} {A : Type ℓ} (cmp : A → A → Ordering) where
  -- An item goes before the first that is not less, so that equal items keep their order.
  unfoldable pub place : Ordering → A → A → List A → List A → List A
  place gt x y ys more = y ∷ more
  place lt x y ys more = x ∷ y ∷ ys
  place eq x y ys more = x ∷ y ∷ ys

  unfoldable pub insert_sorted : A → List A → List A
  unfolding place
  insert_sorted x [] = x ∷ []
  insert_sorted x (y ∷ ys) = place (cmp x y) x y ys (insert_sorted x ys)

  unfoldable pub sort : List A → List A
  unfolding insert_sorted
  sort [] = []
  sort (x ∷ xs) = insert_sorted x (sort xs)

  -- No item is greater than the one behind it.
  abbrev pub IsOrdered : List A → Type 0
  IsOrdered [] = Unit
  IsOrdered (x ∷ []) = Unit
  IsOrdered (x ∷ y ∷ ys) = (cmp x y ≢ gt) × IsOrdered (y ∷ ys)

  -- The comparison holds in one of the two directions.
  abbrev pub IsConnex : Type ℓ
  IsConnex = (x y : A) → cmp x y ≡ gt → cmp y x ≢ gt

  HeadFits : A → List A → Type 0
  HeadFits x [] = Unit
  HeadFits x (y ∷ ys) = cmp x y ≢ gt

  IsOrdered-cons : (x : A) (ys : List A) → HeadFits x ys → IsOrdered ys → IsOrdered (x ∷ ys)
  unfolding HeadFits
  IsOrdered-cons x [] fits sorted = tt
  IsOrdered-cons x (y ∷ ys) fits sorted = (fits, sorted)

  IsOrdered-parts : (x : A) (ys : List A) → IsOrdered (x ∷ ys) → HeadFits x ys × IsOrdered ys
  unfolding HeadFits
  IsOrdered-parts x [] sorted = (tt, tt)
  IsOrdered-parts x (y ∷ ys) (fits, sorted) = (fits, sorted)

  place-HeadFits :
      (o : Ordering) (x y z : A) (ys more : List A)
      → cmp z y ≢ gt
      → cmp z x ≢ gt
      → HeadFits z (place o x y ys more)
  unfolding HeadFits place
  place-HeadFits lt x y z ys more below fits = fits
  place-HeadFits eq x y z ys more below fits = fits
  place-HeadFits gt x y z ys more below fits = below

  insert_sorted-HeadFits :
      (x z : A) (ys : List A) → HeadFits z ys → cmp z x ≢ gt → HeadFits z (insert_sorted x ys)
  unfolding insert_sorted
  insert_sorted-HeadFits x z [] fits below = unfold HeadFits in below
  insert_sorted-HeadFits x z (y ∷ ys) fits below =
      place-HeadFits (cmp x y) x y z ys (insert_sorted x ys) (unfold HeadFits in fits) below

  place-IsOrdered :
      (o : Ordering) (x y : A) (ys : List A)
      → cmp x y ≡ o
      → IsConnex
      → IsOrdered (y ∷ ys)
      → IsOrdered (insert_sorted x ys)
      → IsOrdered (place o x y ys (insert_sorted x ys))
  unfolding place
  place-IsOrdered lt x y ys e connex sorted more = (λ h. cc, sorted)
  place-IsOrdered eq x y ys e connex sorted more = (λ h. cc, sorted)
  place-IsOrdered gt x y ys e connex sorted more =
      IsOrdered-cons y (insert_sorted x ys)
        (insert_sorted-HeadFits x y ys (IsOrdered-parts y ys sorted).0 (connex x y e)) more

  insert_sorted-IsOrdered :
      IsConnex → (x : A) (ys : List A) → IsOrdered ys → IsOrdered (insert_sorted x ys)
  unfolding insert_sorted
  insert_sorted-IsOrdered connex x [] sorted = tt
  insert_sorted-IsOrdered connex x (y ∷ ys) sorted =
      place-IsOrdered (cmp x y) x y ys refl connex sorted
        (insert_sorted-IsOrdered connex x ys (IsOrdered-parts y ys sorted).1)

  pub sort-IsOrdered : IsConnex → (xs : List A) → IsOrdered (sort xs)
  unfolding sort
  sort-IsOrdered connex [] = tt
  sort-IsOrdered connex (x ∷ xs) =
      insert_sorted-IsOrdered connex x (sort xs) (sort-IsOrdered connex xs)

  place-Perm :
      (o : Ordering) (x y : A) (ys more : List A)
      → Perm more (x ∷ ys)
      → Perm (place o x y ys more) (x ∷ y ∷ ys)
  unfolding place
  place-Perm lt x y ys more same = Perm.rfl
  place-Perm eq x y ys more same = Perm.rfl
  place-Perm gt x y ys more same = Perm.trans (Perm.cons y same) (Perm.swap x y ys)

  insert_sorted-Perm : (x : A) (ys : List A) → Perm (insert_sorted x ys) (x ∷ ys)
  unfolding insert_sorted
  insert_sorted-Perm x [] = Perm.rfl
  insert_sorted-Perm x (y ∷ ys) =
      place-Perm (cmp x y) x y ys (insert_sorted x ys) (insert_sorted-Perm x ys)

  pub sort-Perm : (xs : List A) → Perm (sort xs) xs
  unfolding sort
  sort-Perm [] = Perm.rfl
  sort-Perm (x ∷ xs) = Perm.trans (insert_sorted-Perm x (sort xs)) (Perm.cons x (sort-Perm xs))
