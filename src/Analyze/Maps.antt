-- ===== src/Analyze/Maps.antt =====
-- Maps and sets as association lists: those of the standard library that analyze.rs and lib.rs
-- use. A `BTreeMap` keeps its keys in their order, so a new key is put before the first greater
-- one.
use gds_traces.Base.{
  arith, not, suc, ◌&&◌, Bool, List, Option, Ordering, [], false, if◌then◌else◌, none, refl, some,
  true, ◌||◌, ◌↔◌, ◌∷◌, ◌≡◌, ℕ,
}
use Prim.Native.Nat.{lt, eq, gt}

-- A key type: its order, and what equality of keys is.
pub record Key (K : Type 0) : Type 0 where
  pub cmp : K → K → Ordering
  pub cmp_iff : (a b : K) → (cmp a b ≡ eq) ↔ (a ≡ b)

abbrev pub is_eq : Ordering → Bool
is_eq lt = false
is_eq eq = true
is_eq gt = false

abbrev pub is_lt : Ordering → Bool
is_lt lt = true
is_lt eq = false
is_lt gt = false

abbrev pub key_eq : {K : Type 0} ⦃key : Key K⦄ → K → K → Bool
key_eq ⦃key⦄ a b = is_eq (key.cmp a b)

module _ {K : Type 0} ⦃key : Key K⦄ where
  pub key_eq→eq : (a b : K) → key_eq a b ≡ true → a ≡ b
  key_eq→eq a b h = (key.cmp_iff a b).0 (is_eq→eq (key.cmp a b) h)
    where
      is_eq→eq : (o : Ordering) → is_eq o ≡ true → o ≡ eq
      is_eq→eq lt p = cc
      is_eq→eq eq p = refl
      is_eq→eq gt p = cc

  pub key_eq_refl : (a : K) → key_eq a a ≡ true
  key_eq_refl a = rw ((key.cmp_iff a a).1 refl)

  pub eq→key_eq : (a b : K) → a ≡ b → key_eq a b ≡ true
  eq→key_eq a b e = rw ((key.cmp_iff a b).1 e)

  module _ {V : Type 0} where
    -- `map.get(&k).copied()`
    unfoldable pub lookup : K → List (K × V) → Option V
    lookup k [] = none
    lookup k ((j, v) ∷ m) = if key_eq j k then some v else lookup k m

    abbrev pub has_key : K → List (K × V) → Bool
    has_key k m = elim (lookup k m) [ none ↦ false | some v ↦ true ]

    -- `map.insert(k, v)`, and `*map.entry(k).or_default() = v`: an old value is replaced, where it
    -- is, and a new key goes before the first greater one.
    unfoldable pub insert : K → V → List (K × V) → List (K × V)
    insert k v [] = (k, v) ∷ []
    insert k v ((j, w) ∷ m) =
        if key_eq j k
        then (k, v) ∷ m
        else if is_lt (key.cmp k j) && not (has_key k m)
        then (k, v) ∷ (j, w) ∷ m
        else (j, w) ∷ insert k v m

    -- `map.remove(&k)`; a map has a key once at most.
    unfoldable pub remove : K → List (K × V) → List (K × V)
    remove k [] = []
    remove k ((j, w) ∷ m) = if key_eq j k then remove k m else (j, w) ∷ remove k m

    pub lookup-insert :
        (k j : K) (v : V) (m : List (K × V))
        → lookup j (insert k v m) ≡ (if key_eq k j then some v else lookup j m)
    unfolding lookup insert
    lookup-insert k j v [] = refl
    lookup-insert k j v ((i, w) ∷ m) =
        ground (arith, key.cmp_iff i k, key.cmp_iff i j, key.cmp_iff k j, lookup-insert k j v m)

    pub lookup-remove :
        (k j : K) (m : List (K × V))
        → lookup j (remove k m) ≡ (if key_eq k j then none else lookup j m)
    unfolding lookup remove
    lookup-remove k j [] = ground arith
    lookup-remove k j ((i, w) ∷ m) =
        ground (arith, key.cmp_iff i k, key.cmp_iff i j, key.cmp_iff k j, lookup-remove k j m)

  -- A set: `contains`, `insert` and `remove`.
  unfoldable pub contains : K → List K → Bool
  contains k [] = false
  contains k (j ∷ s) = key_eq j k || contains k s

  unfoldable pub set_insert : K → List K → List K
  set_insert k [] = k ∷ []
  set_insert k (j ∷ s) =
      if key_eq j k then j ∷ s else if is_lt (key.cmp k j) then k ∷ j ∷ s else j ∷ set_insert k s

  unfoldable pub set_remove : K → List K → List K
  set_remove k [] = []
  set_remove k (j ∷ s) = if key_eq j k then s else j ∷ set_remove k s

  pub contains-set_insert :
      (k j : K) (s : List K) → contains j (set_insert k s) ≡ (key_eq k j || contains j s)
  unfolding contains set_insert
  contains-set_insert k j [] = refl
  contains-set_insert k j (i ∷ s) =
      ground (arith, key.cmp_iff i k, key.cmp_iff i j, key.cmp_iff k j, contains-set_insert k j s)

  -- The number of keys of a set for which `p` holds.
  unfoldable pub count_if : (K → Bool) → List K → ℕ
  count_if p [] = 0
  count_if p (j ∷ s) = if p j then suc (count_if p s) else count_if p s

  pub count_if-set_insert :
      (p : K → Bool) (k : K) (s : List K)
      → contains k s ≡ false
      → count_if p (set_insert k s) ≡ (if p k then suc (count_if p s) else count_if p s)
  unfolding contains set_insert count_if
  count_if-set_insert p k [] h = refl
  count_if-set_insert p k (i ∷ s) h = ground (arith, count_if-set_insert p k s)

  pub count_if-set_remove :
      (p : K → Bool) (k : K) (s : List K)
      → contains k s ≡ true
      → count_if p s
        ≡ (if p k then suc (count_if p (set_remove k s)) else count_if p (set_remove k s))
  unfolding contains set_remove count_if
  count_if-set_remove p k [] h = cc
  count_if-set_remove p k (i ∷ s) h = ground (arith, key.cmp_iff i k, count_if-set_remove p k s)

  -- A set has each key once.
  unfoldable pub has_dup : List K → Bool
  has_dup [] = false
  has_dup (j ∷ s) = contains j s || has_dup s

  pub has_dup-set_insert :
      (k : K) (s : List K)
      → contains k s ≡ false
      → has_dup s ≡ false
      → has_dup (set_insert k s) ≡ false
  unfolding contains set_insert has_dup
  has_dup-set_insert k [] h d = refl
  has_dup-set_insert k (i ∷ s) h d =
      ground
        (arith, key.cmp_iff i k, key.cmp_iff k i, contains-set_insert k i s, has_dup-set_insert k s)

  contains-set_remove_le :
      (k j : K) (s : List K) → contains j (set_remove k s) ≡ true → contains j s ≡ true
  unfolding contains set_remove
  contains-set_remove_le k j [] h = h
  contains-set_remove_le k j (i ∷ s) h = ground (arith, contains-set_remove_le k j s)

  pub contains-set_remove :
      (k j : K) (s : List K)
      → has_dup s ≡ false
      → contains j (set_remove k s) ≡ (not (key_eq k j) && contains j s)
  unfolding contains set_remove has_dup
  contains-set_remove k j [] d = ground arith
  contains-set_remove k j (i ∷ s) d =
      ground (arith, key.cmp_iff i k, key.cmp_iff i j, key.cmp_iff k j, contains-set_remove k j s)

  pub has_dup-set_remove :
      (k : K) (s : List K) → has_dup s ≡ false → has_dup (set_remove k s) ≡ false
  unfolding set_remove has_dup
  has_dup-set_remove k [] d = d
  has_dup-set_remove k (i ∷ s) d =
      ground (arith, contains-set_remove_le k i s, has_dup-set_remove k s)
