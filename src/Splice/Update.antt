-- ===== src/Splice/Update.antt =====
-- Lists with one element replaced, and the readers of a merge as such (lib.rs, line 466).
use gds_traces.Reader.Loop.{Stream}
use gds_traces.Splice.Merge.{next_at}
use gds_traces.Format.Types.{TraceRecord}
use gds_traces.Format.Readers.{Binrw}
use gds_traces.Reader.Records.{RecordReader, next_record}
use gds_traces.Base.{
  List, [], ap, arith, get_or, length, refl, some, suc, zero, ℕ, ◌+◌, ◌<◌, ◌∷◌, ◌≡◌, ◌≢◌,
}

module _ {A : Type 0} where
  unfoldable pub set_at : ℕ → A → List A → List A
  set_at i v [] = []
  set_at zero v (x ∷ xs) = v ∷ xs
  set_at (suc i) v (x ∷ xs) = x ∷ set_at i v xs

  pub length-set_at : (i : ℕ) (v : A) (xs : List A) → length (set_at i v xs) ≡ length xs
  unfolding set_at
  length-set_at i v [] = refl
  length-set_at zero v (x ∷ xs) = refl
  length-set_at (suc i) v (x ∷ xs) = ap suc (length-set_at i v xs)

  pub get_or-set_at_same :
      (i : ℕ) (v d : A) (xs : List A) → i < length xs → get_or (set_at i v xs) i d ≡ v
  unfolding set_at
  get_or-set_at_same i v d [] h = absurd (omega arith)
  get_or-set_at_same zero v d (x ∷ xs) h = refl
  get_or-set_at_same (suc i) v d (x ∷ xs) h = get_or-set_at_same i v d xs (omega arith)

  pub get_or-set_at_other :
      (i j : ℕ) (v d : A) (xs : List A) → i ≢ j → get_or (set_at i v xs) j d ≡ get_or xs j d
  unfolding set_at
  get_or-set_at_other i j v d [] h = refl
  get_or-set_at_other zero zero v d (x ∷ xs) h = absurd (h refl)
  get_or-set_at_other zero (suc j) v d (x ∷ xs) h = refl
  get_or-set_at_other (suc i) zero v d (x ∷ xs) h = refl
  get_or-set_at_other (suc i) (suc j) v d (x ∷ xs) h =
      get_or-set_at_other i j v d xs (λ e. h (ap suc e))

pub next_at-set_at :
    {E : Type 0} (binrw : Binrw E) (i : ℕ) (rs : List RecordReader) (d : RecordReader)
    → i < length rs
    → next_at binrw i rs
      ≡ some
          ((next_record binrw (get_or rs i d)).0, set_at i (next_record binrw (get_or rs i d)).1 rs)
unfolding next_at set_at
next_at-set_at binrw i [] d h = absurd (omega arith)
next_at-set_at binrw zero (r ∷ rs) d h = refl
next_at-set_at binrw (suc i) (r ∷ rs) d h = rw (next_at-set_at binrw i rs d (omega arith))

-- The records of several streams.
unfoldable pub total_length : List Stream → ℕ
total_length [] = 0
total_length (ps ∷ pss) = length ps + total_length pss

pub total_length-set_at :
    (i : ℕ) (p : List ℕ × TraceRecord) (ps : Stream) (pss : List Stream)
    → get_or pss i [] ≡ p ∷ ps
    → suc (total_length (set_at i ps pss)) ≡ total_length pss
unfolding total_length set_at
total_length-set_at i p ps [] e = cc
total_length-set_at zero p ps (qs ∷ pss) e = let n = ap length e in omega arith
total_length-set_at (suc i) p ps (qs ∷ pss) e = omega (arith, total_length-set_at i p ps pss e)
