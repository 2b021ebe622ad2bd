-- ===== src/Analyze/Stretches.antt =====
-- Stretches of samples between two records, put together.
use gds_traces.Format.Types.{TraceRecord}
use gds_traces.Analyze.Depth.{QueueDepthState, apply_record, apply_records}
use gds_traces.Analyze.Samples.{is_due, samples, write_depth_sample}
use gds_traces.Analyze.Timeline.{
  IsSorted, offset_of, timeline, timeline-add, timeline-future, timeline-past, until,
}
use gds_traces.Base.{
  List, [], ap, arith, false, inl, inr, refl, suc, true, zero, ℕ, ◌*◌, ◌++◌, ◌+◌, ◌-◌, ◌<◌, ◌∷◌,
  ◌≡◌, ◌≤◌, ◌⊎◌,
}
use Prim.Native.Nat.mul
use native.Mathlib.Nat.{add-mul}
use gds_traces.Analyze.Keys.{queue_key, command_key}

-- The last sample that is due, as a bound on the next one.
pub due_within :
    (n scale_ns t limit : ℕ)
    → (n ≡ 0) ⊎ (is_due (t + (n - 1) * scale_ns) limit true ≡ true)
    → (n ≡ 0) ⊎ (t + n * scale_ns ≤ limit + scale_ns)
due_within zero scale_ns t limit h = inl refl
due_within (suc n) scale_ns t limit (inl e) = absurd (omega arith)
due_within (suc n) scale_ns t limit (inr h) =
    let a : suc n - 1 ≡ n = omega arith in
    let h' : is_due (t + n * scale_ns) limit true ≡ true = rw a at h in
    inr (rw mul.suc (ground arith))

pub due_before :
    (n scale_ns t limit : ℕ)
    → (n ≡ 0) ⊎ (is_due (t + (n - 1) * scale_ns) limit false ≡ true)
    → (n ≡ 0) ⊎ (t + n * scale_ns < limit + scale_ns)
due_before zero scale_ns t limit h = inl refl
due_before (suc n) scale_ns t limit (inl e) = absurd (omega arith)
due_before (suc n) scale_ns t limit (inr h) =
    let a : suc n - 1 ≡ n = omega arith in
    let h' : is_due (t + n * scale_ns) limit false ≡ true = rw a at h in
    inr (rw mul.suc (ground arith))

-- A bound on a stretch that may be empty.
pub strict : (n x y z : ℕ) → x < y → (n ≡ 0) ⊎ (z ≤ x) → (n ≡ 0) ⊎ (z < y)
strict n x y z l (inl e) = inl e
strict n x y z l (inr h) = inr (omega arith)

module _ (scale_ns : ℕ) where
  pub timeline-nil :
      (n t : ℕ) (s : QueueDepthState) (base : ℕ)
      → timeline n scale_ns t s base [] ≡ samples n s scale_ns t
  unfolding timeline samples until apply_records
  timeline-nil zero t s base = refl
  timeline-nil (suc n) t s base =
      ap (λ x. write_depth_sample t s ++ x) (timeline-nil n (t + scale_ns) s base)

  -- The end of three stretches of samples, by the last one that is not empty.
  pub three_stretches :
      (n1 n2 n3 t c o last : ℕ)
      → c < o
      → o ≤ last
      → (n1 ≡ 0) ⊎ (t + n1 * scale_ns ≤ c + scale_ns)
      → (n2 ≡ 0) ⊎ (t + n1 * scale_ns + n2 * scale_ns < o + scale_ns)
      → (n3 ≡ 0) ⊎ (t + n1 * scale_ns + n2 * scale_ns + n3 * scale_ns ≤ last + scale_ns)
      → (n1 + (n2 + n3) ≡ 0) ⊎ (t + (n1 + (n2 + n3)) * scale_ns ≤ last + scale_ns)
  three_stretches n1 n2 n3 t c o last l m h1 h2 (inr h3) =
      inr (rw (add-mul n1 (n2 + n3) scale_ns) (rw (add-mul n2 n3 scale_ns) (omega arith)))
  three_stretches n1 n2 n3 t c o last l m h1 (inr h2) (inl e3) =
      inr (rw e3 (rw (add-mul n1 (n2 + 0) scale_ns) (rw (add-mul n2 0 scale_ns) (omega arith))))
  three_stretches n1 n2 n3 t c o last l m (inr h1) (inl e2) (inl e3) =
      inr (rw e2 (rw e3 (rw (add-mul n1 (0 + 0) scale_ns) (omega arith))))
  three_stretches n1 n2 n3 t c o last l m (inl e1) (inl e2) (inl e3) = inl (omega arith)

  -- The samples before a record are of the state as it is, those behind it of the state with it.
  pub timeline-three :
      (n1 n2 n3 t : ℕ) (s : QueueDepthState) (base : ℕ) (r : TraceRecord) (rs : List TraceRecord)
      → IsSorted base (offset_of base r) rs
      → (n1 ≡ 0) ⊎ (t + n1 * scale_ns < offset_of base r + scale_ns)
      → (n2 ≡ 0) ⊎ (t + n1 * scale_ns + n2 * scale_ns < offset_of base r + scale_ns)
      → offset_of base r ≤ t + n1 * scale_ns + n2 * scale_ns
      → timeline (n1 + (n2 + n3)) scale_ns t s base (r ∷ rs)
        ≡ samples n1 s scale_ns t
          ++ (samples n2 s scale_ns (t + n1 * scale_ns)
              ++ timeline n3 scale_ns
                  (t + n1 * scale_ns + n2 * scale_ns)
                  (apply_record r s).0
                  base
                  rs)
  timeline-three n1 n2 n3 t s base r rs sorted b1 b2 reached =
      let all : IsSorted base (offset_of base r) (r ∷ rs) = (omega arith, sorted) in
      let first = timeline-future n1 scale_ns t s base (offset_of base r) (r ∷ rs) all b1 in
      let second =
        timeline-future n2 scale_ns (t + n1 * scale_ns) s base (offset_of base r) (r ∷ rs) all b2 in
      let third =
        timeline-past n3 scale_ns (t + n1 * scale_ns + n2 * scale_ns) s base r rs reached in
      let inner = timeline-add n2 n3 scale_ns (t + n1 * scale_ns) s base (r ∷ rs) in
      rw (timeline-add n1 (n2 + n3) scale_ns t s base (r ∷ rs))
        (rw first (rw inner (rw second (rw third))))
