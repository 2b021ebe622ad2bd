-- ===== src/Analyze/Samples.antt =====
-- tracing/nvme-trace/src/analyze.rs, lines 306 to 341: the samples of `queue-depth`.
use Prim.Native.Nat.mul
-- The rows that `write_depth_sample` writes: the depth of all queues, or of one.
use gds_traces.Analyze.Depth.{QueueDepthState, depth_of}
use gds_traces.Ftrace.Run.{checked_add}
use gds_traces.Base.{
  ap, subst, Bool-cases, arith, inl, inr, lt→ltb, refl, ◌≤◌, Bool, List, Option, [], false,
  if◌then◌else◌, ltb, none, some, suc, true, zero, ℕ, ◌&&◌, ◌*◌, ◌++◌, ◌+◌, ◌-◌, ◌<◌, ◌==◌, ◌^◌,
  ◌||◌, ◌∷◌, ◌≡◌, ◌⊎◌,
}
use gds_traces.Analyze.Keys.{QueueKey, queue_key, command_key}

pub data Row : Type 0 where
  global_row : ℕ → ℕ → Row
  queue_row : ℕ → QueueKey → ℕ → Row

unfoldable pub queue_rows : ℕ → QueueDepthState → List QueueKey → List Row
queue_rows time_ns s [] = []
queue_rows time_ns s (q ∷ qs) = queue_row time_ns q (depth_of s q) ∷ queue_rows time_ns s qs

unfoldable pub write_depth_sample : ℕ → QueueDepthState → List Row
write_depth_sample time_ns s =
    global_row time_ns s.global_depth ∷ queue_rows time_ns s s.known_queues

-- The test of the loop: a sample is due before the limit, or at it.
abbrev pub is_due : ℕ → ℕ → Bool → Bool
is_due next_sample limit include_limit =
    ltb next_sample limit || (include_limit && (next_sample == limit))

abbrev append_rows : List Row → Option (List Row × ℕ) → Option (List Row × ℕ)
append_rows rows none = none
append_rows rows (some (more, following)) = some (rows ++ more, following)

-- The rows written, and `next_sample` behind the loop. On fuel; `none` when it runs out.
unfoldable pub emit_due_samples : ℕ → QueueDepthState → ℕ → ℕ → ℕ → Bool → Option (List Row × ℕ)
emit_due_samples zero s scale_ns next_sample limit include_limit = none
emit_due_samples (suc fuel) s scale_ns next_sample limit include_limit =
    let rows = write_depth_sample next_sample s in
    let rest = emit_due_samples fuel s scale_ns (next_sample + scale_ns) limit include_limit in
    if is_due next_sample limit include_limit
    then (elim (checked_add next_sample scale_ns) [
      | none ↦ some (rows, next_sample)
      | some following ↦ append_rows rows rest
    ])
    else some ([], next_sample)

-- `n` samples of one state, from `next_sample` on.
unfoldable pub samples : ℕ → QueueDepthState → ℕ → ℕ → List Row
samples zero s scale_ns next_sample = []
samples (suc n) s scale_ns next_sample =
    write_depth_sample next_sample s ++ samples n s scale_ns (next_sample + scale_ns)

-- What a run of the loop from `next_sample` gives: `n` samples, each due, and the next one not.
abbrev pub Emits : QueueDepthState → ℕ → ℕ → ℕ → Bool → Option (List Row × ℕ) → Type 0
Emits s scale_ns next_sample limit include_limit out =
    (n : ℕ) × (out ≡ some (samples n s scale_ns next_sample, next_sample + n * scale_ns))
    × (is_due (next_sample + n * scale_ns) limit include_limit ≡ false)
    × ((n ≡ 0) ⊎ (is_due (next_sample + (n - 1) * scale_ns) limit include_limit ≡ true))

pub suc_steps : (t k n : ℕ) → t + k + n * k ≡ t + suc n * k
suc_steps t k n = rw mul.suc (omega arith)

-- Let the scale be positive, and the limit with the scale in 64 bits. On fuel for two rounds more
-- than lie between the next sample and the limit, the loop ends, and writes the samples at each
-- step of the scale from the next one on: all that are due, and no other.
pub emit_due_samples-Emits :
    (fuel : ℕ) (s : QueueDepthState) (scale_ns next_sample limit : ℕ) (include_limit : Bool)
    → 0 < scale_ns
    → limit + scale_ns < 2 ^ 64
    → suc limit - next_sample < fuel
    → Emits s scale_ns next_sample limit include_limit
        (emit_due_samples fuel s scale_ns next_sample limit include_limit)
unfolding emit_due_samples samples
emit_due_samples-Emits zero s scale_ns next_sample limit include_limit h room f =
    absurd (omega arith)
emit_due_samples-Emits (suc fuel) s scale_ns next_sample limit include_limit h room f =
    elim (Bool-cases (is_due next_sample limit include_limit)) [
      | inr late ↦
          let here : next_sample + 0 * scale_ns ≡ next_sample = omega arith in
          (0, rw late (rw here), rw here late, inl refl)
      | inl due ↦
          let before : next_sample ≤ limit = ground arith in
          let (n, e, late, last) =
            emit_due_samples-Emits fuel s scale_ns (next_sample + scale_ns) limit include_limit h
              room (omega arith) in
          let small = lt→ltb (next_sample + scale_ns) (2 ^ 64) (omega arith) in
          let later = suc_steps next_sample scale_ns n in
          let rows = write_depth_sample next_sample s in
          (
            suc n,
            rw due (
                rw small (
                  rw e (
                    ap (λ k. some (rows ++ samples n s scale_ns (next_sample + scale_ns), k))
                      later))),
            subst (λ k. is_due k limit include_limit ≡ false) later late,
            inr (last_due n last due),
          )
    ]
  where
    last_due :
        (n : ℕ)
        → (n ≡ 0)
          ⊎ (is_due (next_sample + scale_ns + (n - 1) * scale_ns) limit include_limit ≡ true)
        → is_due next_sample limit include_limit ≡ true
        → is_due (next_sample + (suc n - 1) * scale_ns) limit include_limit ≡ true
    last_due zero l due =
        let here : next_sample ≡ next_sample + 0 * scale_ns = omega arith in
        subst (λ k. is_due k limit include_limit ≡ true) here due
    last_due (suc n) (inl never) due = absurd (omega arith)
    last_due (suc n) (inr l) due =
        let a : suc n - 1 ≡ n = omega arith in
        let b : suc (suc n) - 1 ≡ suc n = omega arith in
        rw b (
          subst (λ k. is_due k limit include_limit ≡ true) (suc_steps next_sample scale_ns n)
            (rw a at l))
