-- ===== src/Analyze/Timeline.antt =====
-- The samples of a sorted trace, said of the trace itself: at each step of the scale, the depths
-- that the records up to that time leave.

use gds_traces.Format.Types.{TraceRecord, record_header}
use gds_traces.Analyze.Samples.{Row, samples, suc_steps, write_depth_sample}
use gds_traces.Base.{
  List, [], ap, append_assoc, arith, if◌then◌else◌, inl, inr, leb, le→leb, lt→leb, refl, suc, sym,
  zero, ℕ, ◌*◌, ◌++◌, ◌+◌, ◌-◌, ◌<◌, ◌∙◌, ◌∷◌, ◌≡◌, ◌≤◌, ◌⊎◌,
}
use gds_traces.Analyze.Depth.{QueueDepthState, apply_record, apply_records}
use Prim.Native.Nat.mul
use gds_traces.Analyze.Keys.{queue_key, command_key}

abbrev pub offset_of : ℕ → TraceRecord → ℕ
offset_of base r = (record_header r).timestamp_ns - base

-- The records up to time `t`.
unfoldable pub until : ℕ → ℕ → List TraceRecord → List TraceRecord
until base t [] = []
until base t (r ∷ rs) = if leb (offset_of base r) t then r ∷ until base t rs else until base t rs

-- `n` samples from time `t` on, each of the state behind the records up to its time.
unfoldable pub timeline : ℕ → ℕ → ℕ → QueueDepthState → ℕ → List TraceRecord → List Row
timeline zero scale_ns t s base rs = []
timeline (suc n) scale_ns t s base rs =
    write_depth_sample t (apply_records (until base t rs) s)
    ++ timeline n scale_ns (t + scale_ns) s base rs

-- The records' offsets do not go backwards, and start at `c` or behind it.
abbrev pub IsSorted : ℕ → ℕ → List TraceRecord → Type 0
IsSorted base c [] = Unit
IsSorted base c (r ∷ rs) = (c ≤ offset_of base r) × IsSorted base (offset_of base r) rs

abbrev pub last_from : ℕ → ℕ → List TraceRecord → ℕ
last_from base c [] = c
last_from base c (r ∷ rs) = last_from base (offset_of base r) rs

pub last_from-le :
    (base c : ℕ) (rs : List TraceRecord) → IsSorted base c rs → c ≤ last_from base c rs
last_from-le base c [] h = omega arith
last_from-le base c (r ∷ rs) (h, hs) = omega (arith, last_from-le base (offset_of base r) rs hs)

until-later :
    (base c t : ℕ) (rs : List TraceRecord) → IsSorted base c rs → t < c → until base t rs ≡ []
unfolding until
until-later base c t [] h l = refl
until-later base c t (r ∷ rs) (h, hs) l =
    rw (lt→leb (offset_of base r) t (omega arith))
      (until-later base (offset_of base r) t rs hs (omega arith))

-- A record that is not behind the next sample is in every sample.
pub timeline-past :
    (n scale_ns t : ℕ) (s : QueueDepthState) (base : ℕ) (r : TraceRecord) (rs : List TraceRecord)
    → offset_of base r ≤ t
    → timeline n scale_ns t s base (r ∷ rs) ≡ timeline n scale_ns t (apply_record r s).0 base rs
unfolding timeline until apply_records
timeline-past zero scale_ns t s base r rs h = refl
timeline-past (suc n) scale_ns t s base r rs h = rw (le→leb (offset_of base r) t h) (
    ap (λ x. write_depth_sample t (apply_records (until base t rs) (apply_record r s).0) ++ x)
      (timeline-past n scale_ns (t + scale_ns) s base r rs (omega arith)))

-- Samples before the next record are of the state as it is.
pub timeline-future :
    (n scale_ns t : ℕ) (s : QueueDepthState) (base c : ℕ) (rs : List TraceRecord)
    → IsSorted base c rs
    → (n ≡ 0) ⊎ (t + n * scale_ns < c + scale_ns)
    → timeline n scale_ns t s base rs ≡ samples n s scale_ns t
unfolding timeline samples apply_records
timeline-future zero scale_ns t s base c rs h l = refl
timeline-future (suc n) scale_ns t s base c rs h (inl e) = absurd (omega arith)
timeline-future (suc n) scale_ns t s base c rs h (inr l) =
    let l' : t + (scale_ns + n * scale_ns) < c + scale_ns = rw mul.suc at l in
    rw (until-later base c t rs h (omega arith)) (
      ap (λ x. write_depth_sample t s ++ x)
        (timeline-future n scale_ns (t + scale_ns) s base c rs h (inr (omega arith))))

pub timeline-add :
    (a b scale_ns t : ℕ) (s : QueueDepthState) (base : ℕ) (rs : List TraceRecord)
    → timeline (a + b) scale_ns t s base rs
      ≡ timeline a scale_ns t s base rs ++ timeline b scale_ns (t + a * scale_ns) s base rs
unfolding timeline
timeline-add zero b scale_ns t s base rs =
    let e : t + 0 * scale_ns ≡ t = omega arith in let f : 0 + b ≡ b = omega arith in rw e (rw f)
timeline-add (suc a) b scale_ns t s base rs =
    let f : suc a + b ≡ suc (a + b) = omega arith in
    rw f (
      ap (λ x. write_depth_sample t (apply_records (until base t rs) s) ++ x)
        (timeline-add a b scale_ns (t + scale_ns) s base rs
          ∙ ap
              (λ k. timeline a scale_ns (t + scale_ns) s base rs ++ timeline b scale_ns k s base rs)
              (suc_steps t scale_ns a))
      ∙ sym (append_assoc (write_depth_sample t (apply_records (until base t rs) s)) _ _))
