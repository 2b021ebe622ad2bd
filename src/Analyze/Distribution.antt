-- ===== src/Analyze/Distribution.antt =====
-- Distributions, and the submissions among records: what the counts of analyze.rs are said by.

use gds_traces.Analyze.Percent.{tally}
use gds_traces.Format.Types.{TraceRecord, complete, submit}
use gds_traces.Analyze.Depth.{increment, unwrap_or_default}
use gds_traces.Analyze.Maps.{has_key, is_lt, Key, insert, key_eq, lookup}
use gds_traces.Base.{
  Option, refl, some, true, ◌<◌, ◌^◌, false, none, not, ◌&&◌, Bool-cases, List, [], arith,
  if◌then◌else◌, inl, inr, suc, ℕ, ◌+◌, ◌∷◌, ◌≡◌, ◌≤◌,
}
use gds_traces.Analyze.Keys.{QueueKey, from_header, queue, queue_key, command_key, depth_key}

-- The samples of a distribution.
unfoldable pub total : {K : Type 0} → List (K × ℕ) → ℕ
total [] = 0
total ((k, n) ∷ m) = n + total m

-- The submissions among the records, in all and to one queue.
abbrev pub submissions : List TraceRecord → ℕ
submissions [] = 0
submissions (submit r ∷ rs) = suc (submissions rs)
submissions (complete r ∷ rs) = submissions rs

abbrev pub submissions_to : QueueKey → List TraceRecord → ℕ
submissions_to q [] = 0
submissions_to q (submit r ∷ rs) =
    if key_eq (queue (from_header r.header)) q
    then suc (submissions_to q rs)
    else submissions_to q rs
submissions_to q (complete r ∷ rs) = submissions_to q rs

module _ {K : Type 0} ⦃key : Key K⦄ where
  lookup-le-total : (k : K) (m : List (K × ℕ)) → unwrap_or_default (lookup k m) ≤ total m
  unfolding lookup total
  lookup-le-total k [] = omega arith
  lookup-le-total k ((j, n) ∷ m) = elim (Bool-cases (key_eq j k)) [
    | inl same ↦ rw same (omega arith)
    | inr differs ↦ rw differs (omega (arith, lookup-le-total k m))
  ]

  has_key→none : (k : K) (m : List (K × ℕ)) → has_key k m ≡ false → lookup k m ≡ none
  has_key→none k m h = go (lookup k m) h
    where
      go : (o : Option ℕ) → (elim o [ none ↦ false | some v ↦ true ]) ≡ false → o ≡ none
      go none h = refl
      go (some v) h = cc

  total-insert :
      (k : K) (v : ℕ) (m : List (K × ℕ))
      → total (insert k v m) + unwrap_or_default (lookup k m) ≡ v + total m
  unfolding lookup insert total
  total-insert k v [] = omega arith
  total-insert k v ((j, w) ∷ m) = elim (Bool-cases (key_eq j k)) [
    | inl same ↦ rw same (omega arith)
    | inr differs ↦ elim (Bool-cases (is_lt (key.cmp k j) && not (has_key k m))) [
      | inl first ↦
          let absent = has_key→none k m (ground arith) in
          rw differs (rw first (rw absent (omega arith)))
      | inr later ↦ let rest = total-insert k v m in rw differs (rw later (omega arith))
    ]
  ]

  -- A tally adds one to the total, as long as it fits.
  pub total-tally :
      (k : K) (m : List (K × ℕ)) → suc (total m) < 2 ^ 64 → total (tally k m) ≡ suc (total m)
  total-tally k m room =
      let n = unwrap_or_default (lookup k m) in
      omega (arith, total-insert k (increment n) m, lookup-le-total k m)
