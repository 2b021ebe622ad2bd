-- ===== src/Relay/Counting.antt =====
-- reproducer/relay-repro-client/src/main.rs, lines 217 to 233: what records add to the counts.
use gds_traces.Relay.Scanning.{add_records}
use gds_traces.Base.{
  ◌++◌, length, refl, List, Option, [], arith, if◌then◌else◌, leb, none, some, ℕ, ◌%◌, ◌&&◌, ◌+◌,
  ◌==◌, ◌^◌, ◌∷◌, ◌≡◌,
}
use gds_traces.Relay.{ScanState, add_record, ReproRec}

-- How often a record repeats the sub-buffer of the one before: its number is no greater, and its
-- fill is the same.
unfoldable pub repeats_behind : Option ReproRec → List ReproRec → ℕ
repeats_behind prev [] = 0
repeats_behind none (r ∷ rs) = repeats_behind (some r) rs
repeats_behind (some p) (r ∷ rs) =
    (if leb r.seq p.seq && (p.fill == r.fill) then 1 else 0) + repeats_behind (some r) rs

unfoldable pub repeats : List ReproRec → ℕ
unfolding repeats_behind
repeats rs = repeats_behind none rs

abbrev pub seq_of : Option ReproRec → Option ℕ
seq_of none = none
seq_of (some r) = some r.seq

abbrev pub fill_of : Option ReproRec → Option ℕ
fill_of none = none
fill_of (some r) = some r.fill

abbrev pub latest_of : Option ReproRec → List ReproRec → Option ReproRec
latest_of prev [] = prev
latest_of prev (r ∷ rs) = latest_of (some r) rs

-- The state behind some records, the last of them `prev`.
pub record IsBehind (prev : Option ReproRec) (n d : ℕ) (s : ScanState) : Type 0 where
  pub last_seq_of : s.last_seq ≡ seq_of prev
  pub last_toggle_of : s.last_toggle ≡ fill_of prev
  pub total_of : s.total ≡ n % 2 ^ 64
  pub dups_of : s.dups ≡ d % 2 ^ 64
  pub corruptions_of : s.corruptions ≡ 0

abbrev pub repeat_of : Option ReproRec → ReproRec → ℕ
repeat_of none r = 0
repeat_of (some p) r = if leb r.seq p.seq && (p.fill == r.fill) then 1 else 0

pub add_record-IsBehind :
    (prev : Option ReproRec) (n d : ℕ) (s : ScanState) (r : ReproRec)
    → IsBehind prev n d s
    → IsBehind (some r) (n + 1) (d + repeat_of prev r) (add_record r s)
unfolding add_record
add_record-IsBehind none n d s r b = ground arith
add_record-IsBehind (some p) n d s r b = ground arith

pub add_records-IsBehind :
    (rs : List ReproRec) (prev : Option ReproRec) (n d : ℕ) (s : ScanState)
    → IsBehind prev n d s
    → IsBehind (latest_of prev rs) (n + length rs) (d + repeats_behind prev rs) (add_records rs s)
unfolding add_records repeats_behind
add_records-IsBehind [] prev n d s b =
    let same : n + 0 ≡ n = omega arith in
    let none_more : d + 0 ≡ d = omega arith in rw same (rw none_more b)
add_records-IsBehind (r ∷ rs) none n d s b =
    let more =
      add_records-IsBehind rs (some r) (n + 1) (d + 0) (add_record r s)
        (add_record-IsBehind none n d s r b) in
    record {
      last_seq_of = more.last_seq_of;
      last_toggle_of = more.last_toggle_of;
      total_of = omega (arith, more.total_of);
      dups_of = omega (arith, more.dups_of);
      corruptions_of = more.corruptions_of;
    }
add_records-IsBehind (r ∷ rs) (some p) n d s b =
    let more =
      add_records-IsBehind rs (some r) (n + 1) (d + repeat_of (some p) r) (add_record r s)
        (add_record-IsBehind (some p) n d s r b) in
    record {
      last_seq_of = more.last_seq_of;
      last_toggle_of = more.last_toggle_of;
      total_of = omega (arith, more.total_of);
      dups_of = omega (arith, more.dups_of);
      corruptions_of = more.corruptions_of;
    }

pub latest_of-append :
    (prev : Option ReproRec) (xs ys : List ReproRec)
    → latest_of prev (xs ++ ys) ≡ latest_of (latest_of prev xs) ys
latest_of-append prev [] ys = refl
latest_of-append prev (x ∷ xs) ys = latest_of-append (some x) xs ys

pub repeats_behind-append :
    (prev : Option ReproRec) (xs ys : List ReproRec)
    → repeats_behind prev (xs ++ ys)
      ≡ repeats_behind prev xs + repeats_behind (latest_of prev xs) ys
unfolding repeats_behind
repeats_behind-append prev [] ys = omega arith
repeats_behind-append none (x ∷ xs) ys = repeats_behind-append (some x) xs ys
repeats_behind-append (some p) (x ∷ xs) ys = omega (arith, repeats_behind-append (some x) xs ys)
