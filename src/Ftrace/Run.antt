-- ===== src/Ftrace/Run.antt =====
-- Rust code that may panic, run on fuel.
use gds_traces.Base.{
  Bool, List, Option, arith, false, get_or, if◌then◌else◌, leb, length, le→leb, ltb, lt→ltb, none,
  slice, some, true, ◌+◌, ◌<◌, ◌^◌, ◌≡◌, ◌≤◌, ℕ,
}

-- `panic` is an index out of range; `out_of_fuel` has no counterpart in the program.
pub data Run {ℓ} (A : Type ℓ) : Type ℓ where
  done : A → Run A
  panic out_of_fuel : Run A

infixl 5 ◌>>=◌
abbrev pub ◌>>=◌ {ℓ κ} : {A : Type ℓ} {B : Type κ} → Run A → (A → Run B) → Run B
done a >>= f = f a
panic >>= f = panic
out_of_fuel >>= f = out_of_fuel

-- `&data[i..i + n]`
unfoldable pub range : List ℕ → ℕ → ℕ → Run (List ℕ)
range bytes i n = if leb (i + n) (length bytes) then done (slice bytes i n) else panic

-- `data[i]`
unfoldable pub index : List ℕ → ℕ → Run ℕ
index bytes i = if ltb i (length bytes) then done (get_or bytes i 0) else panic

-- `usize::checked_add`
abbrev pub checked_add : ℕ → ℕ → Option ℕ
checked_add a b = if ltb (a + b) (2 ^ 64) then some (a + b) else none

-- `a.checked_add(b).filter(|&end| end <= limit)`
unfoldable pub end_within : ℕ → ℕ → ℕ → Bool
end_within a b limit = elim (checked_add a b) [ none ↦ false | some end ↦ leb end limit ]

pub range-done :
    (bytes : List ℕ) (i n : ℕ) → i + n ≤ length bytes → range bytes i n ≡ done (slice bytes i n)
unfolding range
range-done bytes i n h = rw (le→leb (i + n) (length bytes) h)

pub index-done :
    (bytes : List ℕ) (i : ℕ) → i < length bytes → index bytes i ≡ done (get_or bytes i 0)
unfolding index
index-done bytes i h = rw (lt→ltb i (length bytes) h)

pub end_within→le : (a b limit : ℕ) → end_within a b limit ≡ true → a + b ≤ limit
unfolding end_within
end_within→le a b limit h = ground arith

pub le→end_within : (a b limit : ℕ) → limit < 2 ^ 64 → a + b ≤ limit → end_within a b limit ≡ true
unfolding end_within
le→end_within a b limit h k = ground arith
