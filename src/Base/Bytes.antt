-- ===== src/Base/Bytes.antt =====
-- Little-endian unsigned integers as lists of bytes: `to_le_bytes` and `from_le_bytes`.
use Prim.Native.Nat.{ℕ, zero, suc, ◌+◌, ◌*◌, ◌/◌, ◌%◌, ◌^◌, ◌<◌}
use mathlib.Core.Path.{◌≡◌, refl}
use mathlib.Core.List.{List, [], ◌∷◌}
use native.Mathlib.Omega.{arith}
use native.Mathlib.Nat.{one-le-pow, pow-suc}
use gds_traces.Base.Lists.{get_or, slice, length, All, take, drop}

abbrev pub IsByte : ℕ → Type 0
IsByte b = b < 256

-- The `k` low bytes of `v`, lowest first.
unfoldable pub le_bytes : ℕ → ℕ → List ℕ
le_bytes zero v = []
le_bytes (suc k) v = (v % 256) ∷ le_bytes k (v / 256)

unfoldable pub from_le : List ℕ → ℕ
from_le [] = 0
from_le (b ∷ bs) = b + 256 * from_le bs

pub length-le_bytes : (k v : ℕ) → length (le_bytes k v) ≡ k
unfolding le_bytes
length-le_bytes zero v = refl
length-le_bytes (suc k) v = omega (arith, length-le_bytes k (v / 256))

pub le_bytes-IsByte : (k v : ℕ) → All IsByte (le_bytes k v)
unfolding le_bytes
le_bytes-IsByte zero v = tt
le_bytes-IsByte (suc k) v = (omega arith, le_bytes-IsByte k (v / 256))

pub from_le-le_bytes : (k v : ℕ) → v < 256 ^ k → from_le (le_bytes k v) ≡ v
unfolding le_bytes from_le
from_le-le_bytes zero v h = omega arith
from_le-le_bytes (suc k) v h =
    let small : v / 256 < 256 ^ k = omega (arith, pow-suc 256 k) in
    omega (arith, from_le-le_bytes k (v / 256) small)

pub from_le-lt : (bs : List ℕ) → All IsByte bs → from_le bs < 256 ^ length bs
unfolding from_le
from_le-lt [] h = omega arith
from_le-lt (b ∷ bs) (hb, hbs) = omega (arith, pow-suc 256 (length bs), from_le-lt bs hbs)

All-take : (n : ℕ) (bs : List ℕ) → All IsByte bs → All IsByte (take n bs)
All-take zero bs h = tt
All-take (suc n) [] h = tt
All-take (suc n) (b ∷ bs) (hb, hbs) = (hb, All-take n bs hbs)

All-drop : (n : ℕ) (bs : List ℕ) → All IsByte bs → All IsByte (drop n bs)
All-drop zero bs h = h
All-drop (suc n) [] h = tt
All-drop (suc n) (b ∷ bs) (hb, hbs) = All-drop n bs hbs

pub slice-IsByte : (bs : List ℕ) (i n : ℕ) → All IsByte bs → All IsByte (slice bs i n)
slice-IsByte bs i n h = All-take n (drop i bs) (All-drop i bs h)

from_le-take-lt : (k : ℕ) (bs : List ℕ) → All IsByte bs → from_le (take k bs) < 256 ^ k
unfolding from_le
from_le-take-lt zero bs h = omega arith
from_le-take-lt (suc k) [] h = one-le-pow (suc k) 256 (omega arith)
from_le-take-lt (suc k) (b ∷ bs) (hb, hbs) = omega (arith, pow-suc 256 k, from_le-take-lt k bs hbs)

-- `k` bytes hold a number below `256 ^ k`.
pub from_le-slice-lt : (k i : ℕ) (bs : List ℕ) → All IsByte bs → from_le (slice bs i k) < 256 ^ k
from_le-slice-lt k i bs h = from_le-take-lt k (drop i bs) (All-drop i bs h)

pub get_or-IsByte : (bs : List ℕ) (i : ℕ) → All IsByte bs → get_or bs i 0 < 256
get_or-IsByte [] i h = omega arith
get_or-IsByte (b ∷ bs) zero (hb, hbs) = hb
get_or-IsByte (b ∷ bs) (suc i) (hb, hbs) = get_or-IsByte bs i hbs
