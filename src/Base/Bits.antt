-- ===== src/Base/Bits.antt =====
-- `(q << k) | r` where `r` has at most `k` bits. The fuel `n` is that of the recursion on binary
-- digits which the native operation stands for.
use Prim.Native.Nat.{
  ℕ, zero, suc, ◌+◌, ◌*◌, ◌/◌, ◌^◌, ◌≤◌, ◌<◌, max, digits, bit_or, bit_or-bitwise,
}
use mathlib.Core.Path.{◌≡◌, refl, ap, ◌∙◌}
use native.Mathlib.Nat.{pow-suc}
use native.Mathlib.Omega.{arith}

abbrev or_digits : ℕ → ℕ → ℕ → ℕ
or_digits n a r = digits (λ y. y) max n a r

or_digits-zero : (n a : ℕ) → a ≤ n → or_digits n a 0 ≡ a
or_digits-zero zero zero h = refl
or_digits-zero zero (suc a) h = absurd (omega arith)
or_digits-zero (suc n) zero h = refl
or_digits-zero (suc n) (suc a) h = omega (arith, or_digits-zero n (suc a / 2) (omega arith))

or_digits-disjoint : (k n q r a : ℕ) → a ≡ q * 2 ^ k → r < 2 ^ k → a ≤ n → or_digits n a r ≡ a + r
or_digits-disjoint zero n q r a e h l =
    let none_left : r ≡ 0 = omega arith in rw none_left (or_digits-zero n a l ∙ omega arith)
or_digits-disjoint (suc k) zero q r zero e h l = omega arith
or_digits-disjoint (suc k) (suc n) q r zero e h l = omega arith
or_digits-disjoint (suc k) zero q r (suc a) e h l = absurd (omega arith)
or_digits-disjoint (suc k) (suc n) q r (suc a) e h l =
    let doubled : q * 2 ^ suc k ≡ 2 * (q * 2 ^ k) =
      omega (arith, ap (λ (t : ℕ). q * t) (pow-suc 2 k)) in
    let halved : suc a / 2 ≡ q * 2 ^ k = omega arith in
    let low : r / 2 < 2 ^ k = omega (arith, pow-suc 2 k) in
    omega (arith, or_digits-disjoint k n q (r / 2) (suc a / 2) halved low (omega arith))

pub bit_or-disjoint : (k q r : ℕ) → r < 2 ^ k → bit_or (q * 2 ^ k) r ≡ q * 2 ^ k + r
bit_or-disjoint k q r h =
    bit_or-bitwise (q * 2 ^ k) r
    ∙ or_digits-disjoint k (q * 2 ^ k) q r (q * 2 ^ k) refl h (omega arith)
