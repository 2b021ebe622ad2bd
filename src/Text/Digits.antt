-- ===== src/Text/Digits.antt =====
-- `parse` of an unsigned integer below a bound: an optional `+`, and at least one digit. A step
-- that overflows the type fails, as the checked multiplication and addition do.
use gds_traces.Text.Affix.{Text}
use gds_traces.Base.{
  refl, ◌≤◌, Bool, Option, [], arith, if◌then◌else◌, leb, le→leb, ltb, lt→ltb, none, some, true, ℕ,
  ◌&&◌, ◌*◌, ◌+◌, ◌-◌, ◌<◌, ◌==◌, ◌∷◌, ◌≡◌,
}

unfoldable pub is_digit : ℕ → Bool
is_digit b = leb b'0' b && leb b b'9'

-- `suffix.bytes().all(|byte| byte.is_ascii_digit())`
unfoldable pub all_digits : Text → Bool
unfolding is_digit
all_digits [] = true
all_digits (b ∷ bs) = is_digit b && all_digits bs

unfoldable pub parse_digits : ℕ → ℕ → Text → Option ℕ
unfolding is_digit
parse_digits bound value [] = some value
parse_digits bound value (b ∷ bs) =
    if is_digit b && ltb (value * 10 + (b - b'0')) bound
    then parse_digits bound (value * 10 + (b - b'0')) bs
    else none

abbrev pub some_digits : ℕ → Text → Option ℕ
some_digits bound [] = none
some_digits bound (b ∷ bs) = parse_digits bound 0 (b ∷ bs)

unfoldable pub parse_unsigned : ℕ → Text → Option ℕ
unfolding parse_digits
parse_unsigned bound [] = none
parse_unsigned bound (b ∷ bs) =
    if b == b'+' then some_digits bound bs else some_digits bound (b ∷ bs)

pub parse_digits-step :
    (bound value d : ℕ) (text : Text)
    → d < 10
    → value * 10 + d < bound
    → parse_digits bound value ((b'0' + d) ∷ text) ≡ parse_digits bound (value * 10 + d) text
unfolding parse_digits
parse_digits-step bound value d text small fits =
    let digit : 48 + d - 48 ≡ d = omega arith in
    rw (le→leb 48 (48 + d) (omega arith))
      (rw (le→leb (48 + d) 57 (omega arith)) (rw digit (rw (lt→ltb _ _ fits))))

pub parse_digits-lt :
    (bound value : ℕ) (text : Text) {n : ℕ}
    → value < bound
    → parse_digits bound value text ≡ some n
    → n < bound
unfolding parse_digits is_digit
parse_digits-lt bound value [] small h = ground arith
parse_digits-lt bound value (b ∷ bs) {n} small h =
    ground (arith, parse_digits-lt bound (value * 10 + (b - b'0')) bs {n = n})

-- The number that digits are behind the value of those before them.
unfoldable pub digits_value : ℕ → Text → ℕ
digits_value value [] = value
digits_value value (b ∷ bs) = digits_value (value * 10 + (b - b'0')) bs

digits_value-grows : (value : ℕ) (text : Text) → value ≤ digits_value value text
unfolding digits_value
digits_value-grows value [] = omega arith
digits_value-grows value (b ∷ bs) = omega (arith, digits_value-grows (value * 10 + (b - b'0')) bs)

pub parse_digits-digits_value :
    (bound value : ℕ) (text : Text)
    → all_digits text ≡ true
    → digits_value value text < bound
    → parse_digits bound value text ≡ some (digits_value value text)
unfolding parse_digits all_digits digits_value
parse_digits-digits_value bound value [] digits fits = refl
parse_digits-digits_value bound value (b ∷ bs) digits fits =
    let grows = digits_value-grows (value * 10 + (b - b'0')) bs in
    ground (arith, parse_digits-digits_value bound (value * 10 + (b - b'0')) bs)

pub parse_digits-is_value :
    (bound value : ℕ) (text : Text) {n : ℕ}
    → parse_digits bound value text ≡ some n
    → digits_value value text ≡ n
unfolding parse_digits digits_value
parse_digits-is_value bound value [] {n} h = ground arith
parse_digits-is_value bound value (b ∷ bs) {n} h =
    ground (arith, parse_digits-is_value bound (value * 10 + (b - b'0')) bs {n = n})
