-- ===== src/Text/Decimal.antt =====
-- `{}` of an unsigned integer, and `parse` of what it prints.
use gds_traces.Text.Digits.{
  all_digits, is_digit, parse_digits, parse_digits-step, parse_unsigned, some_digits,
}
use gds_traces.Text.Affix.{Text}
use gds_traces.Base.{
  Bool-cases, [], ap, append-nil, append_assoc, arith, if◌then◌else◌, inl, inr, ltb, ltb→le, ltb→lt,
  refl, some, suc, sym, true, zero, ℕ, ◌%◌, ◌*◌, ◌++◌, ◌+◌, ◌/◌, ◌<◌, ◌∙◌, ◌∷◌, ◌≡◌,
}

unfoldable pub decimal_on : ℕ → ℕ → Text
decimal_on zero n = []
decimal_on (suc fuel) n =
    let front = decimal_on fuel (n / 10) in
    if ltb n 10 then (b'0' + n) ∷ [] else front ++ (b'0' + n % 10) ∷ []

-- A number has no more digits than its value and one.
unfoldable pub decimal : ℕ → Text
unfolding decimal_on
decimal n = decimal_on (suc n) n

parse_digits-decimal_on :
    (fuel bound n : ℕ) (text : Text)
    → n < fuel
    → n < bound
    → parse_digits bound 0 (decimal_on fuel n ++ text) ≡ parse_digits bound n text
unfolding decimal_on
parse_digits-decimal_on zero bound n text enough fits = absurd (omega arith)
parse_digits-decimal_on (suc fuel) bound n text enough fits = elim (Bool-cases (ltb n 10)) [
  | inl one ↦ rw one (
      let small = ltb→lt _ _ one in
      let whole : 0 * 10 + n ≡ n = omega arith in
      parse_digits-step bound 0 n text small (omega arith) ∙ rw whole)
  | inr more ↦
      let large = ltb→le _ _ more in
      let whole : n / 10 * 10 + n % 10 ≡ n = omega arith in
      rw more (
        rw (append_assoc (decimal_on fuel (n / 10)) ((b'0' + n % 10) ∷ []) text) (
          parse_digits-decimal_on fuel bound (n / 10) ((b'0' + n % 10) ∷ text) (omega arith)
            (omega arith)
          ∙ parse_digits-step bound (n / 10) (n % 10) text (omega arith) (omega arith)
          ∙ rw whole))
]

pub all_digits-append :
    (a b : Text) → all_digits a ≡ true → all_digits b ≡ true → all_digits (a ++ b) ≡ true
unfolding all_digits
all_digits-append [] b ha hb = hb
all_digits-append (x ∷ xs) b ha hb = ground (arith, all_digits-append xs b)

digit-all_digits : (d : ℕ) → d < 10 → all_digits ((b'0' + d) ∷ []) ≡ true
unfolding all_digits is_digit
digit-all_digits d h = ground arith

decimal_on-all_digits : (fuel n : ℕ) → all_digits (decimal_on fuel n) ≡ true
unfolding decimal_on
decimal_on-all_digits zero n = unfold all_digits in refl
decimal_on-all_digits (suc fuel) n = elim (Bool-cases (ltb n 10)) [
  | inl one ↦ rw one (digit-all_digits n (ltb→lt _ _ one))
  | inr more ↦ rw more (
      all_digits-append (decimal_on fuel (n / 10)) ((b'0' + n % 10) ∷ [])
        (decimal_on-all_digits fuel (n / 10)) (digit-all_digits (n % 10) (omega arith)))
]

pub decimal-all_digits : (n : ℕ) → all_digits (decimal n) ≡ true
unfolding decimal
decimal-all_digits n = decimal_on-all_digits (suc n) n

pub parse_digits-decimal : (bound n : ℕ) → n < bound → parse_digits bound 0 (decimal n) ≡ some n
unfolding decimal parse_digits
parse_digits-decimal bound n fits =
    ap (parse_digits bound 0) (sym (append-nil (decimal_on (suc n) n)))
    ∙ parse_digits-decimal_on (suc n) bound n [] (omega arith) fits

-- What starts with a digit has no sign.
pub parse_unsigned-digits :
    (bound : ℕ) (text : Text)
    → all_digits text ≡ true
    → parse_unsigned bound text ≡ some_digits bound text
unfolding parse_unsigned all_digits is_digit
parse_unsigned-digits bound [] h = refl
parse_unsigned-digits bound (b ∷ bs) h = ground arith

decimal_on-some_digits :
    (fuel bound n : ℕ)
    → 0 < fuel
    → some_digits bound (decimal_on fuel n) ≡ parse_digits bound 0 (decimal_on fuel n)
unfolding decimal_on
decimal_on-some_digits zero bound n h = absurd (omega arith)
decimal_on-some_digits (suc fuel) bound n h = elim (Bool-cases (ltb n 10)) [
  | inl one ↦ rw one
  | inr more ↦ rw more (two (decimal_on fuel (n / 10)))
]
  where
    two :
        (front : Text)
        → some_digits bound (front ++ (b'0' + n % 10) ∷ [])
          ≡ parse_digits bound 0 (front ++ (b'0' + n % 10) ∷ [])
    two [] = refl
    two (b ∷ bs) = refl

pub parse_unsigned-decimal : (bound n : ℕ) → n < bound → parse_unsigned bound (decimal n) ≡ some n
unfolding decimal
parse_unsigned-decimal bound n fits =
    parse_unsigned-digits bound (decimal n) (decimal-all_digits n)
    ∙ decimal_on-some_digits (suc n) bound n (omega arith)
    ∙ parse_digits-decimal bound n fits
