-- ===== src/Inputs/Names.antt =====
-- tracing/nvme-trace/src/main.rs, lines 137 to 143: which names are those of processors' files,
-- and capture.rs, line 63, where they are made.
use gds_traces.Capture.Drain.{parsed}
use gds_traces.Text.Affix.{
  strip_prefix, strip_prefix-inverts, strip_suffix, strip_suffix-inverts, Text, codes, same_text,
  strip_prefix-append, strip_suffix-append,
}
use gds_traces.Base.{
  and_then-some, Bool-cases, Option, [], ap, arith, if◌then◌else◌, inl, inr, none, not, refl, some,
  sym, true, ℕ, ◌++◌, ◌<◌, ◌||◌, ◌↔◌, ◌∙◌, ◌∷◌, ◌≡◌, ◌≢◌,
}
use gds_traces.Text.Digits.{
  parse_digits-is_value, parse_digits-lt, all_digits, digits_value, parse_digits,
  parse_digits-digits_value, parse_unsigned,
}
use gds_traces.Text.Decimal.{
  decimal-all_digits, parse_unsigned-decimal, decimal, parse_unsigned-digits,
}
use gds_traces.Inputs.{parse_cpu_bin, u32_bound}

-- `format!("cpu{cpu}.bin")`
unfoldable pub cpu_bin_name : ℕ → Text
cpu_bin_name cpu = codes "cpu" ++ (decimal cpu ++ codes ".bin")

-- `cpu`, some digits whose value has 32 bits, and `.bin`.
pub record IsCpuName (name : Text) (n : ℕ) : Type 0 where
  pub digits : Text
  pub named : name ≡ codes "cpu" ++ (digits ++ codes ".bin")
  pub some_digit : digits ≢ []
  pub only_digits : all_digits digits ≡ true
  pub valued : digits_value 0 digits ≡ n
  pub fits : n < u32_bound

after_cpu : Text → Option ℕ
after_cpu suffix =
    if same_text suffix [] || not (all_digits suffix) then none else parse_unsigned u32_bound suffix

parse_cpu_bin-after_cpu :
    (digits : Text) → parse_cpu_bin (codes "cpu" ++ (digits ++ codes ".bin")) ≡ after_cpu digits
unfolding parse_cpu_bin after_cpu
parse_cpu_bin-after_cpu digits =
    rw (strip_prefix-append (codes "cpu") (digits ++ codes ".bin"))
      (rw (strip_suffix-append digits (codes ".bin")))

after_cpu-digits :
    (digits : Text)
    → digits ≢ []
    → all_digits digits ≡ true
    → after_cpu digits ≡ parse_unsigned u32_bound digits
unfolding after_cpu same_text
after_cpu-digits [] some_digit only = absurd (some_digit refl)
after_cpu-digits (b ∷ bs) some_digit only = rw only

after_cpu-value :
    (digits : Text)
    → digits ≢ []
    → all_digits digits ≡ true
    → digits_value 0 digits < u32_bound
    → after_cpu digits ≡ some (digits_value 0 digits)
after_cpu-value [] some_digit only small = absurd (some_digit refl)
after_cpu-value (b ∷ bs) some_digit only small =
    after_cpu-digits (b ∷ bs) some_digit only
    ∙ parse_unsigned-digits u32_bound (b ∷ bs) only
    ∙ parse_digits-digits_value u32_bound 0 (b ∷ bs) only small

after_cpu-inverts :
    (digits : Text) {n : ℕ}
    → after_cpu digits ≡ some n
    → (digits ≢ []) × (all_digits digits ≡ true) × (parse_digits u32_bound 0 digits ≡ some n)
unfolding after_cpu same_text
after_cpu-inverts [] h = cc
after_cpu-inverts (b ∷ bs) h = elim (Bool-cases (all_digits (b ∷ bs))) [
  | inl only ↦
      let parsed = rw only at h in
      (λ e. cc, only, sym (parse_unsigned-digits u32_bound (b ∷ bs) only) ∙ parsed)
  | inr other_byte ↦ absurd (ground arith)
]

parse_cpu_bin-IsCpuName : (name : Text) (n : ℕ) → parse_cpu_bin name ≡ some n → IsCpuName name n
unfolding parse_cpu_bin after_cpu
parse_cpu_bin-IsCpuName name n h =
    let (behind, front, inner) = and_then-some (strip_prefix (codes "cpu") name) _ h in
    let (digits, back, number) = and_then-some (strip_suffix (codes ".bin") behind) _ inner in
    let (some_digit, only, parsed) = after_cpu-inverts digits number in
    record {
      digits = digits;
      named =
          strip_prefix-inverts (codes "cpu") name front
          ∙ ap (λ t. codes "cpu" ++ t) (strip_suffix-inverts (codes ".bin") behind back);
      some_digit = some_digit;
      only_digits = only;
      valued = parse_digits-is_value u32_bound 0 digits parsed;
      fits = parse_digits-lt u32_bound 0 digits (omega arith) parsed;
    }

-- A name has a processor's number just if it is `cpu`, some digits whose value has 32 bits, and
-- `.bin`, and then the number is this value.
pub parse_cpu_bin_iff : (name : Text) (n : ℕ) → (parse_cpu_bin name ≡ some n) ↔ IsCpuName name n
parse_cpu_bin_iff name n = (
  parse_cpu_bin-IsCpuName name n,
  λ c. rw c.named (
      parse_cpu_bin-after_cpu c.digits
      ∙ after_cpu-value c.digits c.some_digit c.only_digits (rw c.valued c.fits)
      ∙ ap some c.valued),
)

decimal-nonempty : (n : ℕ) → n < u32_bound → decimal n ≢ []
unfolding parse_unsigned
decimal-nonempty n fits e = let parsed = rw e at (parse_unsigned-decimal u32_bound n fits) in cc

-- The name that a capture gives the file of a processor with a 32-bit number is read back as this
-- number.
pub parse_cpu_bin-cpu_bin_name : (n : ℕ) → n < u32_bound → parse_cpu_bin (cpu_bin_name n) ≡ some n
unfolding cpu_bin_name
parse_cpu_bin-cpu_bin_name n fits =
    parse_cpu_bin-after_cpu (decimal n)
    ∙ after_cpu-digits (decimal n) (λ e. decimal-nonempty n fits e) (decimal-all_digits n)
    ∙ parse_unsigned-decimal u32_bound n fits
