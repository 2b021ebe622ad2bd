-- ===== src/Session/Offsets.antt =====
-- tracing/nvme-trace/src/ftrace.rs, lines 283 to 315: what is read from a `format` file.
use gds_traces.Text.Decimal.{decimal, decimal-all_digits, parse_unsigned-decimal}
use gds_traces.Session.FormatFile.{
  answers, first_answer, format_field_offset, goes_on, line_answer, part_offset, usize_bound,
}
use gds_traces.Text.Affix.{Text, codes, same_text, strip_prefix, strip_prefix-append}
use gds_traces.Text.Words.{
  Lacks, before_sep, is_space, last, lines, split, split_whitespace, trim, trim_end, trim_start,
}
use gds_traces.Session.Declared.{
  Field, FormatLine, Free, IsField, IsFormatLine, IsLineText, StartsSuffix, decl_text,
  declared_offset, field_line, offset_part, other_line, print_field, print_format, print_line,
  token_text,
}
use gds_traces.Text.Digits.{is_digit, parse_unsigned}
use gds_traces.Text.Splitting.{
  Lacks-append, Lacks-weaken, all_digits-Lacks, before_sep-append, before_sep-whole, black-no_end,
  black-no_return, last-split_whitespace, lines-append, split_by-append, trim-black,
  trim_end-append, trim-blank, trim_blank-black, blank-Lacks,
}
use gds_traces.Base.{
  All, Bool-cases, inl, inr, map, is_some, ap, append-nil, arith, false, refl, true, ◌∙◌, List, [],
  if◌then◌else◌, none, some, ℕ, ◌++◌, ◌==◌, ◌∷◌, ◌≡◌, ◌≢◌,
}

digit-black : (b : ℕ) → is_digit b ≡ true → is_space b ≡ false
unfolding is_digit is_space
digit-black b h = ground arith

digit-free : (b : ℕ) → is_digit b ≡ true → (b == b';') ≡ false
unfolding is_digit
digit-free b h = ground arith

space-free : (b : ℕ) → is_space b ≡ true → (b == b';') ≡ false
unfolding is_space
space-free b h = ground arith

decimal-black : (n : ℕ) → Lacks is_space (decimal n)
decimal-black n = all_digits-Lacks is_space (decimal n) digit-black (decimal-all_digits n)

decimal-Free : (n : ℕ) → Free (decimal n)
decimal-Free n = all_digits-Lacks (λ b. b == b';') (decimal n) digit-free (decimal-all_digits n)

module _ (f : Field) (fine : IsField f) where
  token-black : Lacks is_space (token_text f)
  token-black = Lacks-append is_space f.name f.suffix fine.name_black fine.suffix_black

  decl-Free : Free (decl_text f)
  decl-Free =
      Lacks-append (λ b. b == b';') f.type_text (b' ' ∷ token_text f) fine.type_free
        (refl, Lacks-append (λ b. b == b';') f.name f.suffix fine.name_free fine.suffix_free)

  declared_part : Text
  declared_part = codes "field:" ++ decl_text f

  part-Free : Free declared_part
  unfolding declared_part
  part-Free = (refl, (refl, (refl, (refl, (refl, (refl, decl-Free))))))

  offset-black : Lacks is_space (codes "offset:" ++ decimal f.offset)
  offset-black =
      unfold is_space in
      (refl, (refl, (refl, (refl, (refl, (refl, (refl, decimal-black f.offset)))))))

  offset-Free : Free (offset_part f)
  offset-Free =
      Lacks-append (λ b. b == b';') f.gap (codes "offset:" ++ decimal f.offset)
        (blank-Lacks (λ b. b == b';') f.gap space-free fine.gap_blank)
        (refl, (refl, (refl, (refl, (refl, (refl, (refl, decimal-Free f.offset)))))))

  -- The line without the spaces around it.
  trimmed : Text
  unfolding declared_part
  trimmed = declared_part ++ b';' ∷ (offset_part f ++ b';' ∷ trim_end f.rest)

  trim-print_field : trim (print_field f) ≡ trimmed
  unfolding trimmed
  trim-print_field =
      trim-blank f.indent b'f' _ fine.indent_blank (unfold is_space in refl)
      ∙ trim_end-append declared_part b';' (offset_part f ++ b';' ∷ f.rest)
          (unfold is_space in refl)
      ∙ ap (λ t. declared_part ++ b';' ∷ t)
          (trim_end-append (offset_part f) b';' f.rest (unfold is_space in refl))

  name-before_sep : before_sep b'[' (token_text f) ≡ f.name
  name-before_sep = go f.suffix fine.suffix_starts
    where
      go : (suffix : Text) → StartsSuffix suffix → before_sep b'[' (f.name ++ suffix) ≡ f.name
      go [] starts =
          ap (before_sep b'[') (append-nil f.name) ∙ before_sep-whole b'[' f.name fine.name_plain
      go (b ∷ bs) starts =
          ap (λ c. before_sep b'[' (f.name ++ c ∷ bs)) starts
          ∙ before_sep-append b'[' f.name bs fine.name_plain

  split-trimmed : split b';' trimmed ≡ declared_part ∷ offset_part f ∷ split b';' (trim_end f.rest)
  unfolding trimmed split
  split-trimmed =
      split_by-append (λ b. b == b';') declared_part b';' (offset_part f ++ b';' ∷ trim_end f.rest)
        refl part-Free
      ∙ ap (λ l. declared_part ∷ l)
          (split_by-append (λ b. b == b';') (offset_part f) b';' (trim_end f.rest) refl offset-Free)

  declared_part-skipped : strip_prefix (codes "offset:") (trim declared_part) ≡ none
  unfolding declared_part trim trim_start trim_end is_space strip_prefix
  declared_part-skipped = refl

  offset_part-found :
      strip_prefix (codes "offset:") (trim (offset_part f)) ≡ some (decimal f.offset)
  offset_part-found =
      ap (strip_prefix (codes "offset:")) (
        trim_blank-black f.gap b'o' (codes "ffset:" ++ decimal f.offset) fine.gap_blank
          offset-black)
      ∙ strip_prefix-append (codes "offset:") (decimal f.offset)

  offset-read : parse_unsigned usize_bound (trim (decimal f.offset)) ≡ some f.offset
  offset-read =
      ap (parse_unsigned usize_bound) (trim-black (decimal f.offset) (decimal-black f.offset))
      ∙ parse_unsigned-decimal usize_bound f.offset fine.offset_fits

  part_offset-trimmed : part_offset (split b';' trimmed) ≡ answers (some f.offset)
  unfolding part_offset
  part_offset-trimmed =
      rw (split-trimmed, part_offset)
        (rw declared_part-skipped
          (rw (offset_part-found, part_offset) (ap (λ o. answers o) offset-read)))

  last-decl : last (split_whitespace (decl_text f)) ≡ some (token_text f)
  last-decl =
      last-split_whitespace f.type_text (token_text f) (some_byte f.name fine.named) token-black
    where
      some_byte : (name : Text) → name ≢ [] → name ++ f.suffix ≢ []
      some_byte [] named = absurd (named refl)
      some_byte (b ∷ bs) named = λ e. cc

  before_sep-trimmed : before_sep b';' trimmed ≡ declared_part
  unfolding trimmed
  before_sep-trimmed =
      before_sep-append b';' declared_part (offset_part f ++ b';' ∷ trim_end f.rest) part-Free

  starts-trimmed : is_some (strip_prefix (codes "field:") trimmed) ≡ true
  unfolding trimmed declared_part strip_prefix
  starts-trimmed = refl

  declared-trimmed : strip_prefix (codes "field:") declared_part ≡ some (decl_text f)
  unfolding declared_part
  declared-trimmed = strip_prefix-append (codes "field:") (decl_text f)

  line_answer-print_field :
      (name : Text)
      → line_answer name (print_field f)
        ≡ (if same_text f.name name then answers (some f.offset) else goes_on)
  unfolding line_answer
  line_answer-print_field name =
      rw (trim-print_field, line_answer)
        (rw starts-trimmed (
          rw before_sep-trimmed
            (rw declared-trimmed (rw last-decl (rw name-before_sep (rw part_offset-trimmed))))))

line_answer-other_line :
    (name text : Text)
    → strip_prefix (codes "field:") (trim text) ≡ none
    → line_answer name text ≡ goes_on
unfolding line_answer
line_answer-other_line name text other = rw other

-- A byte that occurs in no part of a field's line.
print_field-Lacks :
    (e : ℕ) (f : Field)
    → Lacks (λ b. b == e) f.type_text
    → Lacks (λ b. b == e) (token_text f)
    → Lacks (λ b. b == e) f.rest
    → Lacks (λ b. b == e) (decimal f.offset)
    → Lacks (λ b. b == e) f.indent
    → Lacks (λ b. b == e) f.gap
    → Lacks (λ b. b == e) (codes "field:")
    → Lacks (λ b. b == e) (codes "offset:")
    → (b' ' == e) ≡ false
    → (b';' == e) ≡ false
    → Lacks (λ b. b == e) (print_field f)
print_field-Lacks e f in_type in_token in_rest in_offset in_indent in_gap in_front in_part space
      sep =
    let p = λ (b : ℕ). b == e in
    Lacks-append p f.indent _ in_indent (
      Lacks-append p (codes "field:" ++ decl_text f) (b';' ∷ (offset_part f ++ b';' ∷ f.rest))
        (Lacks-append p (codes "field:") (decl_text f) in_front
          (Lacks-append p f.type_text (b' ' ∷ token_text f) in_type (space, in_token)))
        (
          sep,
          Lacks-append p (offset_part f) (b';' ∷ f.rest)
              (Lacks-append p f.gap (codes "offset:" ++ decimal f.offset) in_gap
                (Lacks-append p (codes "offset:") (decimal f.offset) in_part in_offset))
              (sep, in_rest),
        ))

print_field-IsLineText : (f : Field) → IsField f → IsLineText (print_field f)
print_field-IsLineText f fine =
    let black = token-black f fine in
    let digits = decimal-black f.offset in
    (
      print_field-Lacks 10 f fine.type_line.0
          (Lacks-weaken is_space _ (token_text f) black-no_end black) fine.rest_line.0
          (Lacks-weaken is_space _ (decimal f.offset) black-no_end digits) fine.indent_line.0
          fine.gap_line.0 (refl, (refl, (refl, (refl, (refl, (refl, tt))))))
          (refl, (refl, (refl, (refl, (refl, (refl, (refl, tt))))))) refl refl,
      print_field-Lacks 13 f fine.type_line.1
          (Lacks-weaken is_space _ (token_text f) black-no_return black) fine.rest_line.1
          (Lacks-weaken is_space _ (decimal f.offset) black-no_return digits) fine.indent_line.1
          fine.gap_line.1 (refl, (refl, (refl, (refl, (refl, (refl, tt))))))
          (refl, (refl, (refl, (refl, (refl, (refl, (refl, tt))))))) refl refl,
    )

print_line-IsLineText : (l : FormatLine) → IsFormatLine l → IsLineText (print_line l)
print_line-IsLineText (other_line text) (line_text, other) = line_text
print_line-IsLineText (field_line f) fine = print_field-IsLineText f fine

lines-print_format :
    (ls : List FormatLine) → All IsFormatLine ls → lines (print_format ls) ≡ map print_line ls
unfolding print_format
lines-print_format [] fine = unfold lines in refl
lines-print_format (l ∷ ls) (fine, more) =
    let (no_end, no_return) = print_line-IsLineText l fine in
    lines-append (print_line l) (print_format ls) no_end no_return
    ∙ ap (λ t. print_line l ∷ t) (lines-print_format ls more)

first_answer-declared_offset :
    (name : Text) (ls : List FormatLine)
    → All IsFormatLine ls
    → first_answer name (map print_line ls) ≡ declared_offset name ls
unfolding first_answer
first_answer-declared_offset name [] fine = refl
first_answer-declared_offset name (other_line text ∷ ls) ((line_text, other), more) =
    rw (line_answer-other_line name text other) (first_answer-declared_offset name ls more)
first_answer-declared_offset name (field_line f ∷ ls) (fine, more) =
    rw (line_answer-print_field f fine name) (elim (Bool-cases (same_text f.name name)) [
      | inl same ↦ rw same
      | inr other ↦ rw other (first_answer-declared_offset name ls more)
    ])

-- Let a `format` file be lines that declare fields, in the shape that the source's comment shows,
-- `field:`, a type, a name without spaces, which may have a suffix that starts with `[`, `;`,
-- `offset:`, a number of 64 bits, `;` and any rest, with any spaces or tabs in front of `field:`
-- and of `offset:`, no `;` but these and those of the rest, and no end of line inside; and other
-- lines, which do not start with `field:` behind their spaces. Then for any name the offset found
-- is that of the first field with this name, and none is found where no field has it.
pub format_field_offset-declared_offset :
    (ls : List FormatLine) (name : Text)
    → All IsFormatLine ls
    → format_field_offset (print_format ls) name ≡ declared_offset name ls
unfolding format_field_offset
format_field_offset-declared_offset ls name fine =
    ap (first_answer name) (lines-print_format ls fine) ∙ first_answer-declared_offset name ls fine
