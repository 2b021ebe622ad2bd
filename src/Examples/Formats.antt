-- ===== src/Examples/Formats.antt =====
-- The offsets that are read from a concrete `format` file.
use gds_traces.Text.Decimal.{decimal}
use gds_traces.Session.Offsets.{format_field_offset-declared_offset}
use gds_traces.Session.Declared.{
  IsLineText, Field, FormatLine, IsField, IsFormatLine, field_line, other_line, print_format,
  print_line,
}
use gds_traces.Text.Words.{IsBlank, Lacks, is_space, trim, trim_end, trim_start}
use gds_traces.Session.FormatFile.{format_field_offset}
use gds_traces.Text.Affix.{Text, codes, same_text, strip_prefix}
use gds_traces.Base.{
  ◌==◌, All, Bool, Bool-cases, List, [], arith, inl, inr, not, refl, some, true, ℕ, ◌&&◌, ◌∷◌, ◌≡◌,
}

-- The conditions on a text's bytes, by computation.
abbrev lacks : (ℕ → Bool) → Text → Bool
lacks p [] = true
lacks p (b ∷ bs) = not (p b) && lacks p bs

Lacks-check : (p : ℕ → Bool) (text : Text) → lacks p text ≡ true → Lacks p text
Lacks-check p [] h = tt
Lacks-check p (b ∷ bs) h = elim (Bool-cases (p b)) [
  | inl held ↦ cc (rw held at h)
  | inr fails_there ↦ (fails_there, Lacks-check p bs (rw fails_there at h))
]

IsBlank-check : (text : Text) → lacks (λ b. not (is_space b)) text ≡ true → IsBlank text
IsBlank-check [] h = tt
IsBlank-check (b ∷ bs) h = elim (Bool-cases (is_space b)) [
  | inl space ↦ (space, IsBlank-check bs (rw space at h))
  | inr black ↦ cc (rw black at h)
]

IsLineText-check :
    (text : Text)
    → lacks (λ b. b == 10) text ≡ true
    → lacks (λ b. b == 13) text ≡ true
    → IsLineText text
IsLineText-check text h k = (Lacks-check (λ b. b == 10) text h, Lacks-check (λ b. b == 13) text k)

-- The two lines that the source's comment shows, and an array as the kernel prints it.
abbrev ctrl_field : Field
ctrl_field = record {
  indent = codes "    ";
  type_text = codes "int";
  name = codes "ctrl_id";
  suffix = [];
  gap = codes " ";
  offset = 8;
  rest = codes " size:4; signed:1;";
}

abbrev descriptors_field : Field
descriptors_field = record {
  indent = codes "    ";
  type_text = codes "__data_loc u8[]";
  name = codes "descriptors";
  suffix = [];
  gap = codes " ";
  offset = 98;
  rest = codes " size:4; signed:0;";
}

abbrev sqe_field : Field
sqe_field = record {
  indent = 9 ∷ [];
  type_text = codes "u8";
  name = codes "sqe";
  suffix = codes "[64]";
  gap = 9 ∷ [];
  offset = 34;
  rest = [];
}

abbrev small_format : List FormatLine
small_format =
    other_line (codes "ID: 7")
    ∷ field_line ctrl_field
    ∷ field_line descriptors_field
    ∷ field_line sqe_field
    ∷ []

comment_lines :
    print_line (field_line ctrl_field) ≡ codes "    field:int ctrl_id; offset:8; size:4; signed:1;"
unfolding decimal
comment_lines = refl

ctrl_field-IsField : IsField ctrl_field
unfolding is_space
ctrl_field-IsField = record {
  indent_blank = IsBlank-check ctrl_field.indent refl;
  indent_line = IsLineText-check ctrl_field.indent refl refl;
  gap_blank = IsBlank-check ctrl_field.gap refl;
  gap_line = IsLineText-check ctrl_field.gap refl refl;
  type_free = Lacks-check (λ b. b == b';') ctrl_field.type_text refl;
  type_line = IsLineText-check ctrl_field.type_text refl refl;
  named = λ e. cc;
  name_free = Lacks-check (λ b. b == b';') ctrl_field.name refl;
  name_black = Lacks-check is_space ctrl_field.name refl;
  name_plain = Lacks-check (λ b. b == b'[') ctrl_field.name refl;
  suffix_starts = tt;
  suffix_free = Lacks-check (λ b. b == b';') ctrl_field.suffix refl;
  suffix_black = Lacks-check is_space ctrl_field.suffix refl;
  rest_line = IsLineText-check ctrl_field.rest refl refl;
  offset_fits = omega arith;
}

descriptors_field-IsField : IsField descriptors_field
unfolding is_space
descriptors_field-IsField = record {
  indent_blank = IsBlank-check descriptors_field.indent refl;
  indent_line = IsLineText-check descriptors_field.indent refl refl;
  gap_blank = IsBlank-check descriptors_field.gap refl;
  gap_line = IsLineText-check descriptors_field.gap refl refl;
  type_free = Lacks-check (λ b. b == b';') descriptors_field.type_text refl;
  type_line = IsLineText-check descriptors_field.type_text refl refl;
  named = λ e. cc;
  name_free = Lacks-check (λ b. b == b';') descriptors_field.name refl;
  name_black = Lacks-check is_space descriptors_field.name refl;
  name_plain = Lacks-check (λ b. b == b'[') descriptors_field.name refl;
  suffix_starts = tt;
  suffix_free = Lacks-check (λ b. b == b';') descriptors_field.suffix refl;
  suffix_black = Lacks-check is_space descriptors_field.suffix refl;
  rest_line = IsLineText-check descriptors_field.rest refl refl;
  offset_fits = omega arith;
}

sqe_field-IsField : IsField sqe_field
unfolding is_space
sqe_field-IsField = record {
  indent_blank = IsBlank-check sqe_field.indent refl;
  indent_line = IsLineText-check sqe_field.indent refl refl;
  gap_blank = IsBlank-check sqe_field.gap refl;
  gap_line = IsLineText-check sqe_field.gap refl refl;
  type_free = Lacks-check (λ b. b == b';') sqe_field.type_text refl;
  type_line = IsLineText-check sqe_field.type_text refl refl;
  named = λ e. cc;
  name_free = Lacks-check (λ b. b == b';') sqe_field.name refl;
  name_black = Lacks-check is_space sqe_field.name refl;
  name_plain = Lacks-check (λ b. b == b'[') sqe_field.name refl;
  suffix_starts = refl;
  suffix_free = Lacks-check (λ b. b == b';') sqe_field.suffix refl;
  suffix_black = Lacks-check is_space sqe_field.suffix refl;
  rest_line = IsLineText-check sqe_field.rest refl refl;
  offset_fits = omega arith;
}

small_format-IsFormatLine : All IsFormatLine small_format
unfolding is_space trim trim_start trim_end strip_prefix
small_format-IsFormatLine = (
  (IsLineText-check (codes "ID: 7") refl refl, refl),
  (ctrl_field-IsField, (descriptors_field-IsField, (sqe_field-IsField, tt))),
)

format_field_offset-declared_offset_example :
    format_field_offset (print_format small_format) (codes "descriptors") ≡ some 98
unfolding same_text
format_field_offset-declared_offset_example =
    format_field_offset-declared_offset small_format (codes "descriptors") small_format-IsFormatLine
