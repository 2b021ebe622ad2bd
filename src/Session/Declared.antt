-- ===== src/Session/Declared.antt =====
-- tracing/nvme-trace/src/ftrace.rs, lines 283 to 315: `format` files of the shape that the comment
-- there shows, as a printer, and what is read from them.
use gds_traces.Text.Words.{IsBlank, Lacks, is_space, trim}
use gds_traces.Text.Decimal.{decimal}
use gds_traces.Session.FormatFile.{usize_bound}
use gds_traces.Base.{List, Option, [], if◌then◌else◌, none, some, ℕ, ◌++◌, ◌<◌, ◌==◌, ◌∷◌, ◌≡◌, ◌≢◌}
use gds_traces.Text.Affix.{codes, same_text, strip_prefix, Text}

-- `field:type name suffix; offset:N;` and the rest of the line, with the spaces in front of the
-- two parts: blanks in the comment, tabs in the kernel's own files.
pub record Field : Type 0 where
  pub indent : Text
  pub type_text : Text
  pub name : Text
  pub suffix : Text
  pub gap : Text
  pub offset : ℕ
  pub rest : Text

pub data FormatLine : Type 0 where
  other_line : Text → FormatLine
  field_line : Field → FormatLine

abbrev pub token_text : Field → Text
token_text f = f.name ++ f.suffix

abbrev pub decl_text : Field → Text
decl_text f = f.type_text ++ b' ' ∷ token_text f

abbrev pub offset_part : Field → Text
offset_part f = f.gap ++ (codes "offset:" ++ decimal f.offset)

abbrev pub print_field : Field → Text
print_field f =
    f.indent ++ ((codes "field:" ++ decl_text f) ++ b';' ∷ (offset_part f ++ b';' ∷ f.rest))

abbrev pub print_line : FormatLine → Text
print_line (other_line text) = text
print_line (field_line f) = print_field f

unfoldable pub print_format : List FormatLine → Text
print_format [] = []
print_format (l ∷ ls) = print_line l ++ 10 ∷ print_format ls

abbrev pub StartsSuffix : Text → Type 0
StartsSuffix [] = Unit {0}
StartsSuffix (b ∷ bs) = b ≡ b'['

abbrev pub Free : Text → Type 0
Free = Lacks (λ b. b == b';')

abbrev pub IsLineText : Text → Type 0
IsLineText text = Lacks (λ b. b == 10) text × Lacks (λ b. b == 13) text

pub record IsField (f : Field) : Type 0 where
  pub indent_blank : IsBlank f.indent
  pub indent_line : IsLineText f.indent
  pub gap_blank : IsBlank f.gap
  pub gap_line : IsLineText f.gap
  pub type_free : Free f.type_text
  pub type_line : IsLineText f.type_text
  pub named : f.name ≢ []
  pub name_free : Free f.name
  pub name_black : Lacks is_space f.name
  pub name_plain : Lacks (λ b. b == b'[') f.name
  pub suffix_starts : StartsSuffix f.suffix
  pub suffix_free : Free f.suffix
  pub suffix_black : Lacks is_space f.suffix
  pub rest_line : IsLineText f.rest
  pub offset_fits : f.offset < usize_bound

abbrev pub IsFormatLine : FormatLine → Type 0
IsFormatLine (other_line text) =
    IsLineText text × (strip_prefix (codes "field:") (trim text) ≡ none)
IsFormatLine (field_line f) = IsField f

-- The offset of the first field with the name.
abbrev pub declared_offset : Text → List FormatLine → Option ℕ
declared_offset name [] = none
declared_offset name (other_line text ∷ ls) = declared_offset name ls
declared_offset name (field_line f ∷ ls) =
    if same_text f.name name then some f.offset else declared_offset name ls
