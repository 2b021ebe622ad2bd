-- ===== src/Session/FormatFile.antt =====
-- tracing/nvme-trace/src/ftrace.rs, lines 283 to 356: the offsets that a `format` file declares.
use gds_traces.Base.{List, Option, [], if◌then◌else◌, is_some, none, some, ℕ, ◌^◌, ◌∷◌}
use gds_traces.Ftrace.Formats.{CompleteFormat, SubmitFormat}
use gds_traces.Text.Words.{before_sep, last, lines, split, split_whitespace, trim}
use gds_traces.Text.Digits.{parse_unsigned}
use gds_traces.Text.Affix.{Text, codes, same_text, strip_prefix}
use gds_traces.Base.Outcome.{Result, ok, err, ◌>>=◌}

-- What the loop makes of a line: it goes on, or the function returns.
pub data LineAnswer : Type 0 where
  goes_on : LineAnswer
  answers : Option ℕ → LineAnswer

abbrev pub usize_bound : ℕ
usize_bound = 2 ^ 64

-- The parts of a line, up to the one with the offset.
unfoldable pub part_offset : List Text → LineAnswer
part_offset [] = goes_on
part_offset (part ∷ parts) = elim (strip_prefix (codes "offset:") (trim part)) [
  | none ↦ part_offset parts
  | some v ↦ answers (parse_unsigned usize_bound (trim v))
]

-- A declaration's name is its last word, without what stands in brackets.
abbrev pub named_offset : Text → Text → Option Text → LineAnswer
named_offset field_name line none = answers none
named_offset field_name line (some name_tok) =
    if same_text (before_sep b'[' name_tok) field_name
    then part_offset (split b';' line)
    else goes_on

abbrev pub declared : Text → Text → Option Text → LineAnswer
declared field_name line none = answers none
declared field_name line (some decl) = named_offset field_name line (last (split_whitespace decl))

unfoldable pub line_answer : Text → Text → LineAnswer
line_answer field_name whole_line =
    let line = trim whole_line in
    if is_some (strip_prefix (codes "field:") line)
    then declared field_name line (strip_prefix (codes "field:") (before_sep b';' line))
    else goes_on

abbrev pub after_line : LineAnswer → Option ℕ → Option ℕ
after_line goes_on later = later
after_line (answers offset) later = offset

unfoldable pub first_answer : Text → List Text → Option ℕ
first_answer field_name [] = none
first_answer field_name (line ∷ more) =
    after_line (line_answer field_name line) (first_answer field_name more)

unfoldable pub format_field_offset : Text → Text → Option ℕ
unfolding first_answer
format_field_offset content field_name = first_answer field_name (lines content)

-- The name of a field that is not declared.
unfoldable pub require_offset : Text → Text → Result Text ℕ
require_offset content field = elim (format_field_offset content field) [
  | none ↦ err field
  | some offset ↦ ok offset
]

unfoldable pub submit_format_of : Text → Result Text SubmitFormat
submit_format_of c = do
  ctrl_id ← require_offset c (codes "ctrl_id")
  qid ← require_offset c (codes "qid")
  cid ← require_offset c (codes "cid")
  data_len ← require_offset c (codes "data_len")
  meta_len ← require_offset c (codes "meta_len")
  use_sgl ← require_offset c (codes "use_sgl")
  single_segment ← require_offset c (codes "single_segment")
  sqe ← require_offset c (codes "sqe")
  descriptors_dataloc ← require_offset c (codes "descriptors")
  ok (record {
    ctrl_id = ctrl_id;
    qid = qid;
    cid = cid;
    data_len = data_len;
    meta_len = meta_len;
    use_sgl = use_sgl;
    single_segment = single_segment;
    sqe = sqe;
    descriptors_dataloc = descriptors_dataloc;
  })

unfoldable pub complete_format_of : Text → Result Text CompleteFormat
complete_format_of c = do
  ctrl_id ← require_offset c (codes "ctrl_id")
  qid ← require_offset c (codes "qid")
  cid ← require_offset c (codes "cid")
  result ← require_offset c (codes "result")
  sq_head ← require_offset c (codes "sq_head")
  sq_id ← require_offset c (codes "sq_id")
  status ← require_offset c (codes "status")
  retries ← require_offset c (codes "retries")
  ok (record {
    ctrl_id = ctrl_id;
    qid = qid;
    cid = cid;
    result = result;
    sq_head = sq_head;
    sq_id = sq_id;
    status = status;
    retries = retries;
  })
