-- ===== src/Inputs.antt =====
-- tracing/nvme-trace/src/main.rs, lines 97 to 143: the input files of a command. The file system
-- is what its calls answer; an error of the system is its number.
use gds_traces.Base.Sort.{sort}
use Prim.Native.Nat.{lt, eq, gt}
use gds_traces.Order.Compare.{then_with}
use gds_traces.Text.Digits.{all_digits, parse_unsigned}
use gds_traces.Text.Affix.{Text, codes, same_text, strip_prefix, strip_suffix}
use gds_traces.Splice.Heap.{bytes_cmp}
use gds_traces.Base.{
  Bool, List, Option, and_then, Ordering, [], compare, false, if◌then◌else◌, is_some, none, not,
  some, ℕ, ◌&&◌, ◌++◌, ◌^◌, ◌||◌, ◌∷◌,
}
use gds_traces.Base.Outcome.{map_err, ◌>>=◌, ◌>>◌, Result, ok, err}
pub mod Names
pub mod Keys
pub mod Expansion

-- A path is what `display` shows, and its last component, if that is UTF-8 text.
pub record FilePath : Type 0 where
  pub shown : Text
  pub file_name : Option Text

pub record FileTree : Type 0 where
  pub is_dir : FilePath → Bool
  pub is_file : FilePath → Bool
  pub read_dir : FilePath → Result ℕ (List (Result ℕ FilePath))

-- Why a list of input files cannot be made: a directory that cannot be read, or an entry of one.
pub data InputError : Type 0 where
  reading : FilePath → ℕ → InputError
  entry_failed : ℕ → InputError

abbrev pub u32_bound : ℕ
u32_bound = 2 ^ 32

-- `cpuN.bin` is the file of the processor `N`.
unfoldable pub parse_cpu_bin : Text → Option ℕ
parse_cpu_bin name = and_then (strip_prefix (codes "cpu") name) λ behind.
    and_then (strip_suffix (codes ".bin") behind) λ suffix.
      if same_text suffix [] || not (all_digits suffix)
      then none
      else parse_unsigned u32_bound suffix

abbrev pub name_or_empty : Option Text → Text
name_or_empty none = []
name_or_empty (some name) = name

unfoldable pub sort_input_path : FilePath → Option ℕ × Text
sort_input_path path = (parse_cpu_bin (name_or_empty path.file_name), path.shown)

-- The order of the keys: no number before any, then by number, then by path.
abbrev pub option_cmp : Option ℕ → Option ℕ → Ordering
option_cmp none none = eq
option_cmp none (some b) = lt
option_cmp (some a) none = gt
option_cmp (some a) (some b) = compare a b

unfoldable pub path_cmp : FilePath → FilePath → Ordering
unfolding sort_input_path
path_cmp a b =
    then_with (option_cmp (sort_input_path a).0 (sort_input_path b).0)
      (bytes_cmp (sort_input_path a).1 (sort_input_path b).1)

abbrev pub has_cpu_name : Option Text → Bool
has_cpu_name none = false
has_cpu_name (some name) = is_some (parse_cpu_bin name)

-- A regular file whose name is that of a processor's file.
unfoldable pub is_trace_file : FileTree → FilePath → Bool
is_trace_file tree path = tree.is_file path && has_cpu_name path.file_name

-- The loop over the entries.
unfoldable pub trace_files : FileTree → List (Result ℕ FilePath) → Result InputError (List FilePath)
unfolding is_trace_file
trace_files tree [] = ok []
trace_files tree (err e ∷ entries) = err (entry_failed e)
trace_files tree (ok path ∷ entries) = do
  files ← trace_files tree entries
  ok (if is_trace_file tree path then path ∷ files else files)

unfoldable pub expand_trace_dir : FileTree → FilePath → Result InputError (List FilePath)
expand_trace_dir tree dir = do
  entries ← map_err (reading dir) (tree.read_dir dir)
  files ← trace_files tree entries
  ok (sort path_cmp files)

-- The loop over the inputs.
unfoldable pub collect_inputs : FileTree → List FilePath → Result InputError (List FilePath)
collect_inputs tree [] = ok []
collect_inputs tree (input ∷ inputs) = do
  files ← if tree.is_dir input then expand_trace_dir tree input else ok (input ∷ [])
  more ← collect_inputs tree inputs
  ok (files ++ more)

unfoldable pub expand_input_paths : FileTree → List FilePath → Result InputError (List FilePath)
expand_input_paths tree inputs = do files ← collect_inputs tree inputs; ok (sort path_cmp files)
