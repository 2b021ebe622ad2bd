-- ===== src/Inputs/Keys.antt =====
-- tracing/nvme-trace/src/main.rs, lines 110 to 143: which files of a directory are taken, and the
-- order of files.
use gds_traces.Capture.Drain.{parsed}
use gds_traces.Inputs.Names.{parse_cpu_bin_iff, IsCpuName}
use gds_traces.Order.Laws.{then_with-reverse}
use gds_traces.Base.Sort.{IsOrdered}
use gds_traces.Text.Affix.{Text}
use gds_traces.Splice.Heap.{bytes_cmp}
use gds_traces.Order.Compare.{then_with, reverse}
use gds_traces.Base.{
  Option-cases, Ordering, is_some, ltb, ltb→lt, ◌&&◌, ◌<◌, ◌⊎◌, Bool-cases, ap, inl, inr, ◌∙◌, List,
  Option, [], arith, compare, false, none, refl, some, true, ℕ, ◌∷◌, ◌≡◌, ◌≢◌,
}
use gds_traces.Inputs.{
  FileTree, FileTree, FileTree, FileTree, FileTree, FileTree, FileTree, FileTree, has_cpu_name,
  name_or_empty, parse_cpu_bin, gt, FileTree, is_trace_file, option_cmp, path_cmp, sort_input_path,
  FilePath,
}

option_cmp-reverse : (a b : Option ℕ) → option_cmp b a ≡ reverse (option_cmp a b)
option_cmp-reverse none none = refl
option_cmp-reverse none (some b) = refl
option_cmp-reverse (some a) none = refl
option_cmp-reverse (some a) (some b) = ground arith

bytes_cmp-reverse : (a b : Text) → bytes_cmp b a ≡ reverse (bytes_cmp a b)
unfolding bytes_cmp
bytes_cmp-reverse [] [] = refl
bytes_cmp-reverse [] (b ∷ bs) = refl
bytes_cmp-reverse (a ∷ more) [] = refl
bytes_cmp-reverse (a ∷ more) (b ∷ bs) =
    then_with-reverse (compare a b) (compare b a) (bytes_cmp more bs) (bytes_cmp bs more)
      (ground arith) (bytes_cmp-reverse more bs)

path_cmp-reverse : (a b : FilePath) → path_cmp b a ≡ reverse (path_cmp a b)
unfolding path_cmp
path_cmp-reverse a b =
    then_with-reverse _ _ _ _ (option_cmp-reverse (sort_input_path a).0 (sort_input_path b).0)
      (bytes_cmp-reverse (sort_input_path a).1 (sort_input_path b).1)

pub path_cmp-connex : (a b : FilePath) → path_cmp a b ≡ gt → path_cmp b a ≢ gt
path_cmp-connex a b h = rw (path_cmp-reverse a b) (rw h (λ e. cc))

-- The number in a path's name, as far as it is the name of a processor's file.
abbrev pub number_of : FilePath → Option ℕ
number_of path = parse_cpu_bin (name_or_empty path.file_name)

-- The order of two files: without a number first, then by number, then by path.
abbrev pub InKeyOrder : FilePath → FilePath → Type 0
InKeyOrder a b =
    ((number_of a ≡ none) × ((n : ℕ) × (number_of b ≡ some n)))
    ⊎ (((m : ℕ) × (n : ℕ) × (number_of a ≡ some m) × (number_of b ≡ some n) × (m < n))
        ⊎ ((number_of a ≡ number_of b) × (bytes_cmp a.shown b.shown ≢ gt)))

abbrev pub AreInOrder : List FilePath → Type 0
AreInOrder [] = Unit {0}
AreInOrder (a ∷ []) = Unit {0}
AreInOrder (a ∷ b ∷ files) = InKeyOrder a b × AreInOrder (b ∷ files)

-- A regular file that is named like a processor's.
abbrev pub IsTraceFile : FileTree → FilePath → Type 0
IsTraceFile tree path =
    (tree.is_file path ≡ true)
    × ((name : Text) × (n : ℕ) × (path.file_name ≡ some name) × IsCpuName name n)

-- The trace files among some paths, in their order.
pub data Chosen (tree : FileTree) : List FilePath → List FilePath → Type 0 where
  none_left : Chosen tree [] []
  chosen :
      (path : FilePath) (paths files : List FilePath)
      → IsTraceFile tree path
      → Chosen tree paths files
      → Chosen tree (path ∷ paths) (path ∷ files)
  left_out :
      (path : FilePath) (paths files : List FilePath)
      → ¬ IsTraceFile tree path
      → Chosen tree paths files
      → Chosen tree (path ∷ paths) files

IsCpuName-cases :
    (o : Option Text)
    → ((has_cpu_name o ≡ true) × ((name : Text) × (n : ℕ) × (o ≡ some name) × IsCpuName name n))
      ⊎ ((has_cpu_name o ≡ false)
          × ¬ ((name : Text) × (n : ℕ) × (o ≡ some name) × IsCpuName name n))
IsCpuName-cases none = inr (refl, λ (name, n, e, named). cc)
IsCpuName-cases (some name) = elim (Option-cases (parse_cpu_bin name)) [
  | inl other ↦ inr (
    ap is_some other,
    λ (other_name, n, e, named). cc (other, (parse_cpu_bin_iff other_name n).1 named, e),
  )
  | inr (n, parsed) ↦ inl (ap is_some parsed, (name, n, refl, (parse_cpu_bin_iff name n).0 parsed))
]

pub IsTraceFile-cases :
    (tree : FileTree) (path : FilePath)
    → ((is_trace_file tree path ≡ true) × IsTraceFile tree path)
      ⊎ ((is_trace_file tree path ≡ false) × ¬ IsTraceFile tree path)
unfolding is_trace_file
IsTraceFile-cases tree path = elim (Bool-cases (tree.is_file path)) [
  | inr other ↦ inr (ap (λ b. b && has_cpu_name path.file_name) other, λ (is_file, named). cc)
  | inl is_file ↦ elim (IsCpuName-cases path.file_name) [
    | inl (test, named) ↦
        inl (ap (λ b. b && has_cpu_name path.file_name) is_file ∙ test, (is_file, named))
    | inr (test, other) ↦
        inr
          (ap (λ b. b && has_cpu_name path.file_name) is_file ∙ test, λ (again, named). other named)
  ]
]

key-in_order :
    (a b : Option ℕ) (o : Ordering)
    → then_with (option_cmp a b) o ≢ gt
    → ((a ≡ none) × ((n : ℕ) × (b ≡ some n)))
      ⊎ (((m : ℕ) × (n : ℕ) × (a ≡ some m) × (b ≡ some n) × (m < n)) ⊎ ((a ≡ b) × (o ≢ gt)))
key-in_order none none o h = inr (inr (refl, h))
key-in_order none (some n) o h = inl (refl, (n, refl))
key-in_order (some m) none o h = absurd (h refl)
key-in_order (some m) (some n) o h = elim (Bool-cases (ltb m n)) [
  | inl below ↦ inr (inl (m, n, refl, refl, ltb→lt m n below))
  | inr above ↦ inr (inr (ground arith, ground arith))
]

path_cmp-InKeyOrder : (a b : FilePath) → path_cmp a b ≢ gt → InKeyOrder a b
unfolding path_cmp
path_cmp-InKeyOrder a b h = key-in_order (number_of a) (number_of b) (bytes_cmp a.shown b.shown) h

pub IsOrdered-AreInOrder : (files : List FilePath) → IsOrdered path_cmp files → AreInOrder files
IsOrdered-AreInOrder [] h = tt
IsOrdered-AreInOrder (a ∷ []) h = tt
IsOrdered-AreInOrder (a ∷ b ∷ files) (h, hs) =
    (path_cmp-InKeyOrder a b h, IsOrdered-AreInOrder (b ∷ files) hs)
