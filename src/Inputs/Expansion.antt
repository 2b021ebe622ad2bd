-- ===== src/Inputs/Expansion.antt =====
-- tracing/nvme-trace/src/main.rs, lines 97 to 127: which files the inputs of a command give.
use gds_traces.Inputs.Keys.{
  AreInOrder, Chosen, IsOrdered-AreInOrder, chosen, left_out, none_left, path_cmp-connex,
  IsTraceFile-cases,
}
use gds_traces.Inputs.{
  FilePath, FileTree, InputError, collect_inputs, entry_failed, expand_input_paths,
  expand_trace_dir, is_trace_file, path_cmp, reading, trace_files,
}
use gds_traces.Base.Sort.{sort, sort-IsOrdered, sort-Perm}
use mathlib.Core.List.{Mem, mem-cons_self, mem-cons_of_mem, mem-append_left, Perm}
use gds_traces.Base.Outcome.{Result, err, ok, ◌>>=◌}
use gds_traces.Base.{
  Bool-cases, ap, inl, inr, ◌∙◌, List, [], false, if◌then◌else◌, map, refl, true, ℕ, ◌++◌, ◌∷◌, ◌≡◌,
}

-- The files that an input stands for, in some order: itself, or the trace files of a directory
-- whose entries can all be read.
pub data StandsFor (tree : FileTree) (input : FilePath) (files : List FilePath) : Type 0 where
  file : tree.is_dir input ≡ false → files ≡ input ∷ [] → StandsFor tree input files
  directory :
      (paths found : List FilePath)
      → tree.is_dir input ≡ true
      → tree.read_dir input ≡ ok (map (λ p. ok p) paths)
      → Chosen tree paths found
      → Perm files found
      → StandsFor tree input files

-- All inputs with their files, those of one input behind those of the other.
pub data AllStandFor (tree : FileTree) : List FilePath → List FilePath → Type 0 where
  no_inputs : AllStandFor tree [] []
  more_inputs :
      (input : FilePath) (inputs files more : List FilePath)
      → StandsFor tree input files
      → AllStandFor tree inputs more
      → AllStandFor tree (input ∷ inputs) (files ++ more)

-- A directory among the inputs that cannot be read, or not whole.
abbrev pub Unreadable : FileTree → List FilePath → InputError → Type 0
Unreadable tree inputs (reading dir e) =
    Mem dir inputs × (tree.is_dir dir ≡ true) × (tree.read_dir dir ≡ err e)
Unreadable tree inputs (entry_failed e) =
    (dir : FilePath) × (entries : List (Result ℕ FilePath)) × Mem dir inputs
    × (tree.is_dir dir ≡ true)
    × (tree.read_dir dir ≡ ok entries)
    × Mem (err e) entries

-- What an expansion gives.
abbrev pub Expanded : FileTree → List FilePath → Result InputError (List FilePath) → Type 0
Expanded tree inputs (ok files) =
    AreInOrder files × ((all : List FilePath) × AllStandFor tree inputs all × Perm files all)
Expanded tree inputs (err e) = Unreadable tree inputs e

TraceFiles : FileTree → List (Result ℕ FilePath) → Result InputError (List FilePath) → Type 0
TraceFiles tree entries (ok files) =
    (paths : List FilePath) × (entries ≡ map (λ p. ok p) paths) × Chosen tree paths files
TraceFiles tree entries (err (reading dir e)) = ⊥
TraceFiles tree entries (err (entry_failed e)) = Mem (err e) entries

TraceFiles-path :
    (tree : FileTree) (path : FilePath) (entries : List (Result ℕ FilePath))
    (found : Result InputError (List FilePath))
    → TraceFiles tree entries found
    → TraceFiles tree
        (ok path ∷ entries)
        (found >>= λ files. ok (if is_trace_file tree path then path ∷ files else files))
unfolding TraceFiles
TraceFiles-path tree path entries (ok files) (paths, listed, found) =
    elim (IsTraceFile-cases tree path) [
      | inl (test, is) ↦
          rw test (path ∷ paths, ap (λ l. ok path ∷ l) listed, chosen path paths files is found)
      | inr (test, is_no) ↦
          rw test
            (path ∷ paths, ap (λ l. ok path ∷ l) listed, left_out path paths files is_no found)
    ]
TraceFiles-path tree path entries (err (reading dir e)) h = h
TraceFiles-path tree path entries (err (entry_failed e)) h = mem-cons_of_mem (ok path) h

trace_files-TraceFiles :
    (tree : FileTree) (entries : List (Result ℕ FilePath))
    → TraceFiles tree entries (trace_files tree entries)
unfolding trace_files
trace_files-TraceFiles tree [] = unfold TraceFiles in ([], refl, none_left)
trace_files-TraceFiles tree (err e ∷ entries) = unfold TraceFiles in mem-cons_self
trace_files-TraceFiles tree (ok path ∷ entries) =
    TraceFiles-path tree path entries (trace_files tree entries)
      (trace_files-TraceFiles tree entries)

-- What one input gives.
Given : FileTree → FilePath → Result InputError (List FilePath) → Type 0
Given tree input (ok files) = StandsFor tree input files
Given tree input (err e) = Unreadable tree (input ∷ []) e

Given-sorted :
    (tree : FileTree) (dir : FilePath) (entries : List (Result ℕ FilePath))
    (found : Result InputError (List FilePath))
    → tree.is_dir dir ≡ true
    → tree.read_dir dir ≡ ok entries
    → TraceFiles tree entries found
    → Given tree dir (found >>= λ files. ok (sort path_cmp files))
unfolding TraceFiles Given
Given-sorted tree dir entries (ok files) is_dir listed (paths, parts, found) =
    directory paths files is_dir (listed ∙ ap (λ l. ok l) parts) found (sort-Perm path_cmp files)
Given-sorted tree dir entries (err (reading d e)) is_dir listed h = absurd h
Given-sorted tree dir entries (err (entry_failed e)) is_dir listed h =
    (dir, entries, mem-cons_self, is_dir, listed, h)

expand_trace_dir-Given :
    (tree : FileTree) (dir : FilePath) (answer : Result ℕ (List (Result ℕ FilePath)))
    → tree.is_dir dir ≡ true
    → tree.read_dir dir ≡ answer
    → Given tree dir (expand_trace_dir tree dir)
unfolding expand_trace_dir
expand_trace_dir-Given tree dir (err e) is_dir listed =
    rw listed (unfold Given in (mem-cons_self, is_dir, listed))
expand_trace_dir-Given tree dir (ok entries) is_dir listed = rw listed (
    Given-sorted tree dir entries (trace_files tree entries) is_dir listed
      (trace_files-TraceFiles tree entries))

input-Given :
    (tree : FileTree) (input : FilePath)
    → Given tree input (if tree.is_dir input then expand_trace_dir tree input else ok (input ∷ []))
input-Given tree input = elim (Bool-cases (tree.is_dir input)) [
  | inl is_dir ↦ rw is_dir (expand_trace_dir-Given tree input (tree.read_dir input) is_dir refl)
  | inr is_file ↦ rw is_file (unfold Given in file is_file refl)
]

module _ (tree : FileTree) (input : FilePath) (inputs : List FilePath) where
  first : {dir : FilePath} → Mem dir (input ∷ []) → Mem dir (input ∷ inputs)
  first at = mem-append_left inputs at

  Unreadable-more : (e : InputError) → Unreadable tree inputs e → Unreadable tree (input ∷ inputs) e
  Unreadable-more (reading dir e) (at, is_dir, why) = (mem-cons_of_mem input at, is_dir, why)
  Unreadable-more (entry_failed e) (dir, entries, at, is_dir, listed, why) =
      (dir, entries, mem-cons_of_mem input at, is_dir, listed, why)

  Unreadable-first :
      (e : InputError) → Unreadable tree (input ∷ []) e → Unreadable tree (input ∷ inputs) e
  Unreadable-first (reading dir e) (at, is_dir, why) = (first at, is_dir, why)
  Unreadable-first (entry_failed e) (dir, entries, at, is_dir, listed, why) =
      (dir, entries, first at, is_dir, listed, why)

-- All inputs, before the last sorting.
Collected : FileTree → List FilePath → Result InputError (List FilePath) → Type 0
Collected tree inputs (ok files) = AllStandFor tree inputs files
Collected tree inputs (err e) = Unreadable tree inputs e

Collected-more :
    (tree : FileTree) (input : FilePath) (inputs : List FilePath)
    (first others : Result InputError (List FilePath))
    → Given tree input first
    → Collected tree inputs others
    → Collected tree (input ∷ inputs) (first >>= λ files. others >>= λ more. ok (files ++ more))
unfolding Given Collected
Collected-more tree input inputs (err e) others h hs = Unreadable-first tree input inputs e h
Collected-more tree input inputs (ok files) (err e) h hs = Unreadable-more tree input inputs e hs
Collected-more tree input inputs (ok files) (ok more) h hs =
    more_inputs input inputs files more h hs

collect_inputs-Collected :
    (tree : FileTree) (inputs : List FilePath) → Collected tree inputs (collect_inputs tree inputs)
unfolding collect_inputs
collect_inputs-Collected tree [] = unfold Collected in no_inputs
collect_inputs-Collected tree (input ∷ inputs) =
    Collected-more tree input inputs _ (collect_inputs tree inputs) (input-Given tree input)
      (collect_inputs-Collected tree inputs)

Collected-Expanded :
    (tree : FileTree) (inputs : List FilePath) (found : Result InputError (List FilePath))
    → Collected tree inputs found
    → Expanded tree inputs (found >>= λ files. ok (sort path_cmp files))
unfolding Collected
Collected-Expanded tree inputs (ok files) h = (
  IsOrdered-AreInOrder (sort path_cmp files) (sort-IsOrdered path_cmp path_cmp-connex files),
  (files, h, sort-Perm path_cmp files),
)
Collected-Expanded tree inputs (err e) h = h

-- On any file system and inputs: where the expansion succeeds, the files are in the order of their
-- keys, and are, each as often, the inputs that are no directories and, for each that is one, the
-- regular files in it that are named like a processor's; where it fails, an input is a directory
-- that cannot be read, with this error, or one with an entry that cannot be.
pub expand_input_paths-Expanded :
    (tree : FileTree) (inputs : List FilePath)
    → Expanded tree inputs (expand_input_paths tree inputs)
unfolding expand_input_paths
expand_input_paths-Expanded tree inputs =
    Collected-Expanded tree inputs (collect_inputs tree inputs)
      (collect_inputs-Collected tree inputs)
