-- ===== src/Session/Tracefs.antt =====
-- tracing/nvme-trace/src/ftrace.rs, lines 100 to 356: the tracing session. The files of tracefs are
-- what its calls answer, an error by its number; what a write answers may depend on the writes
-- before. Paths are relative to the tracing directory. A method returns with the writes that were
-- tried, in order.
use gds_traces.Capture.Thread.{PipeError}
use gds_traces.Text.Words.{trim}
use gds_traces.Text.Digits.{parse_unsigned}
use gds_traces.Base.Sort.{sort}
use gds_traces.Text.Affix.{Text, codes, strip_prefix}
use gds_traces.Session.FormatFile.{complete_format_of, submit_format_of}
use gds_traces.Ftrace.Formats.{CompleteFormat, SubmitFormat}
use gds_traces.Base.{
  Bool, if◌then◌else◌, List, Option, [], and_then, compare, none, some, ℕ, ◌++◌, ◌^◌, ◌∷◌,
}
use gds_traces.Base.Outcome.{Result, ok, err, map_err}

pub record Write : Type 0 where
  pub path : Text
  pub value : Text

abbrev pub Writes : Type 0
Writes = List Write

-- An entry's name is its bytes, which need not be UTF-8 text.
pub record DirEntry : Type 0 where
  pub name : Text
  pub is_utf8 : Bool

pub record Tracefs : Type 0 where
  pub write_answer : Writes → Write → Result ℕ (Unit {0})
  pub read_to_string : Text → Result ℕ Text
  pub per_cpu : Result ℕ (List (Result ℕ DirEntry))

pub data SessionError : Type 0 where
  cannot_read cannot_write : Text → ℕ → SessionError
  cannot_list : ℕ → SessionError
  no_cpus : SessionError
  bad_event_id no_field : Text → SessionError
  cannot_create cannot_handle : ℕ → SessionError
  thread_failed : PipeError → SessionError
  thread_panicked : SessionError
  incomplete : ℕ → SessionError

-- A step of a session: its result, and the writes tried so far.
abbrev pub Session : Type 0 → Type 0
Session A = Writes → Result SessionError A × Writes

abbrev pub continue_with :
    {A B : Type 0}
    → (A → Session B)
    → Result SessionError A × Writes
    → Result SessionError B × Writes
continue_with after (err e, tried) = (err e, tried)
continue_with after (ok a, tried) = after a tried

infixl 5 ◌>>=◌ ◌>>◌
abbrev pub ◌>>=◌ : {A B : Type 0} → Session A → (A → Session B) → Session B
◌>>=◌ first after tried = continue_with after (first tried)

abbrev pub ◌>>◌ : {B : Type 0} → Session (Unit {0}) → Session B → Session B
first >> second = first >>= λ done. second

abbrev pub from_result : {A : Type 0} → Result SessionError A → Session A
from_result r tried = (r, tried)

abbrev pub returns : {A : Type 0} → A → Session A
returns a tried = (ok a, tried)

-- The paths that the session uses.
abbrev pub submit_dir : Text
submit_dir = codes "events/nvme/nvme_pci_submit/"

abbrev pub complete_dir : Text
complete_dir = codes "events/nvme/nvme_pci_complete/"

module _ (fs : Tracefs) where
  unfoldable pub write_file : Text → Text → Session (Unit {0})
  write_file path value tried =
      let w : Write = record { path = path; value = value } in
      (map_err (cannot_write path) (fs.write_answer tried w), tried ++ w ∷ [])

  -- `let _ = write_file(..)`: the error is dropped.
  abbrev pub try_write : Text → Text → Session (Unit {0})
  try_write path value tried = (ok tt, (write_file path value tried).1)

  unfoldable pub read_text : Text → Result SessionError Text
  read_text path = map_err (cannot_read path) (fs.read_to_string path)

  abbrev pub some_id : Text → Option ℕ → Result SessionError ℕ
  some_id path none = err (bad_event_id path)
  some_id path (some id) = ok id

  abbrev pub id_of : Text → Result SessionError Text → Result SessionError ℕ
  id_of path (err e) = err e
  id_of path (ok s) = some_id path (parse_unsigned (2 ^ 16) (trim s))

  unfoldable pub read_event_id : Text → Result SessionError ℕ
  read_event_id dir = let path = dir ++ codes "id" in id_of path (read_text path)

  abbrev pub format_from :
      {A : Type 0} → (Text → Result Text A) → Result SessionError Text → Result SessionError A
  format_from reader (err e) = err e
  format_from reader (ok c) = map_err no_field (reader c)

  unfoldable pub parse_submit_format : Result SessionError SubmitFormat
  parse_submit_format = format_from submit_format_of (read_text (submit_dir ++ codes "format"))

  unfoldable pub parse_complete_format : Result SessionError CompleteFormat
  parse_complete_format =
      format_from complete_format_of (read_text (complete_dir ++ codes "format"))

  -- The number in the name `cpuN`.
  unfoldable pub cpu_number : DirEntry → Option ℕ
  cpu_number entry =
      if entry.is_utf8
      then and_then (strip_prefix (codes "cpu") entry.name) (parse_unsigned (2 ^ 32))
      else none

  abbrev pub add_cpu : Option ℕ → List ℕ → List ℕ
  add_cpu none cpus = cpus
  add_cpu (some n) cpus = n ∷ cpus

  abbrev pub add_entry : Option ℕ → Result SessionError (List ℕ) → Result SessionError (List ℕ)
  add_entry n (err e) = err e
  add_entry n (ok cpus) = ok (add_cpu n cpus)

  unfoldable pub cpus_in : List (Result ℕ DirEntry) → Result SessionError (List ℕ)
  cpus_in [] = ok []
  cpus_in (err e ∷ entries) = err (cannot_list e)
  cpus_in (ok entry ∷ entries) = add_entry (cpu_number entry) (cpus_in entries)

  abbrev pub some_cpus : Result SessionError (List ℕ) → Result SessionError (List ℕ)
  some_cpus (err e) = err e
  some_cpus (ok []) = err no_cpus
  some_cpus (ok (n ∷ cpus)) = ok (sort compare (n ∷ cpus))

  abbrev pub cpus_of : Result ℕ (List (Result ℕ DirEntry)) → Result SessionError (List ℕ)
  cpus_of (err e) = err (cannot_read (codes "per_cpu") e)
  cpus_of (ok entries) = some_cpus (cpus_in entries)

  -- `discover_cpus`, which `online_cpus` and `num_online_cpus` call.
  unfoldable pub discover_cpus : Result SessionError (List ℕ)
  discover_cpus = cpus_of fs.per_cpu
