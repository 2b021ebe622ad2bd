-- ===== src/Session/Losses.antt =====
-- tracing/nvme-trace/src/ftrace.rs, lines 166 to 187: the lost events, said of the `stats` files.
use gds_traces.Text.Affix.{Text, codes, strip_prefix, strip_prefix-append, strip_prefix-inverts}
use gds_traces.Session.Control.{check_overruns, overrun_in, overruns_in, stats_path, sum_overruns}
use gds_traces.Text.Words.{lines, trim}
use gds_traces.Base.Outcome.{Result, Result-cases, err, ok}
use gds_traces.Session.Tracefs.{SessionError, DirEntry, Tracefs}
use gds_traces.Text.Digits.{parse_unsigned}
use gds_traces.Base.{
  List, Option-cases, [], ap, arith, inl, inr, none, refl, some, sym, ℕ, ◌%◌, ◌++◌, ◌+◌, ◌^◌, ◌∙◌,
  ◌∷◌, ◌≡◌, ◌⊎◌,
}

-- The line gives the count `n`.
abbrev pub GivesCount : Text → ℕ → Type 0
GivesCount line n =
    (v : Text) × (line ≡ codes "overrun:" ++ v) × (parse_unsigned (2 ^ 64) (trim v) ≡ some n)

-- The sum of the counts of some lines.
pub data CountsAdd : List Text → ℕ → Type 0 where
  no_lines : CountsAdd [] 0
  counts :
      {line : Text} {n : ℕ} {more : List Text} {whole : ℕ}
      → GivesCount line n
      → CountsAdd more whole
      → CountsAdd (line ∷ more) (n + whole)
  counts_nothing :
      {line : Text} {more : List Text} {whole : ℕ}
      → ((n : ℕ) → ¬ GivesCount line n)
      → CountsAdd more whole
      → CountsAdd (line ∷ more) whole

-- The sum of the counts in the `stats` files of some entries; a file may be missing.
pub data LostIn (fs : Tracefs) : List (Result ℕ DirEntry) → ℕ → Type 0 where
  no_entries : LostIn fs [] 0
  has_stats :
      {entry : DirEntry} {content : Text} {here : ℕ} {more : List (Result ℕ DirEntry)} {whole : ℕ}
      → fs.read_to_string (codes "per_cpu/" ++ (entry.name ++ codes "/stats")) ≡ ok content
      → CountsAdd (lines content) here
      → LostIn fs more whole
      → LostIn fs (ok entry ∷ more) (here + whole)
  has_no_stats :
      {entry : DirEntry} {code : ℕ} {more : List (Result ℕ DirEntry)} {whole : ℕ}
      → fs.read_to_string (codes "per_cpu/" ++ (entry.name ++ codes "/stats")) ≡ err code
      → LostIn fs more whole
      → LostIn fs (ok entry ∷ more) whole

-- The counts of all processors' files add up to `n`, in 64 bits.
abbrev pub Lost : Tracefs → ℕ → Type 0
Lost fs n =
    (entries : List (Result ℕ DirEntry)) × (fs.per_cpu ≡ ok entries)
    × ((whole : ℕ) × LostIn fs entries whole × (whole % 2 ^ 64 ≡ n))

some_eq : {a b : Text} → some a ≡ some b → a ≡ b
some_eq {a} e = ap (λ o. elim o [ none ↦ a | some x ↦ x ]) e

ok_eq : {a b : ℕ} → ◌≡◌ {A = Result SessionError ℕ} (ok a) (ok b) → a ≡ b
ok_eq {a} e = ap (λ r. elim r [ ok x ↦ x | err x ↦ a ]) e

count_in :
    (line : Text)
    → ((n : ℕ) × GivesCount line n × (overrun_in line ≡ n))
      ⊎ (((n : ℕ) → ¬ GivesCount line n) × (overrun_in line ≡ 0))
unfolding overrun_in
count_in line = elim (Option-cases (strip_prefix (codes "overrun:") line)) [
  | inl e ↦ inr (
    (λ n (v, starts, number). cc (
        sym e
        ∙ ap (strip_prefix (codes "overrun:")) starts
        ∙ strip_prefix-append (codes "overrun:") v)),
    rw (e, overrun_in) refl,
  )
  | inr (v, e) ↦ elim (Option-cases (parse_unsigned (2 ^ 64) (trim v))) [
    | inl bad ↦ inr (
      (λ n (w, starts, number).
          let same : v ≡ w = some_eq (
            sym e
            ∙ ap (strip_prefix (codes "overrun:")) starts
            ∙ strip_prefix-append (codes "overrun:") w) in
          cc (sym bad ∙ ap (λ t. parse_unsigned (2 ^ 64) (trim t)) same ∙ number)),
      rw (e, overrun_in) (rw bad refl),
    )
    | inr (n, number) ↦ inl (
      n,
      (v, strip_prefix-inverts (codes "overrun:") line e, number),
      rw (e, overrun_in) (rw number refl),
    )
  ]
]

overruns_in-CountsAdd :
    (ls : List Text) (sum k : ℕ)
    → sum ≡ k % 2 ^ 64
    → (whole : ℕ) × CountsAdd ls whole × (overruns_in ls sum ≡ (k + whole) % 2 ^ 64)
unfolding overruns_in
overruns_in-CountsAdd [] sum k h = (0, no_lines, omega arith)
overruns_in-CountsAdd (line ∷ more) sum k h = elim (count_in line) [
  | inl (n, given, e) ↦
      let (whole, added, q) =
        overruns_in-CountsAdd more ((sum + overrun_in line) % 2 ^ 64) (k + n) (omega arith) in
      (n + whole, counts given added, q ∙ omega arith)
  | inr (nothing_given, e) ↦
      let (whole, added, q) =
        overruns_in-CountsAdd more ((sum + overrun_in line) % 2 ^ 64) k (omega arith) in
      (whole, counts_nothing nothing_given added, q)
]

module _ (fs : Tracefs) where
  sum_overruns-LostIn :
      (entries : List (Result ℕ DirEntry)) (sum k n : ℕ)
      → sum ≡ k % 2 ^ 64
      → sum_overruns fs entries sum ≡ ok n
      → (whole : ℕ) × LostIn fs entries whole × (n ≡ (k + whole) % 2 ^ 64)
  unfolding sum_overruns
  sum_overruns-LostIn [] sum k n h e = (0, no_entries, let same : sum ≡ n = ok_eq e in omega arith)
  sum_overruns-LostIn (err x ∷ entries) sum k n h e = cc
  sum_overruns-LostIn (ok entry ∷ entries) sum k n h e =
      elim (Result-cases (fs.read_to_string (stats_path entry))) [
        | inl (content, read) ↦
            let (here, added, q) = overruns_in-CountsAdd (lines content) sum k h in
            let (whole, lost, r) =
              sum_overruns-LostIn entries (overruns_in (lines content) sum) (k + here) n q
                (rw read at e) in
            (here + whole, has_stats read added lost, r ∙ omega arith)
        | inr (code, missing) ↦
            let (whole, lost, r) = sum_overruns-LostIn entries sum k n h (rw missing at e) in
            (whole, has_no_stats missing lost, r)
      ]

  -- The overruns that are counted are those of the `stats` files.
  pub check_overruns-Lost : (n : ℕ) → check_overruns fs ≡ ok n → Lost fs n
  unfolding check_overruns sum_overruns
  check_overruns-Lost n e = elim (Result-cases fs.per_cpu) [
    | inl (entries, found) ↦
        let (whole, lost, r) = sum_overruns-LostIn entries 0 0 n (omega arith) (rw found at e) in
        (entries, found, (whole, lost, omega arith))
    | inr (code, missing) ↦ cc (rw missing at e)
  ]
