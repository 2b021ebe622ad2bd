-- ===== src/Ftrace/Ring.antt =====
-- The page format that the comment above `parse_page_events` (ftrace.rs, lines 365 to 381) lays
-- down: a description of its own, as a writer of pages.
use gds_traces.Base.Bytes.{le_bytes}
use gds_traces.Base.{
  List, Option, [], length, none, some, ◌%◌, ◌*◌, ◌++◌, ◌+◌, ◌<◌, ◌^◌, ◌∷◌, ◌≡◌, ◌≤◌, ℕ,
}

-- The entries of a ring buffer. `short` has its length, in words, in the header; `long` has it, in
-- bytes, in a word of its own.
pub data Entry : Type 0 where
  short : ℕ → ℕ → List ℕ → Entry
  long : ℕ → List ℕ → Entry
  time_extend : ℕ → ℕ → Entry
  time_stamp : ℕ → ℕ → Entry

-- `type_len` in the low five bits, `time_delta` in the other 27.
unfoldable pub entry_head : ℕ → ℕ → List ℕ
entry_head type_len time_delta = le_bytes 4 (time_delta * 32 + type_len)

unfoldable pub entry_bytes : Entry → List ℕ
entry_bytes (short words delta payload) = entry_head words delta ++ payload
entry_bytes (long delta payload) = entry_head 0 delta ++ (le_bytes 4 (length payload) ++ payload)
entry_bytes (time_extend delta upper) = entry_head 29 delta ++ le_bytes 4 upper
entry_bytes (time_stamp delta time) = entry_head 30 delta ++ le_bytes 8 time

abbrev pub IsEntry : Entry → Type 0
IsEntry (short words delta payload) =
    (1 ≤ words) × (words ≤ 28) × (delta < 2 ^ 27) × (length payload ≡ words * 4)
IsEntry (long delta payload) = (delta < 2 ^ 27) × (1 ≤ length payload) × (length payload < 2 ^ 32)
IsEntry (time_extend delta upper) = (delta < 2 ^ 27) × (upper < 2 ^ 32)
IsEntry (time_stamp delta time) = (delta < 2 ^ 27) × (time < 2 ^ 64)

-- The clock behind an entry.
unfoldable pub clock : ℕ → Entry → ℕ
clock ts (short words delta payload) = (ts + delta) % 2 ^ 64
clock ts (long delta payload) = (ts + delta) % 2 ^ 64
clock ts (time_extend delta upper) = (ts + (upper * 2 ^ 27 + delta)) % 2 ^ 64
clock ts (time_stamp delta time) = time

unfoldable pub entry_payload : Entry → Option (List ℕ)
entry_payload (short words delta payload) = some payload
entry_payload (long delta payload) = some payload
entry_payload (time_extend delta upper) = none
entry_payload (time_stamp delta time) = none

-- The events of a page, each with its time.
unfoldable pub timed_events : ℕ → List Entry → List (List ℕ × ℕ)
timed_events ts [] = []
timed_events ts (e ∷ es) =
    let rest = timed_events (clock ts e) es in
    elim (entry_payload e) [ none ↦ rest | some payload ↦ (payload, clock ts e) ∷ rest ]

unfoldable pub entries_bytes : List Entry → List ℕ
entries_bytes [] = []
entries_bytes (e ∷ es) = entry_bytes e ++ entries_bytes es

-- What may stand behind the last entry: too few bytes for a header, or a padding entry.
pub data Ending : Type 0 where
  cut : List ℕ → Ending
  padding : ℕ → List ℕ → Ending

unfoldable pub ending_bytes : Ending → List ℕ
ending_bytes (cut bytes) = bytes
ending_bytes (padding delta bytes) = entry_head 31 delta ++ bytes

abbrev pub IsEnding : Ending → Type 0
IsEnding (cut bytes) = length bytes < 4
IsEnding (padding delta bytes) = delta < 2 ^ 27

-- A page: its time, the number of bytes committed, a word that is not read, the entries, and what
-- the buffer held behind them.
unfoldable pub page_bytes : ℕ → List ℕ → List ℕ → List ℕ → List ℕ
page_bytes ts ignored body behind =
    le_bytes 8 ts ++ (le_bytes 4 (length body) ++ (ignored ++ (body ++ behind)))
