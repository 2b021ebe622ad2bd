-- ===== src/Ftrace/Replay.antt =====
-- tracing/nvme-trace/src/ftrace.rs, lines 382 to 474: `parse_page_events` on a page of the
-- documented format.
use gds_traces.Base.Bytes.{from_le, from_le-le_bytes, le_bytes, length-le_bytes}
use gds_traces.Ftrace.Total.{IsLayout, event_record}
use gds_traces.Format.Readers.{count}
use gds_traces.Ftrace.Page.{emitted, parse_page_events, Events, PageState, page_loop}
use gds_traces.Ftrace.Rounds.{slice-append, page_round-Ending, page_round-Steps, stepped}
use gds_traces.Ftrace.Ring.{
  entry_head, clock, entry_payload, long, page_bytes, short, time_extend, time_stamp, Ending, Entry,
  IsEnding, IsEntry, ending_bytes, entries_bytes, entry_bytes, timed_events,
}
use gds_traces.Base.{
  Option, le→ltb, ne→==, refl, slice, take-append_length, ◌^◌, ◌∙◌, ◌≤◌, All, List, [], ap,
  append-nil, append_assoc, arith, length, length-append, none, some, suc, zero, ◌++◌, ◌+◌, ◌<◌,
  ◌∷◌, ◌≡◌, ℕ,
}
use gds_traces.Ftrace.Run.{done}

abbrev pub add_record : Option (List ℕ) → List (List ℕ) → List (List ℕ)
add_record none rs = rs
add_record (some rec) rs = rec ∷ rs

-- The records of the events, in their order.
unfoldable pub records_of : Events → List (List ℕ × ℕ) → List (List ℕ)
records_of ev [] = []
records_of ev ((bytes, ts) ∷ es) = add_record (event_record ev bytes ts) (records_of ev es)

unfoldable pub flatten : List (List ℕ) → List ℕ
flatten [] = []
flatten (x ∷ xs) = x ++ flatten xs

-- The records that a page gives.
abbrev pub page_records : Events → ℕ → List Entry → List (List ℕ)
page_records ev ts es = records_of ev (timed_events ts es)

-- What the loop has at the end, from a state before the entries `es`.
abbrev Replayed : Events → PageState → List Entry → PageState → Type 0
Replayed ev s es s' =
    (s'.count ≡ s.count + length (page_records ev s.ts es))
    × (s'.out ≡ s.out ++ flatten (page_records ev s.ts es))

-- An event's record, if it has one, stands before those of the later events.
event_part :
    (o : Option (List ℕ)) (rs : List (List ℕ)) (out out' : List ℕ) (n n' : ℕ)
    → n' ≡ n + (emitted out o).0 + length rs
    → out' ≡ (emitted out o).1 ++ flatten rs
    → (n' ≡ n + length (add_record o rs)) × (out' ≡ out ++ flatten (add_record o rs))
unfolding flatten
event_part none rs out out' n n' h k = (omega arith, k)
event_part (some rec) rs out out' n n' h k = (omega arith, k ∙ append_assoc out rec (flatten rs))

length-entry_bytes : (e : Entry) → 4 ≤ length (entry_bytes e)
unfolding entry_bytes entry_head le_bytes
length-entry_bytes (short words delta payload) = omega arith
length-entry_bytes (long delta payload) = omega arith
length-entry_bytes (time_extend delta upper) = omega arith
length-entry_bytes (time_stamp delta time) = omega arith

length-entries_bytes : (es : List Entry) → length es ≤ length (entries_bytes es)
unfolding entries_bytes
length-entries_bytes [] = omega arith
length-entries_bytes (e ∷ es) = omega (
  arith,
  length-entries_bytes es,
  length-entry_bytes e,
  length-append (entry_bytes e) (entries_bytes es),
)

module _ (ev : Events) (l : IsLayout ev) where
  Replayed-step :
      (s s' : PageState) (e : Entry) (es : List Entry) (n : ℕ)
      → Replayed ev (stepped ev s e n) es s'
      → Replayed ev s (e ∷ es) s'
  unfolding timed_events records_of flatten entry_payload
  Replayed-step s s' (short words delta payload) es n (h, k) =
      event_part (event_record ev payload (clock s.ts (short words delta payload))) _ s.out s'.out
        s.count s'.count h k
  Replayed-step s s' (long delta payload) es n (h, k) =
      event_part (event_record ev payload (clock s.ts (long delta payload))) _ s.out s'.out s.count
        s'.count h k
  Replayed-step s s' (time_extend delta upper) es n h = h
  Replayed-step s s' (time_stamp delta time) es n h = h

  page_loop-replay :
      (es : List Entry) (ending : Ending) (fuel : ℕ) (before : List ℕ) (s : PageState)
      → s.pos ≡ length before
      → All IsEntry es
      → IsEnding ending
      → length es < fuel
      → (s' : PageState) × (page_loop fuel ev
            (before ++ (entries_bytes es ++ ending_bytes ending))
            s
          ≡ done s')
        × Replayed ev s es s'
  unfolding entries_bytes timed_events records_of flatten page_loop
  page_loop-replay es ending zero before s at h g f = absurd (omega arith)
  page_loop-replay [] ending (suc fuel) before s at h g f =
      (s, rw (page_round-Ending ev l before s at ending g, page_loop), (omega arith, rw append-nil))
  page_loop-replay (e ∷ es) ending (suc fuel) before s at (he, hes) g f =
      let rest = entries_bytes es ++ ending_bytes ending in
      let n = s.pos + length (entry_bytes e) in
      let step = page_round-Steps ev l before s at e he rest in
      let (s', q, r) =
        page_loop-replay es ending fuel (before ++ entry_bytes e) (stepped ev s e n)
          (omega (arith, length-append before (entry_bytes e))) hes g (omega arith) in
      let whole : before ++ ((entry_bytes e ++ entries_bytes es) ++ ending_bytes ending)
          ≡ before ++ (entry_bytes e ++ rest) =
        ap (λ x. before ++ x)
          (append_assoc (entry_bytes e) (entries_bytes es) (ending_bytes ending)) in
      (
        s',
        rw whole (rw (step, page_loop) (rw (append_assoc before (entry_bytes e) rest) at q)),
        Replayed-step s s' e es n r,
      )

  enough_fuel :
      (es : List Entry) (rest : List ℕ) → length es < suc (length (entries_bytes es ++ rest))
  enough_fuel es rest =
      omega (arith, length-entries_bytes es, length-append (entries_bytes es) rest)

  page_commit :
      (ts : ℕ) (ignored body behind : List ℕ)
      → ts < 2 ^ 64
      → length ignored ≡ 4
      → length body < 2 ^ 32
      → let page = page_bytes ts ignored body behind in
        (from_le (slice page 0 8) ≡ ts)
        × (from_le (slice page 8 4) ≡ length body)
        × (slice page 16 (length body) ≡ body)
  unfolding page_bytes
  page_commit ts ignored body behind h i b =
      let t8 = length-le_bytes 8 ts in
      let c4 = length-le_bytes 4 (length body) in
      let later = le_bytes 4 (length body) ++ (ignored ++ (body ++ behind)) in
      (
        rw (take-append_length 8 (le_bytes 8 ts) later t8) (from_le-le_bytes 8 ts h),
        rw
            (slice-append (le_bytes 8 ts) later 0 8 4 (omega arith)
              ∙ take-append_length 4 (le_bytes 4 (length body)) (ignored ++ (body ++ behind)) c4)
            (from_le-le_bytes 4 (length body) b),
        slice-append (le_bytes 8 ts) later 8 16 (length body) (omega arith)
            ∙ slice-append (le_bytes 4 (length body)) (ignored ++ (body ++ behind)) 4 8
                (length body) (omega arith)
            ∙ slice-append ignored (body ++ behind) 0 4 (length body) (omega arith)
            ∙ take-append_length (length body) body behind refl,
      )

  -- Let a page of the documented format have a 64-bit time, well-formed entries and an ending, and
  -- between 1 and 4080 committed bytes, whatever the word that is not read and the bytes behind;
  -- and let the field tables have the documented layout. Then `parse_page_events` writes behind
  -- `out` the record of each submission and completion event that is long enough, in their order,
  -- each at the time of its entry, and returns their number.
  pub parse_page_events-replay :
      (ts : ℕ) (ignored behind out : List ℕ) (es : List Entry) (ending : Ending)
      → ts < 2 ^ 64
      → length ignored ≡ 4
      → All IsEntry es
      → IsEnding ending
      → 0 < length (entries_bytes es ++ ending_bytes ending)
      → length (entries_bytes es ++ ending_bytes ending) ≤ 4080
      → parse_page_events ev
          (page_bytes ts ignored (entries_bytes es ++ ending_bytes ending) behind)
          out
        ≡ done (length (page_records ev ts es), out ++ flatten (page_records ev ts es))
  unfolding parse_page_events
  parse_page_events-replay ts ignored behind out es ending h i he hg lo hi =
      let body = entries_bytes es ++ ending_bytes ending in
      let (pt, pc, pb) = page_commit ts ignored body behind h i (omega arith) in
      let s : PageState = record { pos = 0; ts = ts; count = 0; out = out } in
      let fuel = enough_fuel es (ending_bytes ending) in
      let (s', q, (count, same)) =
        page_loop-replay es ending (suc (length body)) [] s refl he hg fuel in
      let counted : s'.count ≡ length (page_records ev ts es) = omega arith in
      rw pt (
        rw pc (
          rw (ne→== (length body) 0 (omega arith))
            (rw (le→ltb 4080 (length body) hi) (rw pb (rw q (rw same (rw counted)))))))
