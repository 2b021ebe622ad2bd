-- ===== src/Ftrace/Total.antt =====
-- tracing/nvme-trace/src/ftrace.rs, lines 382 to 503: the page loop on any page.
use gds_traces.Base.Bytes.{from_le}
use gds_traces.Reader.Records.{new}
use gds_traces.Ftrace.Page.{
  page_loop, page_round, parse_page_events, Events, PageState, Round, dispatch_event, emitted, next,
  page_event, page_match, stop,
}
use gds_traces.Ftrace.Safety.{
  IsCompleteLayout, IsSubmitLayout, complete_values_at, encode_complete-eq, encode_submit-eq,
  submit_values_at,
}
use gds_traces.Ftrace.Encode.{write_complete, write_submit}
use gds_traces.Base.{
  Bool, false, leb, leb→le, suc, true, zero, ◌%◌, ◌*◌, ◌/◌, ◌<◌, ◌^◌, ◌||◌, Bool-cases, List,
  Option, [], ap, append-nil, append_assoc, arith, if◌then◌else◌, inl, inr, length, ltb, ltb→le,
  none, refl, slice, some, sym, ◌&&◌, ◌++◌, ◌+◌, ◌==◌, ◌∙◌, ◌≡◌, ◌≤◌, ◌⊎◌, ℕ,
}
use gds_traces.Ftrace.Run.{Run, done, end_within}

pub record IsLayout (ev : Events) : Type 0 where
  pub submit_layout : IsSubmitLayout ev.submit_fmt
  pub complete_layout : IsCompleteLayout ev.complete_fmt

-- `out'` is `out` with something behind it.
abbrev pub Extends : List ℕ → List ℕ → Type 0
Extends out out' = (new : List ℕ) × (out' ≡ out ++ new)

Extends-refl : (out : List ℕ) → Extends out out
Extends-refl out = ([], sym (append-nil out))

Extends-trans : (a b c : List ℕ) → Extends a b → Extends b c → Extends a c
Extends-trans a b c (x, p) (y, q) = (x ++ y, q ∙ ap (λ r. r ++ y) p ∙ append_assoc a x y)

emitted-Extends : (out : List ℕ) (o : Option (List ℕ)) → Extends out (emitted out o).1
emitted-Extends out none = Extends-refl out
emitted-Extends out (some rec) = (rec, refl)

-- The records of an event: none, or one.
unfoldable pub event_record : Events → List ℕ → ℕ → Option (List ℕ)
event_record ev bytes ts =
    let event_type = from_le (slice bytes 0 2) in
    if ltb (length bytes) 2
    then none
    else if event_type == ev.submit_id
    then (if end_within ev.submit_fmt.descriptors_dataloc 4 (length bytes)
          && end_within ev.submit_fmt.sqe 64 (length bytes)
        then some (write_submit ts (submit_values_at bytes ev.submit_fmt))
        else none)
    else if event_type == ev.complete_id
    then (if end_within ev.complete_fmt.retries 1 (length bytes)
        then some (write_complete ts (complete_values_at bytes ev.complete_fmt))
        else none)
    else none

pub dispatch_event-eq :
    (ev : Events) (bytes : List ℕ) (ts : ℕ) (out : List ℕ)
    → IsLayout ev
    → dispatch_event ev bytes ts out ≡ done (emitted out (event_record ev bytes ts))
unfolding dispatch_event event_record
dispatch_event-eq ev bytes ts out l = elim (Bool-cases (ltb (length bytes) 2)) [
  | inl short ↦ rw short
  | inr long ↦ elim (Bool-cases (from_le (slice bytes 0 2) == ev.submit_id)) [
    | inl s ↦ rw long (rw s (rw (encode_submit-eq bytes ts ev.submit_fmt l.submit_layout)))
    | inr s ↦ elim (Bool-cases (from_le (slice bytes 0 2) == ev.complete_id)) [
      | inl c ↦
          rw long (rw s (rw c (rw (encode_complete-eq bytes ts ev.complete_fmt l.complete_layout))))
      | inr c ↦ rw long (rw s (rw c))
    ]
  ]
]

-- A round stops, or moves on within the data.
abbrev Moves : List ℕ → PageState → Run Round → Type 0
Moves bytes s r =
    (r ≡ done stop)
    ⊎ ((s' : PageState) × (r ≡ done (next s'))
        × (s.pos + 4 ≤ s'.pos)
        × (s'.pos ≤ length bytes)
        × Extends s.out s'.out)

module _ (ev : Events) (l : IsLayout ev) (bytes : List ℕ) (s : PageState) where
  Moves-if :
      (b : Bool) {x y : Run Round}
      → (b ≡ true → Moves bytes s x)
      → (b ≡ false → Moves bytes s y)
      → Moves bytes s (if b then x else y)
  Moves-if true hx hy = hx refl
  Moves-if false hx hy = hy refl

  page_event-Moves :
      (pos event_len ts : ℕ)
      → s.pos + 4 ≤ pos
      → pos + event_len ≤ length bytes
      → Moves bytes s (page_event ev bytes s pos event_len ts)
  unfolding page_event
  page_event-Moves pos event_len ts h k =
      let o = event_record ev (slice bytes pos event_len) ts in
      inr (
        record {
          pos = pos + event_len;
          ts = ts;
          count = s.count + (emitted s.out o).0;
          out = (emitted s.out o).1;
        },
        rw (dispatch_event-eq ev (slice bytes pos event_len) ts s.out l),
        omega arith,
        k,
        emitted-Extends s.out o,
      )

  page_match-Moves :
      (type_len time_delta : ℕ)
      → s.pos + 4 ≤ length bytes
      → Moves bytes s (page_match ev bytes s (s.pos + 4) type_len time_delta)
  unfolding page_match
  page_match-Moves type_len time_delta h =
      let event_len = from_le (slice bytes (s.pos + 4) 4) in
      Moves-if (type_len == 31) (λ _. inl refl)
        λ _.
          Moves-if (type_len == 30)
            (λ _.
              Moves-if (ltb (length bytes) (s.pos + 4 + 8)) (λ _. inl refl)
                λ fits. inr (_, refl, omega arith, ltb→le _ _ fits, Extends-refl s.out))
            λ _.
              Moves-if (type_len == 29)
                (λ _.
                  Moves-if (ltb (length bytes) (s.pos + 4 + 4)) (λ _. inl refl)
                    λ fits. inr (_, refl, omega arith, ltb→le _ _ fits, Extends-refl s.out))
                λ _.
                  Moves-if (type_len == 0)
                    (λ _.
                      Moves-if (ltb (length bytes) (s.pos + 4 + 4)) (λ _. inl refl)
                        λ _.
                          Moves-if
                            (event_len == 0 || ltb (length bytes) (s.pos + 4 + 4 + event_len))
                            (λ _. inl refl)
                            λ fits.
                              page_event-Moves (s.pos + 4 + 4) event_len _ (omega arith)
                                (ground arith))
                    λ _.
                      Moves-if (ltb (length bytes) (s.pos + 4 + type_len * 4)) (λ _. inl refl)
                        λ fits.
                          page_event-Moves (s.pos + 4) (type_len * 4) _ (omega arith)
                            (ltb→le _ _ fits)

  page_round-Moves : Moves bytes s (page_round ev bytes s)
  unfolding page_round
  page_round-Moves =
      let hdr = from_le (slice bytes s.pos 4) in
      Moves-if (leb (s.pos + 4) (length bytes))
        (λ here. page_match-Moves (hdr % 2 ^ 5) (hdr / 2 ^ 5) (leb→le _ _ here)) (λ _. inl refl)

module _ (ev : Events) (l : IsLayout ev) (bytes : List ℕ) where
  -- Fuel for the bytes that are left is enough, and no round panics.
  page_loop_total :
      (fuel : ℕ) (s : PageState)
      → length bytes < s.pos + fuel
      → s.pos ≤ length bytes
      → (s' : PageState) × (page_loop fuel ev bytes s ≡ done s') × Extends s.out s'.out
  unfolding page_loop
  page_loop_total zero s h k = absurd (omega arith)
  page_loop_total (suc fuel) s h k = elim (page_round-Moves ev l bytes s) [
    | inl e ↦ (s, rw (e, page_loop), Extends-refl s.out)
    | inr (s1, e, step, within, x) ↦
        let (s2, e2, y) = page_loop_total fuel s1 (omega arith) within in
        (s2, rw (e, page_loop) e2, Extends-trans s.out s1.out s2.out x y)
  ]

pub parse_page_events_total :
    (ev : Events) (page out : List ℕ)
    → IsLayout ev
    → (n : ℕ) × (new : List ℕ) × (parse_page_events ev page out ≡ done (n, out ++ new))
unfolding parse_page_events
parse_page_events_total ev page out l =
    let commit = from_le (slice page 8 4) in
    let bytes = slice page 16 commit in
    let s : PageState = record { pos = 0; ts = from_le (slice page 0 8); count = 0; out = out } in
    let (s', e, (new, x)) =
      page_loop_total ev l bytes (suc (length bytes)) s (omega arith) (omega arith) in
    elim (Bool-cases (commit == 0 || ltb 4080 commit)) [
      | inl bad ↦ (0, [], rw bad (rw append-nil))
      | inr good ↦ (s'.count, new, rw good (rw e (rw x)))
    ]
