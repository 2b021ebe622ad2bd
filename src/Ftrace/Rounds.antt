-- ===== src/Ftrace/Rounds.antt =====
-- tracing/nvme-trace/src/ftrace.rs, lines 403 to 471: one round of the page loop on each kind of
-- entry.
use gds_traces.Base.Bits.{bit_or-disjoint}
use gds_traces.Base.Bytes.{length-le_bytes, from_le, from_le-le_bytes, le_bytes}
use gds_traces.Ftrace.Ring.{
  Ending, IsEnding, ending_bytes, padding, long, time_extend, time_stamp, IsEntry, cut, entry_bytes,
  short, Entry, clock, entry_head, entry_payload,
}
use gds_traces.Ftrace.Total.{dispatch_event-eq, IsLayout, event_record}
use gds_traces.Ftrace.Page.{
  stop, next, page_event, wrapping_add, Events, PageState, emitted, page_match, page_round,
}
use gds_traces.Base.{
  lt→leb, sym, append_assoc, le→leb, le→ltb, ne→==, refl, take-append_length, ◌∙◌, List, ap, arith,
  leb, length, length-append, none, slice, some, take, take-append_behind, true, ◌%◌, ◌*◌, ◌++◌,
  ◌+◌, ◌/◌, ◌<◌, ◌^◌, ◌≡◌, ℕ,
}
use gds_traces.Ftrace.Run.{done}

pub slice-append :
    (before xs : List ℕ) (j n k : ℕ)
    → length before + j ≡ n
    → slice (before ++ xs) n k ≡ slice xs j k
slice-append before xs j n k e = ap (take k) (take-append_behind before xs n j e).1

head-fields :
    (type_len delta : ℕ) (rest : List ℕ)
    → type_len < 32
    → delta < 2 ^ 27
    → let hdr = from_le (slice (entry_head type_len delta ++ rest) 0 4) in
      (hdr % 2 ^ 5 ≡ type_len) × (hdr / 2 ^ 5 ≡ delta)
unfolding entry_head le_bytes
head-fields type_len delta rest t d =
    let e = from_le-le_bytes 4 (delta * 32 + type_len) (omega arith) in
    rw e (omega arith, omega arith)

pub length-entry_head : (type_len delta : ℕ) → length (entry_head type_len delta) ≡ 4
unfolding entry_head le_bytes
length-entry_head type_len delta = refl

-- The state behind an entry.
abbrev pub stepped : Events → PageState → Entry → ℕ → PageState
stepped ev s e n = record {
  pos = n;
  ts = clock s.ts e;
  count = elim (entry_payload e) [
    | none ↦ s.count
    | some p ↦ s.count + (emitted s.out (event_record ev p (clock s.ts e))).0
  ];
  out = elim (entry_payload e) [
    | none ↦ s.out
    | some p ↦ (emitted s.out (event_record ev p (clock s.ts e))).1
  ];
}

module _ (ev : Events) (l : IsLayout ev) (before : List ℕ) (s : PageState)
    (at : s.pos ≡ length before) where
  page_round-head :
      (type_len delta : ℕ) (rest : List ℕ)
      → type_len < 32
      → delta < 2 ^ 27
      → page_round ev (before ++ (entry_head type_len delta ++ rest)) s
        ≡ page_match ev (before ++ (entry_head type_len delta ++ rest)) s (s.pos + 4) type_len delta
  unfolding page_round
  page_round-head type_len delta rest t d =
      let bytes = before ++ (entry_head type_len delta ++ rest) in
      let n = length-append before (entry_head type_len delta ++ rest) in
      let here : leb (s.pos + 4) (length bytes) ≡ true = le→leb _ _ (
        omega (
          arith,
          n,
          length-append (entry_head type_len delta) rest,
          length-entry_head type_len delta,
        )) in
      let sl = slice-append before (entry_head type_len delta ++ rest) 0 s.pos 4 (omega arith) in
      let (p, q) = head-fields type_len delta rest t d in rw here (rw sl (rw p (rw q)))

  -- The payload of an event, `head` bytes behind its start.
  page_event-payload :
      (front payload rest bytes : List ℕ) (pos ts : ℕ)
      → bytes ≡ before ++ (front ++ (payload ++ rest))
      → pos ≡ s.pos + length front
      → page_event ev bytes s pos (length payload) ts
        ≡ done (
            next (record {
              pos = pos + length payload;
              ts = ts;
              count = s.count + (emitted s.out (event_record ev payload ts)).0;
              out = (emitted s.out (event_record ev payload ts)).1;
            }))
  unfolding page_event
  page_event-payload front payload rest bytes pos ts e p =
      let sl1 =
        slice-append before (front ++ (payload ++ rest)) (length front) pos (length payload)
          (omega arith) in
      let sl2 =
        slice-append front (payload ++ rest) 0 (length front) (length payload) (omega arith) in
      let cut : slice bytes pos (length payload) ≡ payload =
        rw e (sl1 ∙ sl2 ∙ take-append_length (length payload) payload rest refl) in
      rw cut (rw (dispatch_event-eq ev payload ts s.out l))

  length-event :
      (head payload rest : List ℕ)
      → length (before ++ (head ++ (payload ++ rest)))
        ≡ length before + (length head + (length payload + length rest))
  length-event head payload rest = omega (
    arith,
    length-append before (head ++ (payload ++ rest)),
    length-append head (payload ++ rest),
    length-append payload rest,
  )

  -- A round on an entry leaves the state that the entry says.
  abbrev pub Steps : Entry → Type 0
  Steps e =
      (rest : List ℕ)
      → page_round ev (before ++ (entry_bytes e ++ rest)) s
        ≡ done (next (stepped ev s e (s.pos + length (entry_bytes e))))

  arrive :
      (e : Entry) (m n : ℕ)
      → m ≡ n
      → done (next (stepped ev s e m)) ≡ done (next (stepped ev s e n))
  arrive e m n p = ap (λ k. done (next (stepped ev s e k))) p

  round-short :
      (words delta : ℕ) (payload : List ℕ)
      → IsEntry (short words delta payload)
      → Steps (short words delta payload)
  unfolding entry_bytes clock entry_payload page_match
  round-short words delta payload (lo, hi, d, size) rest =
      let head = entry_head words delta in
      let bytes = before ++ (head ++ (payload ++ rest)) in
      let h4 = length-entry_head words delta in
      let fits =
        le→ltb (length bytes) (s.pos + 4 + words * 4)
          (omega (arith, length-event head payload rest)) in
      rw (append_assoc head payload rest) (
        page_round-head words delta (payload ++ rest) (omega arith) d
        ∙ rw (ne→== words 31 (omega arith)) (
            rw (ne→== words 30 (omega arith)) (
              rw (ne→== words 29 (omega arith)) (
                rw (ne→== words 0 (omega arith)) (
                  rw fits (
                    rw (← size) (
                      page_event-payload head payload rest bytes (s.pos + 4)
                        (wrapping_add s.ts delta) refl (omega arith)
                      ∙ arrive (short words delta payload) _ _
                          (omega (arith, length-append head payload)))))))))

  round-long :
      (delta : ℕ) (payload : List ℕ) → IsEntry (long delta payload) → Steps (long delta payload)
  unfolding entry_bytes clock entry_payload page_match
  round-long delta payload (d, some_bytes, size) rest =
      let head = entry_head 0 delta in
      let word = le_bytes 4 (length payload) in
      let front = head ++ word in
      let bytes = before ++ (head ++ (word ++ (payload ++ rest))) in
      let h4 = length-entry_head 0 delta in
      let w4 = length-le_bytes 4 (length payload) in
      let n = length-event head word (payload ++ rest) in
      let m = length-append payload rest in
      let front_len = length-append head word in
      let has_len = le→ltb (length bytes) (s.pos + 4 + 4) (omega arith) in
      let sl1 =
        slice-append before (head ++ (word ++ (payload ++ rest))) 4 (s.pos + 4) 4 (omega arith) in
      let sl2 = slice-append head (word ++ (payload ++ rest)) 0 4 4 (omega arith) in
      let len_read : from_le (slice bytes (s.pos + 4) 4) ≡ length payload =
        rw (sl1 ∙ sl2 ∙ take-append_length 4 word (payload ++ rest) w4)
          (from_le-le_bytes 4 (length payload) size) in
      let fits = le→ltb (length bytes) (s.pos + 4 + 4 + length payload) (omega arith) in
      rw (append_assoc head (word ++ payload) rest) (
        rw (append_assoc word payload rest) (
          page_round-head 0 delta (word ++ (payload ++ rest)) (omega arith) d
          ∙ rw has_len (
              rw len_read (
                rw (ne→== (length payload) 0 (omega arith)) (
                  rw fits (
                    page_event-payload front payload rest bytes (s.pos + 4 + 4)
                      (wrapping_add s.ts delta)
                      (ap (λ x. before ++ x) (sym (append_assoc head word (payload ++ rest))))
                      (omega arith)
                    ∙ arrive (long delta payload) _ _ (
                        omega (
                          arith,
                          length-append head (word ++ payload),
                          length-append word payload,
                        ))))))))

  round-time_extend :
      (delta upper : ℕ) → IsEntry (time_extend delta upper) → Steps (time_extend delta upper)
  unfolding entry_bytes clock entry_payload page_match
  round-time_extend delta upper (d, u) rest =
      let head = entry_head 29 delta in
      let word = le_bytes 4 upper in
      let bytes = before ++ (head ++ (word ++ rest)) in
      let h4 = length-entry_head 29 delta in
      let w4 = length-le_bytes 4 upper in
      let n = length-event head word rest in
      let has_word = le→ltb (length bytes) (s.pos + 4 + 4) (omega arith) in
      let sl1 = slice-append before (head ++ (word ++ rest)) 4 (s.pos + 4) 4 (omega arith) in
      let sl2 = slice-append head (word ++ rest) 0 4 4 (omega arith) in
      let read : from_le (slice bytes (s.pos + 4) 4) ≡ upper =
        rw (sl1 ∙ sl2 ∙ take-append_length 4 word rest w4) (from_le-le_bytes 4 upper u) in
      let no_wrap : upper * 2 ^ 27 % 2 ^ 64 ≡ upper * 2 ^ 27 = omega arith in
      rw (append_assoc head word rest) (
        page_round-head 29 delta (word ++ rest) (omega arith) d
        ∙ rw has_word (
            rw read (
              rw no_wrap (
                rw (bit_or-disjoint 27 upper delta d) (
                  arrive (time_extend delta upper) _ _ (omega (arith, length-append head word)))))))

  round-time_stamp :
      (delta time : ℕ) → IsEntry (time_stamp delta time) → Steps (time_stamp delta time)
  unfolding entry_bytes clock entry_payload page_match
  round-time_stamp delta time (d, u) rest =
      let head = entry_head 30 delta in
      let word = le_bytes 8 time in
      let bytes = before ++ (head ++ (word ++ rest)) in
      let h4 = length-entry_head 30 delta in
      let w8 = length-le_bytes 8 time in
      let n = length-event head word rest in
      let has_word = le→ltb (length bytes) (s.pos + 4 + 8) (omega arith) in
      let sl1 = slice-append before (head ++ (word ++ rest)) 4 (s.pos + 4) 8 (omega arith) in
      let sl2 = slice-append head (word ++ rest) 0 4 8 (omega arith) in
      let read : from_le (slice bytes (s.pos + 4) 8) ≡ time =
        rw (sl1 ∙ sl2 ∙ take-append_length 8 word rest w8) (from_le-le_bytes 8 time u) in
      rw (append_assoc head word rest) (
        page_round-head 30 delta (word ++ rest) (omega arith) d
        ∙ rw has_word
            (rw read (arrive (time_stamp delta time) _ _ (omega (arith, length-append head word)))))

  -- Each kind of entry is read as it was written.
  pub page_round-Steps : (e : Entry) → IsEntry e → Steps e
  page_round-Steps (short words delta payload) h = round-short words delta payload h
  page_round-Steps (long delta payload) h = round-long delta payload h
  page_round-Steps (time_extend delta upper) h = round-time_extend delta upper h
  page_round-Steps (time_stamp delta time) h = round-time_stamp delta time h

  -- At the ending the loop stops.
  pub page_round-Ending :
      (e : Ending) → IsEnding e → page_round ev (before ++ ending_bytes e) s ≡ done stop
  unfolding ending_bytes
  page_round-Ending (cut bytes) h =
      let short_left =
        lt→leb (s.pos + 4) (length (before ++ bytes)) (omega (arith, length-append before bytes)) in
      unfold page_round in rw short_left
  page_round-Ending (padding delta bytes) h =
      page_round-head 31 delta bytes (omega arith) h ∙ unfold page_match in refl
