-- ===== src/Reader/Cost.antt =====
-- tracing/nvme-trace/src/lib.rs, lines 306 to 347: the bytes that a call of `next_record` takes.
use gds_traces.Format.Parse.{parse_header}
use gds_traces.Format.Readers.{Binrw}
use gds_traces.Reader.Source.{Source, chunk, contents, fails, prepend, read_exact_or_eof}
use gds_traces.Reader.Records.{
  RecordReader, next_header, next_payload, next_record, short_header, start_record,
}
use gds_traces.Format.Types.{TraceError, other, IoError, RawRecord, interrupted, would_block}
use gds_traces.Base.{
  ==→eq, Option, none, refl, subst, ◌==◌, ap, ltb, ◌-◌, Bool-cases, List, [], arith, drop, inl, inr,
  leb, length, length-append, length-drop, length-take, some, suc, zero, ◌+◌, ◌∷◌, ◌≡◌, ◌≤◌, ℕ,
}
use gds_traces.Base.Outcome.{◌>>=◌, Result-cases, Result, ok, err}

abbrev taken : Result IoError (List ℕ) → ℕ
taken (ok bs) = length bs
taken (err e) = 0

-- What a read takes and leaves is no more than there was.
prepend-shrinks :
    (bs : List ℕ) (k : ℕ) (out : Result IoError (List ℕ) × Source)
    → taken out.0 + length (contents out.1) ≤ k
    → taken (prepend bs out).0 + length (contents (prepend bs out).1) ≤ length bs + k
unfolding prepend
prepend-shrinks bs k (ok more, rest) h = omega (arith, length-append bs more)
prepend-shrinks bs k (err e, rest) h = omega arith

read_exact_or_eof-shrinks :
    (n : ℕ) (source : Source)
    → let out = read_exact_or_eof n source in
      taken out.0 + length (contents out.1) ≤ length (contents source)
unfolding read_exact_or_eof contents
read_exact_or_eof-shrinks zero source = omega arith
read_exact_or_eof-shrinks (suc n) [] = omega arith
read_exact_or_eof-shrinks (suc n) (chunk [] ∷ rest) = omega arith
read_exact_or_eof-shrinks (suc n) (chunk (b ∷ bs) ∷ rest) = elim (Bool-cases (leb (length bs) n)) [
  | inl fits ↦
      let more = read_exact_or_eof (n - length bs) rest in
      let less = read_exact_or_eof-shrinks (n - length bs) rest in
      let both = prepend-shrinks (b ∷ bs) (length (contents rest)) more less in
      rw fits (omega (arith, both, length-append bs (contents rest)))
  | inr long ↦ rw long (
      omega (
        arith,
        length-take n bs,
        length-drop n bs,
        length-append (drop n bs) (contents rest),
        length-append bs (contents rest),
      ))
]
read_exact_or_eof-shrinks (suc n) (fails interrupted ∷ rest) =
    read_exact_or_eof-shrinks (suc n) rest
read_exact_or_eof-shrinks (suc n) (fails would_block ∷ rest) = omega arith
read_exact_or_eof-shrinks (suc n) (fails (other k) ∷ rest) = omega arith

module _ {E : Type 0} (binrw : Binrw E) where
  next_payload-shrinks :
      (offset : ℕ) (hb : List ℕ) (len : ℕ) (r : RecordReader)
      → length (contents (next_payload binrw offset hb len r).1.inner) ≤ length (contents r.inner)
  unfolding next_payload
  next_payload-shrinks offset hb len r =
      ground (arith, read_exact_or_eof-shrinks (len - 24) r.inner)

  next_header-shrinks :
      (offset : ℕ) (hb : List ℕ) (r : RecordReader)
      → length (contents (next_header binrw offset hb r).1.inner) ≤ length (contents r.inner)
  unfolding next_header
  next_header-shrinks offset hb r = elim (Result-cases (parse_header binrw hb offset)) [
    | inr (x, e) ↦ rw (e, ◌>>=◌) (omega arith)
    | inl (h, e) ↦ elim (Bool-cases (ltb h.len 24)) [
      | inl short ↦ rw (e, ◌>>=◌) (rw short (omega arith))
      | inr fits ↦ rw (e, ◌>>=◌) (rw fits (next_payload-shrinks offset hb h.len r))
    ]
  ]

  start_record-shrinks :
      (offset : ℕ) (r : RecordReader) (out : Result IoError (List ℕ) × Source) (w : RawRecord)
      (r' : RecordReader)
      → read_exact_or_eof 24 r.inner ≡ out
      → taken out.0 + length (contents out.1) ≤ length (contents r.inner)
      → start_record binrw offset r ≡ (ok (some w), r')
      → length (contents r'.inner) + 24 ≤ length (contents r.inner)
  unfolding start_record short_header read_exact_or_eof
  start_record-shrinks offset r (err x, source) w r' p h e = cc (rw (p, ◌>>=◌) at e)
  start_record-shrinks offset r (ok hb, source) w r' p h e =
      let e1 = rw (p, ◌>>=◌) at e in
      elim (Bool-cases (length hb == 0)) [
        | inl none_read ↦ cc (rw none_read at e1)
        | inr some_read ↦ elim (Bool-cases (length hb == 24)) [
          | inr short ↦ cc (rw short at (rw some_read at e1))
          | inl full ↦
              let here : RecordReader = record { inner = source; offset = r.offset } in
              let e2 : next_header binrw offset hb here ≡ (ok (some w), r') =
                rw (ap (λ (o : Result IoError (List ℕ) × Source). o.1) p) at
                  (rw full at (rw some_read at e1)) in
              let same : (next_header binrw offset hb here).1 ≡ r' = ap (λ o. o.1) e2 in
              let less = next_header-shrinks offset hb here in
              let all = ==→eq (length hb) 24 full in
              let less' =
                subst (λ (q : RecordReader). length (contents q.inner) ≤ length (contents source))
                  same less in
              omega arith
        ]
      ]

  -- A call that returns a record has taken a header's bytes at least.
  pub next_record-shrinks :
      (r : RecordReader) (w : RawRecord) (r' : RecordReader)
      → next_record binrw r ≡ (ok (some w), r')
      → length (contents r'.inner) + 24 ≤ length (contents r.inner)
  unfolding next_record
  next_record-shrinks r w r' e =
      start_record-shrinks r.offset r (read_exact_or_eof 24 r.inner) w r' refl
        (read_exact_or_eof-shrinks 24 r.inner) e

  -- A call that leaves the source as `source`.
  keeps :
      (r : RecordReader) (source : Source)
      (end : Result (TraceError E) (Option RawRecord) × RecordReader)
      {x : Result (TraceError E) (Option RawRecord)} {offset : ℕ}
      → length (contents source) ≤ length (contents r.inner)
      → (x, record { inner = source; offset = offset }) ≡ end
      → length (contents end.1.inner) ≤ length (contents r.inner)
  keeps r source end h e =
      subst
        (λ (q : Result (TraceError E) (Option RawRecord) × RecordReader).
          length (contents q.1.inner) ≤ length (contents r.inner))
        e h

  start_record-le :
      (offset : ℕ) (r : RecordReader) (out : Result IoError (List ℕ) × Source)
      (end : Result (TraceError E) (Option RawRecord) × RecordReader)
      → read_exact_or_eof 24 r.inner ≡ out
      → length (contents out.1) ≤ length (contents r.inner)
      → start_record binrw offset r ≡ end
      → length (contents end.1.inner) ≤ length (contents r.inner)
  unfolding start_record short_header read_exact_or_eof
  start_record-le offset r (err x, source) end p h e =
      let left = ap (λ (o : Result IoError (List ℕ) × Source). o.1) p in
      keeps r source end h (rw left at (rw (p, ◌>>=◌) at e))
  start_record-le offset r (ok hb, source) end p h e =
      let left = ap (λ (o : Result IoError (List ℕ) × Source). o.1) p in
      let e1 = rw (p, ◌>>=◌) at e in
      elim (Bool-cases (length hb == 0)) [
        | inl none_read ↦ keeps r source end h (rw left at (rw none_read at e1))
        | inr some_read ↦ elim (Bool-cases (length hb == 24)) [
          | inr part ↦ keeps r source end h (rw left at (rw part at (rw some_read at e1)))
          | inl full ↦
              let here : RecordReader = record { inner = source; offset = r.offset } in
              let less = next_header-shrinks offset hb here in
              let e2 : next_header binrw offset hb here ≡ end =
                rw left at (rw full at (rw some_read at e1)) in
              let less' =
                subst
                  (λ (q : Result (TraceError E) (Option RawRecord) × RecordReader).
                    length (contents q.1.inner) ≤ length (contents source))
                  e2 less in
              omega arith
        ]
      ]

  next_record-le :
      (r : RecordReader)
      → length (contents (next_record binrw r).1.inner) ≤ length (contents r.inner)
  unfolding next_record
  next_record-le r =
      start_record-le r.offset r (read_exact_or_eof 24 r.inner) (start_record binrw r.offset r) refl
        (omega (arith, read_exact_or_eof-shrinks 24 r.inner)) refl

  -- The bytes that a result stands for, at least.
  abbrev pub cost : Result (TraceError E) (Option RawRecord) → ℕ
  cost (ok (some w)) = 24
  cost (ok none) = 0
  cost (err e) = 0

  -- A call never gives bytes back, and takes those of a header where it returns a record.
  pub next_record-cost :
      (r : RecordReader)
      → let out = next_record binrw r in
        cost out.0 + length (contents out.1.inner) ≤ length (contents r.inner)
  next_record-cost r = go (next_record binrw r) refl (next_record-le r)
    where
      go :
          (out : Result (TraceError E) (Option RawRecord) × RecordReader)
          → next_record binrw r ≡ out
          → length (contents (next_record binrw r).1.inner) ≤ length (contents r.inner)
          → cost out.0 + length (contents out.1.inner) ≤ length (contents r.inner)
      go (err e, r') p h = let same = ap (λ o. length (contents (o.1.inner))) p in omega arith
      go (ok none, r') p h = let same = ap (λ o. length (contents (o.1.inner))) p in omega arith
      go (ok (some w), r') p h = omega (arith, next_record-shrinks r w r' p)
