-- ===== src/Reader/Source.antt =====
-- `read_exact_or_eof`, over the answers of a `Read`. A reader is the sequence of answers that it
-- still has for `read`: bytes, of which a call takes what its buffer holds, or an error; behind the
-- last one stands the end of the input. An empty chunk is an `Ok(0)`.
use gds_traces.Format.Types.{other, IoError, interrupted, would_block}
use gds_traces.Base.Outcome.{Result, err, ok}
use gds_traces.Base.{
  Bool-cases, inl, inr, leb→le, leb→lt, length-drop, take-append_behind, take-append_within, ◌+◌,
  ◌<◌, List, [], arith, drop, if◌then◌else◌, leb, length, refl, suc, take, zero, ◌++◌, ◌-◌, ◌∷◌,
  ◌≡◌, ℕ,
}

pub data Answer : Type 0 where
  chunk : List ℕ → Answer
  fails : IoError → Answer

abbrev pub Source : Type 0
Source = List Answer

unfoldable pub prepend :
    List ℕ → Result IoError (List ℕ) × Source → Result IoError (List ℕ) × Source
prepend bs (ok more, rest) = (ok (bs ++ more), rest)
prepend bs (err e, rest) = (err e, rest)

-- `n` is the length of the buffer that is left. The value is what the buffer got, and the source
-- behind it. A chunk that is longer than the buffer ends the loop, and its rest stays.
unfoldable pub read_exact_or_eof : ℕ → Source → Result IoError (List ℕ) × Source
unfolding prepend
read_exact_or_eof zero source = (ok [], source)
read_exact_or_eof (suc n) [] = (ok [], [])
read_exact_or_eof (suc n) (chunk [] ∷ rest) = (ok [], rest)
read_exact_or_eof (suc n) (chunk (b ∷ bs) ∷ rest) =
    let more = read_exact_or_eof (n - length bs) rest in
    if leb (length bs) n
    then prepend (b ∷ bs) more
    else (ok (take (suc n) (b ∷ bs)), chunk (drop (suc n) (b ∷ bs)) ∷ rest)
read_exact_or_eof (suc n) (fails interrupted ∷ rest) = read_exact_or_eof (suc n) rest
read_exact_or_eof (suc n) (fails e ∷ rest) = (err e, rest)

-- The bytes that a source still has.
unfoldable pub contents : Source → List ℕ
contents [] = []
contents (chunk bs ∷ rest) = bs ++ contents rest
contents (fails e ∷ rest) = contents rest

-- No error but `Interrupted`, and no `Ok(0)` before the end.
abbrev pub IsSteady : Source → Type 0
IsSteady [] = Unit
IsSteady (chunk [] ∷ rest) = ⊥
IsSteady (chunk (b ∷ bs) ∷ rest) = IsSteady rest
IsSteady (fails interrupted ∷ rest) = IsSteady rest
IsSteady (fails e ∷ rest) = ⊥

-- The source behind a read of `n` bytes.
abbrev pub Reads : ℕ → Source → Result IoError (List ℕ) × Source → Type 0
Reads n source out =
    (out.0 ≡ ok (take n (contents source)))
    × (contents out.1 ≡ drop n (contents source))
    × IsSteady out.1

IsSteady-chunk :
    (bs : List ℕ) (rest : Source) → 0 < length bs → IsSteady rest → IsSteady (chunk bs ∷ rest)
IsSteady-chunk [] rest h s = absurd (omega arith)
IsSteady-chunk (b ∷ bs) rest h s = s

prepend-Reads :
    (bs : List ℕ) (n k : ℕ) (rest : Source) (out : Result IoError (List ℕ) × Source)
    → length bs + k ≡ n
    → Reads k rest out
    → Reads n (chunk bs ∷ rest) (prepend bs out)
unfolding prepend contents
prepend-Reads bs n k rest (ok more, source) e (p, q, s) =
    let (t, d) = take-append_behind bs (contents rest) n k e in
    let more_eq : more ≡ take k (contents rest) = cc in (rw t (rw more_eq), rw d q, s)
prepend-Reads bs n k rest (err x, source) e (p, q, s) = cc

-- From a steady source, however its bytes are cut into chunks and however often a read is
-- interrupted, `read_exact_or_eof` puts the next `n` bytes into the buffer, or all if there are
-- fewer, and leaves a steady source with the others.
pub read_exact_or_eof-Reads :
    (n : ℕ) (source : Source) → IsSteady source → Reads n source (read_exact_or_eof n source)
unfolding read_exact_or_eof contents
read_exact_or_eof-Reads zero source s = (refl, refl, s)
read_exact_or_eof-Reads (suc n) [] s = (refl, refl, tt)
read_exact_or_eof-Reads (suc n) (chunk [] ∷ rest) s = absurd s
read_exact_or_eof-Reads (suc n) (chunk (b ∷ bs) ∷ rest) s = elim (Bool-cases (leb (length bs) n)) [
  | inl fits ↦
      let short = leb→le (length bs) n fits in
      rw fits (
        prepend-Reads (b ∷ bs) (suc n) (n - length bs) rest _ (omega arith)
          (read_exact_or_eof-Reads (n - length bs) rest s))
  | inr long ↦
      let more = leb→lt (length bs) n long in
      let (t, d) = take-append_within n bs (contents rest) (omega arith) in
      rw long
        (rw t refl, rw d refl, IsSteady-chunk (drop n bs) rest (omega (arith, length-drop n bs)) s)
]
read_exact_or_eof-Reads (suc n) (fails interrupted ∷ rest) s =
    read_exact_or_eof-Reads (suc n) rest s
read_exact_or_eof-Reads (suc n) (fails would_block ∷ rest) s = absurd s
read_exact_or_eof-Reads (suc n) (fails (other k) ∷ rest) s = absurd s
