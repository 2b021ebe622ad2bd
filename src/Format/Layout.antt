-- ===== src/Format/Layout.antt =====
-- The fields of the records of lib.rs (lines 122 to 260) by their positions in the bytes.
use Prim.Native.Nat.mul
use gds_traces.Base.{
  take, false, true, if◌then◌else◌, refl, Bool, ◌*◌, zero, ◌∷◌, ap, suc, [], ℕ, ◌+◌, ◌≤◌, ◌≡◌, ◌∙◌,
  List, length, drop, slice, length-drop, drop-drop, arith,
}
use gds_traces.Base.Outcome.{ok}
use gds_traces.Base.Bytes.{from_le}
use gds_traces.Format.Types.{SubmitTailPayload, SubmitFixed, SglDesc, CompletePayload, Header}
use gds_traces.Format.Readers.{
  to_bool, read_submit_tail, read_submit_fixed, read_sgl_desc, read_complete_payload, count, Cursor,
  Binrw, ◌>>=◌, read_header,
}

-- The integer of `k` bytes at position `i`.
abbrev pub le_at : ℕ → ℕ → List ℕ → ℕ
le_at k i bs = from_le (slice bs i k)

unfoldable pub header_at : List ℕ → Header
header_at bs = record {
  magic = le_at 4 0 bs;
  version = le_at 1 4 bs;
  record_type = le_at 1 5 bs;
  len = le_at 2 6 bs;
  timestamp_ns = le_at 8 8 bs;
  seq = le_at 4 16 bs;
  ctrl_id = le_at 1 20 bs;
  qid = le_at 1 21 bs;
  cid = le_at 2 22 bs;
}

-- `n` values of `w` bytes each, one after the other.
unfoldable pub entries_at : {A : Type 0} → (List ℕ → A) → ℕ → ℕ → List ℕ → List A
entries_at value w zero bs = []
entries_at value w (suc n) bs = value bs ∷ entries_at value w n (drop w bs)

pub length-entries_at :
    {A : Type 0} (value : List ℕ → A) (w n : ℕ) (bs : List ℕ) → length (entries_at value w n bs) ≡ n
unfolding entries_at
length-entries_at value w zero bs = refl
length-entries_at value w (suc n) bs = ap suc (length-entries_at value w n (drop w bs))

-- Where `w` bytes are left, `r` takes these and returns their `value`.
abbrev pub Consumes : {E A : Type 0} → ℕ → Cursor E A → (List ℕ → A) → Type 0
Consumes w r value = (bs : List ℕ) → w ≤ length bs → r bs ≡ ok (value bs, drop w bs)

pub count-Consumes :
    {E A : Type 0} (w n : ℕ) (r : Cursor E A) (value : List ℕ → A)
    → Consumes w r value
    → Consumes (n * w) (count n r) (entries_at value w n)
unfolding count entries_at
count-Consumes w zero r value h bs long = rw mul.zero
count-Consumes w (suc n) r value h bs long =
    let here = h bs (omega arith) in
    let rest = count-Consumes w n r value h (drop w bs) (omega (arith, length-drop w bs)) in
    rw (here, ◌>>=◌) (rw (rest, ◌>>=◌) (rw (drop-drop (n * w) w bs) (rw mul.suc)))

-- `n` bytes at position `i`.
abbrev pub bytes_at : ℕ → ℕ → List ℕ → List ℕ
bytes_at n i bs = entries_at (le_at 1 0) 1 n (drop i bs)

-- Single bytes read one by one are the bytes themselves.
pub bytes_at-take :
    (n : ℕ) (bs : List ℕ) → n ≤ length bs → entries_at (le_at 1 0) 1 n bs ≡ take n bs
unfolding entries_at from_le
bytes_at-take zero bs h = refl
bytes_at-take (suc n) [] h = absurd (omega arith)
bytes_at-take (suc n) (b ∷ bs) h =
    let here : b + 256 * 0 ≡ b = omega arith in
    rw here (ap (λ r. b ∷ r) (bytes_at-take n bs (omega arith)))

unfoldable pub sgl_desc_at : List ℕ → SglDesc
sgl_desc_at bs = record {
  addr = le_at 8 0 bs;
  length = le_at 4 8 bs;
  reserved = bytes_at 3 12 bs;
  desc_type = le_at 1 15 bs;
}

unfoldable pub submit_fixed_at : List ℕ → SubmitFixed
submit_fixed_at bs = record {
  sqe = bytes_at 64 0 bs;
  data_len = le_at 4 64 bs;
  meta_len = le_at 4 68 bs;
  use_sgl = to_bool (le_at 1 72 bs);
  single_segment = to_bool (le_at 1 73 bs);
  nr_entries = le_at 2 74 bs;
}

unfoldable pub submit_tail_at : Bool → ℕ → List ℕ → SubmitTailPayload
submit_tail_at true n bs = record { prp_entries = []; sgl_entries = entries_at sgl_desc_at 16 n bs }
submit_tail_at false n bs = record { prp_entries = entries_at (le_at 8 0) 8 n bs; sgl_entries = [] }

unfoldable pub complete_payload_at : List ℕ → CompletePayload
complete_payload_at bs = record {
  result = le_at 8 0 bs;
  sq_head = le_at 2 8 bs;
  sq_id = le_at 2 10 bs;
  status = le_at 2 12 bs;
  retries = le_at 1 14 bs;
  reserved = le_at 1 15 bs;
}

module _ {E : Type 0} (binrw : Binrw E) where
  open binrw use {le_uint, le_uint_ok}

  le_uint_step :
      {A : Type 0} (k i : ℕ) (f : ℕ → Cursor E A) (bs : List ℕ)
      → i + k ≤ length bs
      → (le_uint k >>= f) (drop i bs) ≡ f (le_at k i bs) (drop (i + k) bs)
  le_uint_step k i f bs h =
      let e = le_uint_ok k (drop i bs) (omega (arith, length-drop i bs)) in
      rw (e, ◌>>=◌) (rw (drop-drop k i bs))

  pub read_header-header_at :
      (bs : List ℕ) → 24 ≤ length bs → read_header binrw bs ≡ ok (header_at bs, drop 24 bs)
  unfolding read_header header_at
  read_header-header_at bs h =
      le_uint_step 4 0 _ bs (omega arith)
      ∙ le_uint_step 1 4 _ bs (omega arith)
      ∙ le_uint_step 1 5 _ bs (omega arith)
      ∙ le_uint_step 2 6 _ bs (omega arith)
      ∙ le_uint_step 8 8 _ bs (omega arith)
      ∙ le_uint_step 4 16 _ bs (omega arith)
      ∙ le_uint_step 1 20 _ bs (omega arith)
      ∙ le_uint_step 1 21 _ bs (omega arith)
      ∙ le_uint_step 2 22 _ bs (omega arith)

  le_uint-Consumes : (k : ℕ) → Consumes k (le_uint k) (le_at k 0)
  le_uint-Consumes k bs h = le_uint_ok k bs h

  count_step :
      {A B : Type 0} (w n i : ℕ) (r : Cursor E A) (value : List ℕ → A) (f : List A → Cursor E B)
      (bs : List ℕ)
      → Consumes w r value
      → i + n * w ≤ length bs
      → (count n r >>= f) (drop i bs) ≡ f (entries_at value w n (drop i bs)) (drop (i + n * w) bs)
  count_step w n i r value f bs c h =
      let e = count-Consumes w n r value c (drop i bs) (omega (arith, length-drop i bs)) in
      rw (e, ◌>>=◌) (rw (drop-drop (n * w) i bs))

  pub read_complete_payload-at : Consumes 16 (read_complete_payload binrw) complete_payload_at
  unfolding read_complete_payload complete_payload_at
  read_complete_payload-at bs h =
      le_uint_step 8 0 _ bs (omega arith)
      ∙ le_uint_step 2 8 _ bs (omega arith)
      ∙ le_uint_step 2 10 _ bs (omega arith)
      ∙ le_uint_step 2 12 _ bs (omega arith)
      ∙ le_uint_step 1 14 _ bs (omega arith)
      ∙ le_uint_step 1 15 _ bs (omega arith)

  pub read_sgl_desc-at : Consumes 16 (read_sgl_desc binrw) sgl_desc_at
  unfolding read_sgl_desc sgl_desc_at
  read_sgl_desc-at bs h =
      le_uint_step 8 0 _ bs (omega arith)
      ∙ le_uint_step 4 8 _ bs (omega arith)
      ∙ count_step 1 3 12 _ _ _ bs (le_uint-Consumes 1) (omega arith)
      ∙ le_uint_step 1 15 _ bs (omega arith)

  pub read_submit_fixed-at : Consumes 76 (read_submit_fixed binrw) submit_fixed_at
  unfolding read_submit_fixed submit_fixed_at
  read_submit_fixed-at bs h =
      count_step 1 64 0 _ _ _ bs (le_uint-Consumes 1) (omega arith)
      ∙ le_uint_step 4 64 _ bs (omega arith)
      ∙ le_uint_step 4 68 _ bs (omega arith)
      ∙ le_uint_step 1 72 _ bs (omega arith)
      ∙ le_uint_step 1 73 _ bs (omega arith)
      ∙ le_uint_step 2 74 _ bs (omega arith)

  pub read_submit_tail-at :
      (use_sgl : Bool) (n : ℕ) (bs : List ℕ)
      → n * (if use_sgl then 16 else 8) ≤ length bs
      → (rest : List ℕ) × (read_submit_tail binrw use_sgl n bs
          ≡ ok (submit_tail_at use_sgl n bs, rest))
  unfolding read_submit_tail submit_tail_at count
  read_submit_tail-at true n bs h =
      (drop (n * 16) bs, rw (count-Consumes 16 n _ sgl_desc_at read_sgl_desc-at bs h, ◌>>=◌))
  read_submit_tail-at false n bs h =
      (drop (n * 8) bs, rw (count-Consumes 8 n _ (le_at 8 0) (le_uint-Consumes 8) bs h, ◌>>=◌))
