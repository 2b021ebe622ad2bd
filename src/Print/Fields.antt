-- ===== src/Print/Fields.antt =====
-- tracing/nvme-trace/src/print.rs, lines 57 to 165: what is read from the submission entry.
use gds_traces.Format.Layout.{length-entries_at, submit_fixed_at}
use gds_traces.Format.Accept.{IsRecord, fixed_of, is_complete, is_submit, submit_of}
use gds_traces.Format.Types.{TraceRecord, complete, submit, SubmitRecord}
use gds_traces.Text.Affix.{Text, codes}
use gds_traces.Text.Hex.{concat}
use gds_traces.Print.{
  format_complete, format_prps, format_record, format_submit, format_submit_tail, is_read_or_write,
  opcode_from, submit_head, format_blocks, sqe_le, submit_prps,
}
use gds_traces.Text.Decimal.{decimal}
use gds_traces.Base.Bytes.{IsByte, from_le, from_le-slice-lt}
use gds_traces.Base.{
  Bool, List, false, get_or, if◌then◌else◌, refl, true, ◌++◌, All, [], arith, length, slice, ℕ, ◌%◌,
  ◌*◌, ◌+◌, ◌<◌, ◌^◌, ◌∷◌, ◌≡◌, ◌≤◌,
}
use gds_traces.Ftrace.Run.{◌>>=◌, Run, index-done, range-done, done}
use native.Mathlib.Nat.{mul-le-mul_left}

-- A field of the entry: `n` bytes at an offset, lowest first.
abbrev pub sqe_field : ℕ → SubmitRecord → ℕ → ℕ
sqe_field n r offset = from_le (slice r.sqe offset n)

-- An entry is an array of 64 bytes.
abbrev pub HasEntry : SubmitRecord → Type 0
HasEntry r = length r.sqe ≡ 64

sqe_le-done :
    (n : ℕ) (r : SubmitRecord) (offset : ℕ)
    → HasEntry r
    → offset + n ≤ 64
    → sqe_le n r offset ≡ done (sqe_field n r offset)
unfolding sqe_le
sqe_le-done n r offset entry within = rw (range-done r.sqe offset n (omega arith))

-- No index out of range, and fuel enough.
abbrev pub Returns : {A : Type 0} → Run A → Type 0
Returns {A} m = (a : A) × (m ≡ done a)

pub Returns-bind :
    {A B : Type 0} (first : Run A) (after : A → Run B)
    → Returns first
    → ((a : A) → Returns (after a))
    → Returns (first >>= after)
Returns-bind first after (a, e) h = let (b, q) = h a in (b, rw e q)

-- The text for blocks from `slba` on, `nlb` of them: the sizes are those of whole blocks.
unfoldable pub blocks_text : ℕ → ℕ → ℕ → ℕ → Text
blocks_text nsid slba nlb block_size = concat (
    codes " nsid="
    ∷ decimal nsid
    ∷ codes " slba="
    ∷ decimal slba
    ∷ codes " nlb="
    ∷ decimal nlb
    ∷ codes " block_size="
    ∷ decimal block_size
    ∷ codes " byte_offset="
    ∷ decimal (slba * block_size)
    ∷ codes " sqe_data_bytes="
    ∷ decimal (nlb * block_size)
    ∷ [])

product_fits : (a b : ℕ) → a ≤ 2 ^ 64 → b < 2 ^ 64 → a * b % 2 ^ 128 ≡ a * b
product_fits a b small fits =
    let most : b ≤ 18446744073709551615 = omega arith in
    let below = mul-le-mul_left a most in omega arith

module _ (r : SubmitRecord) (entry : HasEntry r) where
  submit_prps-done : submit_prps r ≡ done (sqe_field 8 r 24, sqe_field 8 r 32)
  unfolding submit_prps
  submit_prps-done =
      rw (sqe_le-done 8 r 24 entry (omega arith)) (rw (sqe_le-done 8 r 32 entry (omega arith)))

  -- For a submission with an entry of 64 bytes and a 64-bit block size, the text for a read or
  -- write is that of the fields at their places in the entry; the number of blocks is one more
  -- than its field, and the products with the block size are exact: they do not overflow 128 bits.
  pub format_blocks-blocks_text :
      (block_size : ℕ)
      → All IsByte r.sqe
      → block_size < 2 ^ 64
      → format_blocks r block_size
        ≡ done (blocks_text (sqe_field 4 r 4) (sqe_field 8 r 40) (sqe_field 2 r 48 + 1) block_size)
  unfolding format_blocks blocks_text
  format_blocks-blocks_text block_size bytes fits =
      let slba = from_le-slice-lt 8 40 r.sqe bytes in
      let nlb = from_le-slice-lt 2 48 r.sqe bytes in
      rw (sqe_le-done 4 r 4 entry (omega arith)) (
        rw (sqe_le-done 8 r 40 entry (omega arith)) (
          rw (sqe_le-done 2 r 48 entry (omega arith)) (
            rw (product_fits (sqe_field 8 r 40) block_size (omega arith) fits)
              (rw (product_fits (sqe_field 2 r 48 + 1) block_size (omega arith) fits)))))

  format_blocks-done : (block_size : ℕ) → Returns (format_blocks r block_size)
  unfolding format_blocks
  format_blocks-done block_size =
      Returns-bind _ _ (sqe_field 4 r 4, sqe_le-done 4 r 4 entry (omega arith))
        λ nsid.
          Returns-bind _ _ (sqe_field 8 r 40, sqe_le-done 8 r 40 entry (omega arith))
            λ slba.
              Returns-bind _ _ (sqe_field 2 r 48, sqe_le-done 2 r 48 entry (omega arith))
                λ nlb. (_, refl)

  blocks-done :
      (b : Bool) (block_size : ℕ)
      → (text : Text) × ((if b then format_blocks r block_size else done []) ≡ done text)
  blocks-done true block_size = format_blocks-done block_size
  blocks-done false block_size = ([], refl)

  format_submit-done :
      (path : Text) (offset block_size : ℕ)
      → (text : Text) × (format_submit path r offset block_size ≡ done text)
  unfolding format_submit
  format_submit-done path offset block_size =
      let opcode = opcode_from (get_or r.sqe 0 0) in
      let (text, e) = blocks-done (is_read_or_write opcode) block_size in
      (submit_head path r offset opcode ++ text, rw (index-done r.sqe 0 (omega arith)) (rw e))

  prps-done : (b : Bool) → (text : Text) × ((if b then done [] else format_prps r) ≡ done text)
  prps-done true = ([], refl)
  prps-done false = Returns-bind _ _ (_, submit_prps-done) λ prps. (_, refl)

-- A submission's entry is an array of 64 bytes.
abbrev pub RecordHasEntry : TraceRecord → Type 0
RecordHasEntry (submit r) = HasEntry r
RecordHasEntry (complete r) = Unit {0}

-- No field of a record is out of range: there is a line for it.
pub format_record_done :
    (path : Text) (t : TraceRecord) (offset block_size : ℕ)
    → RecordHasEntry t
    → (line : Text) × (format_record path t offset block_size ≡ done line)
unfolding format_record
format_record_done path (submit r) offset block_size entry =
    let (text, e) = format_submit-done r entry path offset block_size in
    let (prps, p) = prps-done r entry r.use_sgl in
    (concat (text ∷ prps ∷ codes " tail=" ∷ format_submit_tail r.tail ∷ []), rw e (rw p))
format_record_done path (complete r) offset block_size entry = (format_complete path r offset, refl)

pub IsRecord-RecordHasEntry :
    (bytes : List ℕ) (t : TraceRecord) → IsRecord bytes t → RecordHasEntry t
unfolding submit_of fixed_of submit_fixed_at
IsRecord-RecordHasEntry bytes _ (is_submit kind shape) = length-entries_at _ 1 64 _
IsRecord-RecordHasEntry bytes _ (is_complete kind size) = tt
