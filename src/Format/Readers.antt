-- ===== src/Format/Readers.antt =====
-- The readers that lib.rs derives by `BinRead` (`#[br(little)]`): each field in its order, over a
-- cursor. The integer read itself is the binrw package's, and a parameter with its documented law.
use gds_traces.Base.{
  ℕ, zero, suc, ◌≤◌, ◌≡◌, Bool, not, List, [], ◌∷◌, ◌==◌, if◌then◌else◌, length, take, drop,
}
use gds_traces.Base.Outcome.{Result, ok, err}
use gds_traces.Base.Bytes.{from_le}
use gds_traces.Format.Types.{
  Header, SglDesc, SubmitFixed, SubmitTailPayload, CompletePayload, sqe_len,
}

-- A reader takes what the cursor has left, and returns the value with what is left then.
abbrev pub Cursor : Type 0 → Type 0 → Type 0
Cursor E A = List ℕ → Result E (A × List ℕ)

-- `le_uint k` reads an unsigned integer of `k` bytes, lowest byte first.
pub record Binrw (E : Type 0) : Type 0 where
  pub le_uint : ℕ → Cursor E ℕ
  pub le_uint_ok :
      (k : ℕ) (bs : List ℕ) → k ≤ length bs → le_uint k bs ≡ ok (from_le (take k bs), drop k bs)

abbrev pub pure : {E A : Type 0} → A → Cursor E A
pure a bs = ok (a, bs)

infixl 5 ◌>>=◌
abbrev pub ◌>>=◌ : {E A B : Type 0} → Cursor E A → (A → Cursor E B) → Cursor E B
◌>>=◌ m f bs = elim (m bs) [ ok (a, rest) ↦ f a rest | err e ↦ err e ]

-- `[T; n]` and `#[br(count = n)] Vec<T>`.
unfoldable pub count : {E A : Type 0} → ℕ → Cursor E A → Cursor E (List A)
count zero r = pure []
count (suc n) r = do x ← r; xs ← count n r; pure (x ∷ xs)

abbrev pub to_bool : ℕ → Bool
to_bool value = not (value == 0)

module _ {E : Type 0} (binrw : Binrw E) where
  open binrw use {le_uint}

  unfoldable pub read_header : Cursor E Header
  read_header = do
    magic ← le_uint 4
    version ← le_uint 1
    record_type ← le_uint 1
    len ← le_uint 2
    timestamp_ns ← le_uint 8
    seq ← le_uint 4
    ctrl_id ← le_uint 1
    qid ← le_uint 1
    cid ← le_uint 2
    pure (record {
      magic = magic;
      version = version;
      record_type = record_type;
      len = len;
      timestamp_ns = timestamp_ns;
      seq = seq;
      ctrl_id = ctrl_id;
      qid = qid;
      cid = cid;
    })

  unfoldable pub read_sgl_desc : Cursor E SglDesc
  read_sgl_desc = do
    addr ← le_uint 8
    length ← le_uint 4
    reserved ← count 3 (le_uint 1)
    desc_type ← le_uint 1
    pure (record { addr = addr; length = length; reserved = reserved; desc_type = desc_type })

  unfoldable pub read_submit_fixed : Cursor E SubmitFixed
  read_submit_fixed = do
    sqe ← count sqe_len (le_uint 1)
    data_len ← le_uint 4
    meta_len ← le_uint 4
    use_sgl ← le_uint 1
    single_segment ← le_uint 1
    nr_entries ← le_uint 2
    pure (record {
      sqe = sqe;
      data_len = data_len;
      meta_len = meta_len;
      use_sgl = to_bool use_sgl;
      single_segment = to_bool single_segment;
      nr_entries = nr_entries;
    })

  unfoldable pub read_submit_tail : Bool → ℕ → Cursor E SubmitTailPayload
  read_submit_tail use_sgl nr_entries = do
    prp_entries ← count (if use_sgl then 0 else nr_entries) (le_uint 8)
    sgl_entries ← count (if use_sgl then nr_entries else 0) read_sgl_desc
    pure (record { prp_entries = prp_entries; sgl_entries = sgl_entries })

  unfoldable pub read_complete_payload : Cursor E CompletePayload
  read_complete_payload = do
    result ← le_uint 8
    sq_head ← le_uint 2
    sq_id ← le_uint 2
    status ← le_uint 2
    retries ← le_uint 1
    reserved ← le_uint 1
    pure (record {
      result = result;
      sq_head = sq_head;
      sq_id = sq_id;
      status = status;
      retries = retries;
      reserved = reserved;
    })
