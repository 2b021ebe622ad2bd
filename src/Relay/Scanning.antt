-- ===== src/Relay/Scanning.antt =====
-- reproducer/relay-repro-client/src/main.rs, lines 192 to 236: the loop over a buffer.
use gds_traces.Base.Outcome.{ok}
use gds_traces.Base.Bytes.{from_le-le_bytes, le_bytes, length-le_bytes}
use gds_traces.Base.{
  All, Bool-cases, List, Option, [], ap, append-nil, arith, drop, drop-append_length, eq→==, inl,
  inr, leb, leb→le, length, length-append, length-drop, le→leb, none, refl, some, suc, sym, take,
  take-append_length, zero, ℕ, ◌%◌, ◌*◌, ◌++◌, ◌<◌, ◌^◌, ◌∙◌, ◌∷◌, ◌≡◌, ◌≤◌,
}
use gds_traces.Format.Readers.{Cursor, ◌>>=◌, pure}
use gds_traces.Relay.{
  after_magic, found_record, ScanState, add_corruption, add_record, read_fields, read_repro_rec,
  repro_magic, scan, scan_buffer, scan_step, ReproRec,
}
use gds_traces.Format.Readers.{Binrw}

-- The bytes of a record on the wire.
unfoldable pub repro_bytes : ReproRec → List ℕ
repro_bytes r =
    le_bytes 4 repro_magic ++ (le_bytes 4 r.fill ++ (le_bytes 8 r.seq ++ le_bytes 8 r.timestamp_ns))

pub record FitsWire (r : ReproRec) : Type 0 where
  pub fill_fits : r.fill < 2 ^ 32
  pub seq_fits : r.seq < 2 ^ 64
  pub time_fits : r.timestamp_ns < 2 ^ 64

unfoldable pub repro_stream : List ReproRec → List ℕ
repro_stream [] = []
repro_stream (r ∷ rs) = repro_bytes r ++ repro_stream rs

unfoldable pub add_records : List ReproRec → ScanState → ScanState
add_records [] s = s
add_records (r ∷ rs) s = add_records rs (add_record r s)

length-repro_bytes : (r : ReproRec) → length (repro_bytes r) ≡ 24
unfolding repro_bytes
length-repro_bytes r = omega (
  arith,
  length-append {0} (le_bytes 4 repro_magic)
      (le_bytes 4 r.fill ++ (le_bytes 8 r.seq ++ le_bytes 8 r.timestamp_ns)),
  length-append {0} (le_bytes 4 r.fill) (le_bytes 8 r.seq ++ le_bytes 8 r.timestamp_ns),
  length-append {0} (le_bytes 8 r.seq) (le_bytes 8 r.timestamp_ns),
  length-le_bytes 4 repro_magic,
  length-le_bytes 4 r.fill,
  length-le_bytes 8 r.seq,
  length-le_bytes 8 r.timestamp_ns,
)

pub length-repro_stream : (rs : List ReproRec) → length (repro_stream rs) ≡ 24 * length rs
unfolding repro_stream
length-repro_stream [] = refl
length-repro_stream (r ∷ rs) = omega (
  arith,
  length-append {0} (repro_bytes r) (repro_stream rs),
  length-repro_bytes r,
  length-repro_stream rs,
)

reads-next :
    {E A B : Type 0} (first : Cursor E A) (after : A → Cursor E B) (bs : List ℕ) (a : A)
    (rest : List ℕ)
    → first bs ≡ ok (a, rest)
    → (first >>= after) bs ≡ after a rest
reads-next first after bs a rest e = rw (e, ◌>>=◌)

module _ {E : Type 0} (binrw : Binrw E) where
  open binrw use {le_uint, le_uint_ok}

  le_uint-le_bytes :
      (k v : ℕ) (rest : List ℕ) → v < 256 ^ k → le_uint k (le_bytes k v ++ rest) ≡ ok (v, rest)
  le_uint-le_bytes k v rest fits =
      let size = length-le_bytes k v in
      le_uint_ok k (le_bytes k v ++ rest) (omega (arith, length-append {0} (le_bytes k v) rest))
      ∙ rw (take-append_length k (le_bytes k v) rest size)
          (rw (drop-append_length k (le_bytes k v) rest size) (rw (from_le-le_bytes k v fits)))

  read_fields-le_bytes :
      (r : ReproRec)
      → FitsWire r
      → read_fields binrw (le_bytes 4 r.fill ++ (le_bytes 8 r.seq ++ le_bytes 8 r.timestamp_ns))
        ≡ ok (r, [])
  unfolding read_fields
  read_fields-le_bytes r fits =
      let times = le_bytes 8 r.timestamp_ns in
      let last_field =
        ap (le_uint 8) (sym (append-nil times))
        ∙ le_uint-le_bytes 8 r.timestamp_ns [] fits.time_fits in
      reads-next (le_uint 4) _ _ _ _
        (le_uint-le_bytes 4 r.fill (le_bytes 8 r.seq ++ times) fits.fill_fits)
      ∙ reads-next (le_uint 8) _ _ _ _ (le_uint-le_bytes 8 r.seq times fits.seq_fits)
      ∙ reads-next (le_uint 8) (λ t. pure (record { fill = r.fill; seq = r.seq; timestamp_ns = t }))
          _ _ _ last_field

  read_repro_rec-repro_bytes :
      (r : ReproRec) → FitsWire r → read_repro_rec binrw (repro_bytes r) ≡ some r
  unfolding read_repro_rec repro_bytes
  read_repro_rec-repro_bytes r fits =
      let fields = le_bytes 4 r.fill ++ (le_bytes 8 r.seq ++ le_bytes 8 r.timestamp_ns) in
      ap (after_magic binrw) (le_uint-le_bytes 4 repro_magic fields (omega arith))
      ∙ ap (found_record binrw) (read_fields-le_bytes r fits)

  scan-repro_stream :
      (rs : List ReproRec) (fuel : ℕ) (s : ScanState)
      → All FitsWire rs
      → length rs < fuel
      → scan binrw fuel (repro_stream rs) s ≡ some (add_records rs s)
  unfolding scan repro_stream add_records
  scan-repro_stream rs zero s fit enough = absurd (omega arith)
  scan-repro_stream [] (suc fuel) s fit enough = refl
  scan-repro_stream (r ∷ rs) (suc fuel) s (fits, fit) enough =
      let size = length-repro_bytes r in
      let long =
        le→leb 24 (length (repro_bytes r ++ repro_stream rs))
          (omega (arith, length-append {0} (repro_bytes r) (repro_stream rs))) in
      rw long (
        rw (take-append_length 24 (repro_bytes r) (repro_stream rs) size) (
          rw (read_repro_rec-repro_bytes r fits) (
            rw (drop-append_length 24 (repro_bytes r) (repro_stream rs) size)
              (scan-repro_stream rs fuel (add_record r s) fit (omega arith)))))

  pub scan_buffer-repro_stream :
      (rs : List ReproRec) (s : ScanState)
      → All FitsWire rs
      → scan_buffer binrw (repro_stream rs) s ≡ some (add_records rs s)
  unfolding scan_buffer
  scan_buffer-repro_stream rs s fit =
      let size = length-repro_stream rs in
      let whole = eq→== (length (repro_stream rs) % 24) 0 (omega arith) in
      rw whole (scan-repro_stream rs (suc (length (repro_stream rs))) s fit (omega arith))

  -- On any bytes, from any state, the scan of a buffer ends on fuel for one round more than there
  -- are bytes, also where bytes are skipped for a bad magic.
  pub scan_total :
      (fuel : ℕ) (left : List ℕ) (s : ScanState)
      → length left < fuel
      → (s' : ScanState) × (scan binrw fuel left s ≡ some s')
  unfolding scan
  scan_total zero left s enough = absurd (omega arith)
  scan_total (suc fuel) left s enough = elim (Bool-cases (leb 24 (length left))) [
    | inl long ↦ rw long (
        step (λ left' s'. scan_total fuel left' s') (read_repro_rec binrw (take 24 left))
          (leb→le _ _ long))
    | inr short_left ↦ rw short_left (s, refl)
  ]
    where
      step :
          ((left' : List ℕ) (s' : ScanState)
            → length left' < fuel
            → (s2 : ScanState) × (scan binrw fuel left' s' ≡ some s2))
          → (found : Option ReproRec) → 24 ≤ length left
          → (s2 : ScanState) × (scan_step binrw (scan binrw fuel) left s found ≡ some s2)
      step ih none long =
          ih (drop 1 left) (add_corruption s) (omega (arith, length-drop {0} 1 left))
      step ih (some r) long =
          ih (drop 24 left) (add_record r s) (omega (arith, length-drop {0} 24 left))
