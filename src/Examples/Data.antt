-- ===== src/Examples/Data.antt =====
-- Concrete inputs: a binary reader, the bytes of two records, events and pages.
use gds_traces.Reader.Source.{IsSteady, Source, chunk, contents}
use gds_traces.Ftrace.Page.{Events}
use gds_traces.Format.Layout.{header_at, submit_fixed_at}
use gds_traces.Base.Outcome.{err, ok}
use gds_traces.Base.Bytes.{IsByte, from_le}
use gds_traces.Format.Readers.{Binrw, Cursor}
use gds_traces.Format.Types.{complete, submit}
use gds_traces.Ftrace.Ring.{Entry, IsEntry, long, short, time_extend, time_stamp}
use gds_traces.Format.Accept.{
  HasFrame, IsRecord, complete_of, fixed_of, is_complete, is_submit, submit_of,
}
use gds_traces.Ftrace.Total.{IsLayout}
use gds_traces.Base.{
  Bool, append-nil, ltb, true, ◌&&◌, All, List, [], arith, drop, if◌then◌else◌, leb, length, le→leb,
  refl, suc, take, zero, ℕ, ◌++◌, ◌∷◌, ◌≡◌, ◌≤◌,
}

abbrev pub zeros : ℕ → List ℕ
zeros zero = []
zeros (suc n) = 0 ∷ zeros n

-- A binary reader whose error says nothing.
abbrev read_le : ℕ → Cursor (Unit {0}) ℕ
read_le k bs = if leb k (length bs) then ok (from_le (take k bs), drop k bs) else err tt

pub read_le-ok :
    (k : ℕ) (bs : List ℕ) → k ≤ length bs → read_le k bs ≡ ok (from_le (take k bs), drop k bs)
read_le-ok k bs h = rw (le→leb k (length bs) h)

abbrev pub le_binrw : Binrw (Unit {0})
le_binrw = record { le_uint = read_le; le_uint_ok = read_le-ok }

-- The completion of command 7 on queue 1.
abbrev pub completion_bytes : List ℕ
completion_bytes =
    69 ∷ 77 ∷ 86 ∷ 78 ∷ 1 ∷ 1 ∷ 40 ∷ 0 ∷ 5 ∷ 0 ∷ 0 ∷ 0 ∷ 0 ∷ 0 ∷ 0 ∷ 0 ∷ 0 ∷ 0 ∷ 0 ∷ 0 ∷ 0 ∷ 1 ∷ 7
    ∷ 0 ∷ 9 ∷ 0 ∷ 0 ∷ 0 ∷ 0 ∷ 0 ∷ 0 ∷ 0 ∷ 3 ∷ 0 ∷ 1 ∷ 0 ∷ 0 ∷ 0 ∷ 0 ∷ 0 ∷ []

-- The submission of that command: a read of 4096 bytes into one page.
abbrev pub submission_bytes : List ℕ
submission_bytes =
    69
    ∷ 77
    ∷ 86
    ∷ 78
    ∷ 1
    ∷ 0
    ∷ 108
    ∷ 0
    ∷ 2
    ∷ 0
    ∷ 0
    ∷ 0
    ∷ 0
    ∷ 0
    ∷ 0
    ∷ 0
    ∷ 0
    ∷ 0
    ∷ 0
    ∷ 0
    ∷ 0
    ∷ 1
    ∷ 7
    ∷ 0
    ∷ 2
    ∷ 0
    ∷ 7
    ∷ (zeros 61
        ++ (0 ∷ 16 ∷ 0 ∷ 0 ∷ 0 ∷ 0 ∷ 0 ∷ 0 ∷ 0 ∷ 1 ∷ 1 ∷ 0 ∷ 0 ∷ 32 ∷ 0 ∷ 0 ∷ 0 ∷ 0 ∷ 0 ∷ 0 ∷ []))

pub completion-HasFrame : HasFrame completion_bytes
unfolding header_at from_le
completion-HasFrame = (omega arith, refl, refl, refl)

pub completion-IsRecord : IsRecord completion_bytes (complete (complete_of completion_bytes))
unfolding header_at from_le
completion-IsRecord = is_complete refl refl

pub submission-HasFrame : HasFrame submission_bytes
unfolding header_at from_le
submission-HasFrame = (omega arith, refl, refl, refl)

pub submission-IsRecord : IsRecord submission_bytes (submit (submit_of submission_bytes))
unfolding header_at from_le fixed_of submit_fixed_at
submission-IsRecord = is_submit refl (omega arith, refl)

-- The tables of field offsets, and the event ids, of a capture.
abbrev pub two_events : Events
two_events = record {
  submit_id = 100;
  complete_id = 101;
  submit_fmt = record {
    ctrl_id = 8;
    qid = 12;
    cid = 16;
    data_len = 20;
    meta_len = 24;
    use_sgl = 28;
    single_segment = 29;
    sqe = 36;
    descriptors_dataloc = 32;
  };
  complete_fmt = record {
    ctrl_id = 8;
    qid = 12;
    cid = 16;
    result = 24;
    sq_head = 32;
    sq_id = 34;
    status = 36;
    retries = 38;
  };
}

pub two_events-IsLayout : IsLayout two_events
two_events-IsLayout = record {
  submit_layout = record {
    ctrl_id_end = omega arith;
    qid_end = omega arith;
    cid_end = omega arith;
    data_len_end = omega arith;
    meta_len_end = omega arith;
    use_sgl_end = omega arith;
    single_segment_end = omega arith;
  };
  complete_layout = record {
    ctrl_id_end = omega arith;
    qid_end = omega arith;
    cid_end = omega arith;
    result_end = omega arith;
    sq_head_end = omega arith;
    sq_id_end = omega arith;
    status_end = omega arith;
  };
}

-- The data of a submission event with one descriptor, and of a completion event.
abbrev pub submit_event : List ℕ
submit_event =
    100
    ∷ 0
    ∷ (zeros 10
        ++ (1
            ∷ 0
            ∷ 0
            ∷ 0
            ∷ 7
            ∷ 0
            ∷ 0
            ∷ 0
            ∷ 0
            ∷ 16
            ∷ 0
            ∷ 0
            ∷ 0
            ∷ 0
            ∷ 0
            ∷ 0
            ∷ 0
            ∷ 1
            ∷ 0
            ∷ 0
            ∷ 100
            ∷ 0
            ∷ 8
            ∷ 0
            ∷ 2
            ∷ (zeros 63 ++ (0 ∷ 32 ∷ 0 ∷ 0 ∷ 0 ∷ 0 ∷ 0 ∷ 0 ∷ []))))

abbrev pub complete_event : List ℕ
complete_event =
    101
    ∷ 0
    ∷ (zeros 10 ++ (1 ∷ 0 ∷ 0 ∷ 0 ∷ 7 ∷ 0 ∷ (zeros 14 ++ (3 ∷ 0 ∷ 1 ∷ 0 ∷ 0 ∷ 0 ∷ 2 ∷ 0 ∷ []))))

-- A page with one of each kind of entry.
abbrev pub four_entries : List Entry
four_entries =
    time_stamp 0 1000 ∷ long 7 submit_event ∷ time_extend 3 2 ∷ short 10 5 complete_event ∷ []

pub four_entries-IsEntry : All IsEntry four_entries
four_entries-IsEntry = (
  (omega arith, omega arith),
  (
    (omega arith, omega arith, omega arith),
    ((omega arith, omega arith), ((omega arith, omega arith, omega arith, refl), tt)),
  ),
)

-- A list of bytes, by a test; and such a list as a source.
abbrev pub are_bytes : List ℕ → Bool
are_bytes [] = true
are_bytes (b ∷ bs) = ltb b 256 && are_bytes bs

pub are_bytes→All : (bs : List ℕ) → are_bytes bs ≡ true → All IsByte bs
are_bytes→All [] h = tt
are_bytes→All (b ∷ bs) h = (ground arith, are_bytes→All bs (ground arith))

unfoldable pub as_source : List ℕ → Source
as_source [] = []
as_source (b ∷ bs) = chunk (b ∷ bs) ∷ []

pub as_source-IsSteady : (bs : List ℕ) → IsSteady (as_source bs)
unfolding as_source
as_source-IsSteady [] = tt
as_source-IsSteady (b ∷ bs) = tt

pub contents-as_source : (bs : List ℕ) → contents (as_source bs) ≡ bs
unfolding as_source contents
contents-as_source [] = refl
contents-as_source (b ∷ bs) = append-nil (b ∷ bs)
