-- ===== src/Examples/Pages.antt =====
-- The properties of Ftrace at concrete events and pages.
use gds_traces.Ftrace.Values.{complete_record, write_complete-IsRecord}
use gds_traces.Format.Accept.{HasFrame, IsRecord, complete_of}
use gds_traces.Ftrace.Readback.{IsEventData, page_records-read_records}
use gds_traces.Ftrace.Page.{parse_page_events}
use gds_traces.Base.Bytes.{from_le, le_bytes}
use gds_traces.Ftrace.Ring.{cut, ending_bytes, entries_bytes, entry_bytes, entry_head, page_bytes}
use gds_traces.Ftrace.Replay.{flatten, page_records, parse_page_events-replay}
use gds_traces.Reader.Source.{contents}
use gds_traces.Ftrace.Encode.{CompleteValues, SubmitValues, write_complete, write_submit}
use gds_traces.Ftrace.Run.{done}
use gds_traces.Base.Outcome.{ok}
use gds_traces.Ftrace.Submit.{
  AreSubmitValues, submit_record, write_submit-IsRecord, write_submit_rejected,
}
use gds_traces.Base.{List, [], arith, false, length, map, refl, some, suc, true, ◌++◌, ◌∷◌, ◌≡◌}
use gds_traces.Format.Types.{RawRecord, complete, submit}
use gds_traces.Examples.Data.{
  are_bytes→All, as_source, as_source-IsSteady, contents-as_source, complete_event, four_entries,
  four_entries-IsEntry, le_binrw, submit_event, two_events, two_events-IsLayout, zeros,
}
use gds_traces.Ftrace.Safety.{submit_values_at}
use gds_traces.Reader.Records.{new, read_records}

abbrev event_values : SubmitValues
event_values = record {
  ctrl_id = 0;
  qid = 1;
  cid = 7;
  data_len = 4096;
  meta_len = 0;
  use_sgl = false;
  single_segment = true;
  sqe = 2 ∷ zeros 63;
  descriptors = zeros 8;
}

-- The same event with descriptors that are not whole entries.
abbrev cut_values : SubmitValues
cut_values = record event_values { descriptors = zeros 7 }

event_values-fit : AreSubmitValues event_values
event_values-fit = record {
  ctrl_id_fits = omega arith;
  qid_fits = omega arith;
  cid_fits = omega arith;
  data_len_fits = omega arith;
  meta_len_fits = omega arith;
  sqe_fits = refl;
  descriptors_fit = omega arith;
}

cut_values-fit : AreSubmitValues cut_values
cut_values-fit = record {
  ctrl_id_fits = omega arith;
  qid_fits = omega arith;
  cid_fits = omega arith;
  data_len_fits = omega arith;
  meta_len_fits = omega arith;
  sqe_fits = refl;
  descriptors_fit = omega arith;
}

abbrev done_values : CompleteValues
done_values = record {
  ctrl_id = 0;
  qid = 1;
  cid = 7;
  result = 9;
  sq_head = 3;
  sq_id = 1;
  status = 0;
  retries = 2;
}

write_complete-IsRecord_example :
    HasFrame (write_complete 5 done_values)
    × IsRecord (write_complete 5 done_values) (complete (complete_record 5 done_values))
write_complete-IsRecord_example = write_complete-IsRecord 5 done_values (omega arith) (record {
  ctrl_id_fits = omega arith;
  qid_fits = omega arith;
  cid_fits = omega arith;
  result_fits = omega arith;
  sq_head_fits = omega arith;
  sq_id_fits = omega arith;
  status_fits = omega arith;
  retries_fits = omega arith;
})

write_submit-IsRecord_example :
    HasFrame (write_submit 5 event_values)
    × IsRecord
        (write_submit 5 event_values)
        (submit (submit_record 5 event_values (omega arith) event_values-fit))
write_submit-IsRecord_example =
    write_submit-IsRecord 5 event_values (omega arith) event_values-fit refl

write_submit_rejected_example :
    ¬ IsRecord (write_submit 5 cut_values) (complete (complete_of (write_submit 5 cut_values)))
write_submit_rejected_example =
    write_submit_rejected 5 cut_values (omega arith) cut_values-fit (λ (h : 7 ≡ 0). omega arith)
      (complete (complete_of (write_submit 5 cut_values)))

parse_page_events-replay_example :
    parse_page_events two_events
      (page_bytes 50 (zeros 4) (entries_bytes four_entries ++ ending_bytes (cut (0 ∷ []))) (7 ∷ []))
      (1 ∷ [])
    ≡ done (
      length (page_records two_events 50 four_entries),
      (1 ∷ []) ++ flatten (page_records two_events 50 four_entries),
    )
unfolding entries_bytes entry_bytes entry_head ending_bytes le_bytes
parse_page_events-replay_example =
    parse_page_events-replay two_events two_events-IsLayout 50 (zeros 4) (7 ∷ []) (1 ∷ [])
      four_entries (cut (0 ∷ [])) (omega arith) refl four_entries-IsEntry (omega arith)
      (omega arith) (omega arith)

submit_event-IsEventData : IsEventData two_events submit_event
unfolding submit_values_at from_le
submit_event-IsEventData = record {
  are_bytes = are_bytes→All submit_event refl;
  fits_page = omega arith;
  whole = λ h. refl;
}

complete_event-IsEventData : IsEventData two_events complete_event
unfolding submit_values_at from_le
complete_event-IsEventData = record {
  are_bytes = are_bytes→All complete_event refl;
  fits_page = omega arith;
  whole = λ (h : 101 ≡ 100). absurd (omega arith);
}

page_records-read_records_example :
    (rs : List RawRecord) × (read_records le_binrw
        (suc (length (page_records two_events 50 four_entries)))
        (new (as_source (flatten (page_records two_events 50 four_entries))))
      ≡ some (ok rs))
    × (map (λ r. r.bytes) rs ≡ page_records two_events 50 four_entries)
unfolding contents
page_records-read_records_example =
    page_records-read_records le_binrw two_events 50 four_entries
      (as_source (flatten (page_records two_events 50 four_entries))) four_entries-IsEntry
      (submit_event-IsEventData, (complete_event-IsEventData, tt))
      (as_source-IsSteady (flatten (page_records two_events 50 four_entries)))
      (contents-as_source (flatten (page_records two_events 50 four_entries)))
