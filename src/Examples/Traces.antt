-- ===== src/Examples/Traces.antt =====
-- The properties of Inputs, Commands and Print at concrete files.
use gds_traces.Base.Bytes.{from_le}
use gds_traces.Splice.Interleave.{Interleaves}
use gds_traces.Text.Hex.{concat, show_bool}
use gds_traces.Splice.Heap.{bytes_cmp}
use gds_traces.Reader.Source.{contents}
use gds_traces.Inputs.Expansion.{Expanded, expand_input_paths-Expanded}
use gds_traces.Base.Sort.{insert_sorted, place, sort}
use gds_traces.Format.Accept.{complete_of, submit_of}
use gds_traces.Print.Fields.{blocks_text, format_blocks-blocks_text, sqe_field}
use gds_traces.Ftrace.Run.{done, index, range}
use gds_traces.Commands.Loading.{
  loaded_records, HaveStreams, analyze_records-streams, analyze_records_total,
}
use gds_traces.Commands.Splicing.{splice-Interleaves}
use gds_traces.Text.Affix.{Text, codes, same_text, strip_prefix}
use gds_traces.Format.Types.{
  SubmitRecord, TraceRecord, complete, nvme_trace_magic, nvme_trace_version, prp, submit,
}
use gds_traces.Text.Decimal.{decimal}
use gds_traces.Ftrace.Replay.{flatten}
use gds_traces.Examples.Data.{
  are_bytes→All, as_source, completion-HasFrame, completion-IsRecord, completion_bytes, le_binrw,
  submission-HasFrame, submission-IsRecord, submission_bytes, zeros,
}
use gds_traces.Base.{
  List, [], arith, false, if◌then◌else◌, length, none, not, refl, some, true, ℕ, ◌%◌, ◌++◌, ◌+◌,
  ◌^◌, ◌↔◌, ◌∷◌, ◌≡◌,
}
use gds_traces.Inputs.{
  FilePath, FileTree, collect_inputs, expand_input_paths, parse_cpu_bin, path_cmp, sort_input_path,
}
use gds_traces.Print.{
  format_blocks, format_submit, is_read_or_write, opcode_from, show_opcode, sqe_le, submit_head,
}
use gds_traces.Inputs.Names.{IsCpuName, cpu_bin_name, parse_cpu_bin-cpu_bin_name, parse_cpu_bin_iff}
use gds_traces.Reader.Loop.{Stream, stream_bytes}
use gds_traces.Commands.{CommandError, analyze_records, create_parent, splice, System}
use gds_traces.Base.Outcome.{Result, ok, err}

parse_cpu_bin-cpu_bin_name_example : parse_cpu_bin (cpu_bin_name 42) ≡ some 42
parse_cpu_bin-cpu_bin_name_example = parse_cpu_bin-cpu_bin_name 42 (omega arith)

parse_cpu_bin_iff_example :
    (parse_cpu_bin (codes "cpu007.bin") ≡ some 7) ↔ IsCpuName (codes "cpu007.bin") 7
parse_cpu_bin_iff_example = parse_cpu_bin_iff (codes "cpu007.bin") 7

abbrev file_named : Text → FilePath
file_named name = record { shown = name; file_name = some name }

-- One directory, `d`, with two processors' files and another.
abbrev one_dir : FileTree
one_dir = record {
  is_dir = λ path. same_text path.shown (codes "d");
  is_file = λ path. not (same_text path.shown (codes "d"));
  read_dir = λ path. ok (
      ok (file_named (codes "cpu10.bin"))
      ∷ ok (file_named (codes "notes"))
      ∷ ok (file_named (codes "cpu2.bin"))
      ∷ []);
}

abbrev dir_and_file : List FilePath
dir_and_file = file_named (codes "d") ∷ file_named (codes "x") ∷ []

expand_input_paths-Expanded_example :
    Expanded one_dir dir_and_file (expand_input_paths one_dir dir_and_file)
expand_input_paths-Expanded_example = expand_input_paths-Expanded one_dir dir_and_file

-- Two files, `b` with a completion and any other with a submission.
abbrev two_files : System
two_files = record {
  tree = record { is_dir = λ path. false; is_file = λ path. true; read_dir = λ path. err 2 };
  open_file = λ path.
      ok (
        as_source
          (if same_text path.shown (codes "b") then completion_bytes else submission_bytes));
  parent = λ path. none;
  create_dir_all = λ path. err 13;
  create_file = λ path. ok tt;
  flush_file = λ path. ok tt;
}

abbrev path_a : FilePath
path_a = file_named (codes "a")

abbrev path_b : FilePath
path_b = file_named (codes "b")

abbrev streams_ab : List Stream
streams_ab =
    ((submission_bytes, submit (submit_of submission_bytes)) ∷ [])
    ∷ ((completion_bytes, complete (complete_of completion_bytes)) ∷ [])
    ∷ []

expanded_ab : expand_input_paths two_files.tree (path_b ∷ path_a ∷ []) ≡ ok (path_a ∷ path_b ∷ [])
unfolding expand_input_paths collect_inputs sort insert_sorted place path_cmp sort_input_path
    parse_cpu_bin strip_prefix bytes_cmp
expanded_ab = refl

have_ab : HaveStreams two_files (path_a ∷ path_b ∷ []) streams_ab
unfolding same_text stream_bytes contents as_source
have_ab = (
  (as_source submission_bytes, refl, tt, refl, ((submission-HasFrame, submission-IsRecord), tt)),
  (
    (as_source completion_bytes, refl, tt, refl, ((completion-HasFrame, completion-IsRecord), tt)),
    tt,
  ),
)

analyze_records_total_example :
    (r : Result (CommandError (Unit {0})) (List TraceRecord)) × (analyze_records le_binrw two_files
        (path_b ∷ path_a ∷ [])
      ≡ some r)
analyze_records_total_example = analyze_records_total le_binrw two_files (path_b ∷ path_a ∷ [])

analyze_records-streams_example :
    analyze_records le_binrw two_files (path_b ∷ path_a ∷ [])
    ≡ some (ok (loaded_records streams_ab))
analyze_records-streams_example =
    analyze_records-streams le_binrw two_files (path_b ∷ path_a ∷ []) path_a (path_b ∷ [])
      streams_ab expanded_ab have_ab

splice-Interleaves_example :
    (recs : List (List ℕ)) × Interleaves streams_ab recs
    × (splice le_binrw two_files (path_b ∷ path_a ∷ []) (file_named (codes "out"))
        ≡ (some (ok (length (flatten recs) % 2 ^ 64)), some (flatten recs)))
splice-Interleaves_example =
    splice-Interleaves le_binrw two_files (path_b ∷ path_a ∷ []) (file_named (codes "out")) path_a
      (path_b ∷ []) streams_ab expanded_ab have_ab (unfold create_parent in refl) refl refl

-- A read of eight blocks from block 8192 on.
abbrev read_command : SubmitRecord
read_command = record {
  header = record {
    magic = nvme_trace_magic;
    version = nvme_trace_version;
    record_type = 0;
    len = 100;
    timestamp_ns = 100;
    seq = 7;
    ctrl_id = 0;
    qid = 1;
    cid = 2;
  };
  sqe = (2 ∷ 0 ∷ 0 ∷ 0 ∷ 1 ∷ zeros 35) ++ ((0 ∷ 32 ∷ zeros 6) ++ (7 ∷ zeros 15));
  data_len = 4096;
  meta_len = 0;
  use_sgl = false;
  single_segment = false;
  nr_entries = 0;
  tail = prp [];
}

format_blocks-blocks_text_example :
    format_blocks read_command 512
    ≡ done (
        blocks_text
          (sqe_field 4 read_command 4)
          (sqe_field 8 read_command 40)
          (sqe_field 2 read_command 48 + 1)
          512)
format_blocks-blocks_text_example =
    format_blocks-blocks_text read_command refl 512 (are_bytes→All read_command.sqe refl)
      (omega arith)

-- The fields of this command as they are printed.
read_command_text :
    format_submit (codes "f") read_command 64 512
    ≡ done (
        codes
          "f:64 submit ts=100 seq=7 ctrl=nvme0 qid=1 cid=2 opcode=read(0x02) data_len=4096 meta_len=0 mode=prp single_segment=false tail_entries=0 nsid=1 slba=8192 nlb=8 block_size=512 byte_offset=4194304 sqe_data_bytes=4096")
unfolding format_submit format_blocks submit_head concat decimal opcode_from show_opcode sqe_le
    range index from_le show_bool is_read_or_write
read_command_text = refl
