-- ===== src/Print.antt =====
-- tracing/nvme-trace/src/print.rs, lines 12 to 217: a trace as text, one line for each record. The
-- standard output takes every line.
use gds_traces.Text.Words.{lines}
use gds_traces.Reader.Records.{RecordReader, new, next_record}
use gds_traces.Inputs.{FilePath}
use gds_traces.Reader.Source.{Source, contents}
use gds_traces.Format.Readers.{Binrw}
use gds_traces.Format.Accept.{raw}
use gds_traces.Commands.{CommandError, System, input_files, opening, parsing, zero_block_size}
use gds_traces.Text.Affix.{Text, codes}
use gds_traces.Text.Decimal.{decimal}
use gds_traces.Base.Bytes.{from_le}
use gds_traces.Base.{
  none, some, suc, zero, Bool, List, [], false, get_or, if◌then◌else◌, length, map, true, ℕ, ◌%◌,
  ◌*◌, ◌++◌, ◌+◌, ◌==◌, ◌^◌, ◌∷◌,
}
use gds_traces.Format.Types.{
  TraceError, CompleteRecord, SglDesc, SubmitRecord, SubmitTail, TraceRecord, complete, prp, sgl,
  submit, tail_len,
}
use gds_traces.Text.Hex.{concat, hex, join_commas, show_bool}
use gds_traces.Base.Outcome.{◌>>◌, Result, ok, err, map_err}
use gds_traces.Ftrace.Run.{index, range, Run, done, panic, out_of_fuel, ◌>>=◌}
pub mod Fields
pub mod Listing

pub data NvmeOpcode : Type 0 where
  flush_op write_op read_op write_uncorrectable compare_op write_zeroes : NvmeOpcode
  dataset_management verify_op : NvmeOpcode
  other_op : ℕ → NvmeOpcode

unfoldable pub is_read_or_write : NvmeOpcode → Bool
is_read_or_write read_op = true
is_read_or_write write_op = true
is_read_or_write op = false

unfoldable pub opcode_from : ℕ → NvmeOpcode
opcode_from value =
    if value == 0x00
    then flush_op
    else if value == 0x01
    then write_op
    else if value == 0x02
    then read_op
    else if value == 0x04
    then write_uncorrectable
    else if value == 0x05
    then compare_op
    else if value == 0x08
    then write_zeroes
    else if value == 0x09
    then dataset_management
    else if value == 0x0c
    then verify_op
    else other_op value

unfoldable pub show_opcode : NvmeOpcode → Text
show_opcode flush_op = codes "flush(0x00)"
show_opcode write_op = codes "write(0x01)"
show_opcode read_op = codes "read(0x02)"
show_opcode write_uncorrectable = codes "write_uncorrectable(0x04)"
show_opcode compare_op = codes "compare(0x05)"
show_opcode write_zeroes = codes "write_zeroes(0x08)"
show_opcode dataset_management = codes "dataset_management(0x09)"
show_opcode verify_op = codes "verify(0x0c)"
show_opcode (other_op value) = codes "unknown(0x" ++ (hex 2 value ++ codes ")")

-- `sqe_le_u16`, `sqe_le_u32` and `sqe_le_u64`, by the number of bytes.
unfoldable pub sqe_le : ℕ → SubmitRecord → ℕ → Run ℕ
sqe_le n r offset = do bytes ← range r.sqe offset n; done (from_le bytes)

unfoldable pub submit_prps : SubmitRecord → Run (ℕ × ℕ)
submit_prps r = do prp1 ← sqe_le 8 r 24; prp2 ← sqe_le 8 r 32; done (prp1, prp2)

abbrev pub show_mode : Bool → Text
show_mode true = codes "sgl"
show_mode false = codes "prp"

-- What is said of a read or a write: the products are `u128`.
unfoldable pub format_blocks : SubmitRecord → ℕ → Run Text
format_blocks r block_size = do
  nsid ← sqe_le 4 r 4
  slba ← sqe_le 8 r 40
  nlb0 ← sqe_le 2 r 48
  let nlb = nlb0 + 1
  let byte_offset = slba * block_size % 2 ^ 128
  let sqe_data_bytes = nlb * block_size % 2 ^ 128
  done (
      concat (
        codes " nsid="
        ∷ decimal nsid
        ∷ codes " slba="
        ∷ decimal slba
        ∷ codes " nlb="
        ∷ decimal nlb
        ∷ codes " block_size="
        ∷ decimal block_size
        ∷ codes " byte_offset="
        ∷ decimal byte_offset
        ∷ codes " sqe_data_bytes="
        ∷ decimal sqe_data_bytes
        ∷ []))

unfoldable pub submit_head : Text → SubmitRecord → ℕ → NvmeOpcode → Text
submit_head path r offset opcode = concat (
    path
    ∷ codes ":"
    ∷ decimal offset
    ∷ codes " submit ts="
    ∷ decimal r.header.timestamp_ns
    ∷ codes " seq="
    ∷ decimal r.header.seq
    ∷ codes " ctrl=nvme"
    ∷ decimal r.header.ctrl_id
    ∷ codes " qid="
    ∷ decimal r.header.qid
    ∷ codes " cid="
    ∷ decimal r.header.cid
    ∷ codes " opcode="
    ∷ show_opcode opcode
    ∷ codes " data_len="
    ∷ decimal r.data_len
    ∷ codes " meta_len="
    ∷ decimal r.meta_len
    ∷ codes " mode="
    ∷ show_mode r.use_sgl
    ∷ codes " single_segment="
    ∷ show_bool r.single_segment
    ∷ codes " tail_entries="
    ∷ decimal (tail_len r.tail)
    ∷ [])

unfoldable pub format_submit : Text → SubmitRecord → ℕ → ℕ → Run Text
format_submit path r offset block_size = do
  op ← index r.sqe 0
  let opcode = opcode_from op
  blocks ← if is_read_or_write opcode then format_blocks r block_size else done []
  done (submit_head path r offset opcode ++ blocks)

unfoldable pub format_prp_tail : List ℕ → Text
format_prp_tail entries =
    codes "[" ++ (join_commas (map (λ entry. codes "0x" ++ hex 16 entry) entries) ++ codes "]")

-- The reserved bytes are an array of three.
unfoldable pub format_sgl_entry : SglDesc → Text
format_sgl_entry entry = concat (
    codes "{addr=0x"
    ∷ hex 16 entry.addr
    ∷ codes ",len="
    ∷ decimal entry.length
    ∷ codes ",type=0x"
    ∷ hex 2 entry.desc_type
    ∷ codes ",reserved="
    ∷ hex 2 (get_or entry.reserved 0 0)
    ∷ hex 2 (get_or entry.reserved 1 0)
    ∷ hex 2 (get_or entry.reserved 2 0)
    ∷ codes "}"
    ∷ [])

unfoldable pub format_sgl_tail : List SglDesc → Text
format_sgl_tail entries = codes "[" ++ (join_commas (map format_sgl_entry entries) ++ codes "]")

unfoldable pub format_submit_tail : SubmitTail → Text
format_submit_tail (prp entries) = format_prp_tail entries
format_submit_tail (sgl entries) = format_sgl_tail entries

unfoldable pub format_complete : Text → CompleteRecord → ℕ → Text
format_complete path r offset = concat (
    path
    ∷ codes ":"
    ∷ decimal offset
    ∷ codes " complete ts="
    ∷ decimal r.header.timestamp_ns
    ∷ codes " seq="
    ∷ decimal r.header.seq
    ∷ codes " ctrl=nvme"
    ∷ decimal r.header.ctrl_id
    ∷ codes " qid="
    ∷ decimal r.header.qid
    ∷ codes " cid="
    ∷ decimal r.header.cid
    ∷ codes " result=0x"
    ∷ hex 16 r.result
    ∷ codes " sq_head="
    ∷ decimal r.sq_head
    ∷ codes " sq_id="
    ∷ decimal r.sq_id
    ∷ codes " status=0x"
    ∷ hex 4 r.status
    ∷ codes " retries="
    ∷ decimal r.retries
    ∷ [])

abbrev pub assumed_nvme_ctrl_page_size : ℕ
assumed_nvme_ctrl_page_size = 4096

-- The two descriptors of a command without an SGL.
abbrev pub format_prps : SubmitRecord → Run Text
format_prps r = do
  prps ← submit_prps r
  done (
      concat (
        codes " mps="
        ∷ decimal assumed_nvme_ctrl_page_size
        ∷ codes " prp1=0x"
        ∷ hex 16 prps.0
        ∷ codes " prp2=0x"
        ∷ hex 16 prps.1
        ∷ []))

unfoldable pub format_record : Text → TraceRecord → ℕ → ℕ → Run Text
format_record path (submit r) offset block_size = do
  line ← format_submit path r offset block_size
  prps ← if r.use_sgl then done [] else format_prps r
  done (concat (line ∷ prps ∷ codes " tail=" ∷ format_submit_tail r.tail ∷ []))
format_record path (complete r) offset block_size = done (format_complete path r offset)

-- The lines that are printed, and how it ends.
abbrev pub Printed : Type 0 → Type 0
Printed Error = Run (List Text × Result Error (Unit {0}))

abbrev pub print_text : {Error : Type 0} → Run Text → Printed Error → Printed Error
print_text line more = do text ← line; rest ← more; done (text ∷ rest.0, rest.1)

-- Lines, and then what comes behind them, where there was no error.
abbrev pub then_print :
    {Error : Type 0} → List Text × Result Error (Unit {0}) → Printed Error → Printed Error
then_print (lines, err e) more = done (lines, err e)
then_print (lines, ok printed) more = do rest ← more; done (lines ++ rest.0, rest.1)

module _ {E : Type 0} (binrw : Binrw E) where
  -- The loop over a file's records, on fuel for its rounds.
  unfoldable pub print_file : ℕ → Text → ℕ → RecordReader → Printed (TraceError E)
  print_file zero path block_size reader = out_of_fuel
  print_file (suc fuel) path block_size reader =
      let (read, rest) = next_record binrw reader in
      elim read [
        | err e ↦ done ([], err e)
        | ok none ↦ done ([], ok tt)
        | ok (some raw) ↦
            print_text (format_record path raw.trace_record raw.offset block_size)
              (print_file fuel path block_size rest)
      ]

  abbrev pub named_error :
      FilePath
      → List Text × Result (TraceError E) (Unit {0})
      → List Text × Result (CommandError E) (Unit {0})
  named_error path (lines, r) = (lines, map_err (parsing path) r)

  abbrev pub print_opened : FilePath → ℕ → Result ℕ Source → Printed (CommandError E)
  print_opened path block_size (err e) = done ([], err (opening path e))
  print_opened path block_size (ok source) = do
    printed ← print_file (suc (length (contents source))) path.shown block_size (new source)
    done (named_error path printed)

  unfoldable pub print_files : System → ℕ → List FilePath → Printed (CommandError E)
  print_files system block_size [] = done ([], ok tt)
  print_files system block_size (path ∷ paths) = do
    printed ← print_opened path block_size (system.open_file path)
    then_print printed (print_files system block_size paths)

  abbrev pub print_found :
      System → ℕ → Result (CommandError E) (List FilePath) → Printed (CommandError E)
  print_found system block_size (err e) = done ([], err e)
  print_found system block_size (ok files) = print_files system block_size files

  unfoldable pub print_records : System → List FilePath → ℕ → Printed (CommandError E)
  print_records system inputs block_size =
      if block_size == 0
      then done ([], err zero_block_size)
      else print_found system block_size (input_files system inputs)
