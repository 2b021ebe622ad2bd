-- ===== src/Print/Listing.antt =====
-- tracing/nvme-trace/src/print.rs, lines 12 to 37: the lines that a trace gives.
use gds_traces.Inputs.{FilePath}
use gds_traces.Format.Types.{RawRecord}
use gds_traces.Reader.Loop.{Stream, stream_records}
use gds_traces.Text.Words.{lines}
use gds_traces.Print.{format_record}
use gds_traces.Format.Accept.{raw}
use gds_traces.Base.{List, [], ℕ, ◌++◌, ◌∷◌, ◌≡◌}
use gds_traces.Text.Affix.{Text}
use gds_traces.Ftrace.Run.{done}

-- One line for each record, in order.
abbrev pub AreLines : Text → ℕ → List RawRecord → List Text → Type 0
AreLines path block_size [] [] = Unit {0}
AreLines path block_size [] (line ∷ lines) = ⊥
AreLines path block_size (raw ∷ raws) [] = ⊥
AreLines path block_size (raw ∷ raws) (line ∷ lines) =
    (format_record path raw.trace_record raw.offset block_size ≡ done line)
    × AreLines path block_size raws lines

-- The lines of all files, file by file.
pub data AreListed (block_size : ℕ) : List FilePath → List Stream → List Text → Type 0 where
  no_files : AreListed block_size [] [] []
  more_files :
      (path : FilePath) (paths : List FilePath) (ps : Stream) (pss : List Stream)
      (lines more : List Text)
      → AreLines path.shown block_size (stream_records 0 ps) lines
      → AreListed block_size paths pss more
      → AreListed block_size (path ∷ paths) (ps ∷ pss) (lines ++ more)
