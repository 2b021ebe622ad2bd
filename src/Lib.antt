-- ===== src/Lib.antt =====
-- gds-traces: the nvme-trace program (tracing/nvme-trace), which captures NVMe submissions and
-- completions of the Linux kernel and reads, merges, prints and analyses the traces; and the
-- Rust client of its relay reproducer (reproducer/relay-repro-client).
--
-- A trace is a sequence of records: a header of 24 bytes, then the body of a submission or of a
-- completion. `ftrace.rs` makes the records from the events on ring-buffer pages; `lib.rs` reads
-- them back; `analyze.rs` counts the commands in flight, and `print.rs` prints them. A capture
-- sets up tracefs and runs a thread for each processor, which writes a file; the other commands
-- expand their inputs to such files, open them, and read them one by one or merge them.
--
-- Base/ shared names; tests, lists, results and little-endian bytes on native numbers.
-- Format/ tracing/nvme-trace/src/lib.rs, lines 9 to 295, 350 to 386 and 509 to 592. Types has
--   the records and errors, Readers the derived `BinRead` readers, Parse `parse_record_bytes`
--   and what it calls. Layout, Accept and Reject say which bytes are which record.
-- Reader/ lib.rs, lines 292 to 347 and 594 to 609: `read_exact_or_eof` (Source), `next_record`
--   (Records), what a call returns (Streams) and takes (Cost), and the loop over it that
--   analyze.rs and print.rs share (Loop).
-- Order/ lib.rs, `record_order` (Compare) and its laws (Laws).
-- Splice/ lib.rs, lines 410 to 507: the items of the heap and their order (Heap),
--   `splice_streams_with_names` (Merge), how a merge ends (Total), and the record that the heap
--   gives first (Earliest). Update, Distinct, Interleave, Start, Merges and InOrder lead to what
--   the merge of well-formed streams writes (Output) and its order (Ordered).
-- Ftrace/ tracing/nvme-trace/src/ftrace.rs, lines 37 to 80 and 382 to 619: the field tables
--   (Formats), the encoders (Encode), the page parser (Page). Ring is the page format that the
--   source's comment describes, as a writer; Rounds, Replay and Readback relate the two.
-- Capture/ tracing/nvme-trace/src/capture.rs, lines 125 to 249: `read_one_page` and `drain_pipe`
--   (Pipe), what draining writes (Drain), the thread `read_cpu_pipe` (Thread) and what it has
--   written when it returns (Finish).
-- Text/ what the program uses of `str`, over bytes: prefixes and suffixes (Affix), `parse` of
--   unsigned integers (Digits), printing them (Decimal, Hex), lines and words (Words,
--   Splitting).
-- Inputs/ tracing/nvme-trace/src/main.rs, lines 97 to 143 (Inputs): the names of processors'
--   files (Names), and which files the inputs of a command give (Expansion).
-- Commands/ splice.rs, lines 10 to 38, and analyze.rs, lines 80 to 113 and 156 to 181
--   (Commands): the commands over their input files; the records that are loaded (Loading), the
--   merge (Splicing).
-- Session/ ftrace.rs, lines 86 to 356, and capture.rs, lines 26 to 123: the `format` files
--   (FormatFile), such files as a printer (Declared) and what is read from them (Offsets), the
--   files of tracefs and the steps over them (Tracefs), `FtraceCapture` (Control), the order of
--   its writes (Effects, Order), `capture` (Whole), the events lost by the `stats` files
--   (Losses), when a capture succeeds (Complete), and what it returns where threads failed
--   (Failures).
-- Print/ print.rs, lines 12 to 217 (Print): the fields of a submission entry (Fields), and the
--   lines of a trace (Listing).
-- Relay/ reproducer/relay-repro-client/src/main.rs, lines 22 to 32, 92 to 105 and 135 to 265
--   (Relay): the scan of a buffer (Scanning), what records add to the counts (Counting), and a
--   run (Running).
-- Analyze/ tracing/nvme-trace/src/analyze.rs, lines 11 to 78, 183 to 224, 245 to 247, 257 to 437
--   and 476 to 488: maps and sets (Maps), keys (Keys), `QueueDepthState` (Depth), what its
--   depths count (Outstanding, History), `emit_due_samples` and `write_depth_sample` (Samples),
--   the loop that takes the samples (Sampling; Timeline to Schedule), the distributions
--   (Percent, Distribution, Counts), the bytes by time bucket (Throughput, Buckets; Transfers,
--   Transferred).
-- Examples/ concrete inputs.
--
-- How state and errors are modelled. Numbers are natural numbers; a cast, a wrapping or a `+=`
-- on a machine integer is written out as a remainder. A method of `RecordReader` is a function
-- from the reader to a result and the reader behind it. A `Read` is the list of the answers that
-- it will give: chunks of bytes and errors. An index or a range out of bounds is `panic` in
-- `Run` (Ftrace/Run), and the layout under which none occurs is a hypothesis. The binrw
-- package's integer read is the parameter `Binrw`, a record of the operation and its documented
-- law. The sets and maps of the standard library are association lists over a `Key`, and a
-- `BinaryHeap` is a list whose `pop` takes a greatest item. A text is its bytes, and what is
-- split or trimmed is ASCII. The file system, tracefs and the system are records of the answers
-- that their calls give (`FileTree`, `System`, `Tracefs`), errors by their numbers; an output
-- file takes every write. A session returns with the writes that it tried, in order. The rounds
-- of a loop that waits are a list of what each round finds: the stop flag, the answers of `poll`
-- and of `read`. Threads are what joining them gives, and the humantime package's parser is a
-- parameter.
--
-- Fuel. `page_loop` runs on the number of bytes of the page: a round takes four at least.
-- `read_records` needs one round more than there are records, and never more than the bytes and
-- one. A file that a command opens has a round for each of its bytes and one. `drain_pipe` needs
-- one round more than there are pages. `splice_loop` needs one round more than there are records
-- in the streams, and never more than their bytes and one. `emit_due_samples` needs two rounds
-- more than lie between the next sample and the limit. `decimal` and `hex` have more fuel than
-- digits, and the scan of the relay client a round for each byte and one.
--
-- Not modelled: the text of error messages and warnings, and what is written to the standard
-- error; the clap derives and the dispatch in `main`; errors of a write to an output file, and
-- an output that is one of the inputs; the signal handler and the sleeps of capture.rs; the
-- rates and percentages that analyze.rs prints, and its report lines; the log thread's errors,
-- the CPU pinning and the hexdumps of the relay client; the reproducer in C, the tasks, and the
-- build files.
pub mod Base
pub mod Format
pub mod Reader
pub mod Ftrace
pub mod Order
pub mod Splice
pub mod Capture
pub mod Analyze
pub mod Text
pub mod Inputs
pub mod Commands
pub mod Session
pub mod Relay
pub mod Print
pub mod Examples
