-- ===== src/Examples.antt =====
-- The theorems at concrete inputs: each file takes the bytes, pages or records that it needs.
mod Data
mod Records
mod Streams
mod Pages
mod Depths
mod Merges
mod Pipes
mod Traces
mod Sessions
mod Formats
mod Relays
