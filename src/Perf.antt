-- ===== src/Perf.antt =====
-- src/perf.rs: the run-length filter, the write buffer and the chunk compressor.
pub mod Rle
pub mod WriteBuffer
pub mod Chunks
