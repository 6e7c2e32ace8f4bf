-- ===== src/Bitseq.antt =====
-- bitseq/sequence.go: a bitmask kept as a list of run-length encoded 32-bit blocks, and the handle
-- that allocates and releases single bits of it.
pub mod Sequence
pub mod Handle
pub mod Codec
mod Tests
