-- ===== src/Archive.antt =====
-- archive.py: the archive MSC1 of one file, from the bytes of the file to those of the archive and
-- back.
pub mod Types
pub mod Encode
pub mod Decode
pub mod Blocks
pub mod Inner
pub mod RoundTrip
pub mod Bounds
pub mod Inspect
pub mod Samples
mod Tests
