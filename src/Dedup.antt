-- ===== src/Dedup.antt =====
-- dedup_archive.py: the deduplicating container.
pub mod Chunks
pub mod Frames
