-- ===== src/StreamArchive.antt =====
-- stream_archive.py: the frames of an MSC2 archive, and the data frames of a file.
pub mod Frames
pub mod Files
pub mod RoundTrip
mod Tests
