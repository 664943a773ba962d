-- ===== src/Format.antt =====
-- The public headers of the containers: container_format.py, stream_format.py and dedup_format.py.
-- A header is packed in one `struct` format and parsed by its size, its magic and its bounds.
pub mod Parse
pub mod PublicHeader
pub mod StreamHeader
pub mod Frame
pub mod DedupHeader
mod Tests
