-- ===== src/Modes.antt =====
-- modes
pub mod Rle
pub mod Delta8
pub mod LzSimple
pub mod ByteRans
pub mod LzRans
pub mod Raw
pub mod Deflate
pub mod Features
pub mod Registry
