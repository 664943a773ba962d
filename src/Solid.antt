-- ===== src/Solid.antt =====
-- solid_frames.py: the frames of a solid lane.
pub mod FramedSize
pub mod Frames
