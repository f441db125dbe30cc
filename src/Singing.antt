-- ===== src/Singing.antt =====
-- tea_asr/singing.py and tea_asr/singing_session.py: the labels speech and singing of the segments.
pub mod Tracker
pub mod Reference
pub mod Decisions
pub mod Labeler
pub mod Frames
mod Examples
