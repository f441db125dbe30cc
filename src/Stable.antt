-- ===== src/Stable.antt =====
-- tea_asr/stable.py: the append-only text of a segment while it is spoken. A text is the list of its
-- characters' codes, and what Python's Unicode tables say of a character is a parameter.
pub mod Chars
pub mod Cuts
pub mod Agreement
pub mod View
pub mod Alignment
pub mod Tracker
mod Examples
