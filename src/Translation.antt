-- ===== src/Translation.antt =====
-- The translation of a session (tea_asr/translation): the session's translator, which calls the
-- translation worker, and the READ/WRITE engine inside that worker.
pub mod Translator
pub mod Engine
pub mod Response
