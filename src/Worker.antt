-- ===== src/Worker.antt =====
-- The process that runs the recognition model, seen from the service: src/tea_asr/worker.
pub mod Protocol
