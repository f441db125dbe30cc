-- ===== src/Lib.antt =====
-- The streaming speech-recognition service of this repository, modelled function by function, with
-- the theorems that make its parts correct. Paths below are from the repository's root.
--
-- How the parts meet. A client streams 16 kHz PCM over a WebSocket, in frames under a flow-control
-- window. The session (Stream) gives the PCM to the segmenter, which cuts it into segments by the scores
-- of a voice-activity model; a closed segment waits in the session's queue, and its consumer asks for
-- its text, while the segment that is still open is previewed. The scheduler orders these requests, of
-- all sessions, before the one recognition worker, and they are framed on its pipes (Worker). What is
-- recognised is freed of the repetition of audio that was carried over and of repeated units, its terms
-- are replaced (Context), gives the stable text of its segment from partial to partial, and leaves as
-- events through the event writer, which bounds what waits for a slow client. The final texts also go
-- to the session's translator, which calls the READ/WRITE engine in the translation worker. In parallel
-- the PCM goes to the singing labels, which decide for each segment whether it is speech. The HTTP and
-- WebSocket handlers ask the rate limiter before they check a token.
--
-- Files.
-- - Prelude: shared names, Boolean tests, lists over the native numbers, integers, Python's slices.
-- - Segmenter: `ContinuousSegmenter` of src/tea_asr/segmenter.py. `Segmenter` has the state, `init`,
--   `close`, `confirm`, `quiet_split_point` and `open_segment_audio`; Segmenter/Machine has `_step`,
--   `flush`, `_trim` and `push`. A score is a natural number, in units in which every float is one, and
--   the voice-activity model is a parameter. An assertion that fails is a result. The loop of `push` runs
--   on fuel, next_sample - cursor + 1, of which one is used for each window of 512 samples that the
--   cursor passes. The hook `on_window` is not modelled.
-- - Stream: the session of src/tea_asr/api/stream.py, without singing labels, translation, capture and
--   diagnostics. `Stream` has the state (`Segment`, `SessionState` and the attributes of
--   `StreamSession`), which the segments share by index, and `sent`, what was handed to the event
--   writer. Stream/Frames has `_handle_frame` and `_advance_continuous`, Stream/History
--   `_remember_audio` and `_audio_before`, Stream/Segments `_open_segment` and `_enqueue`,
--   Stream/Preview the times at which previews start and Stream/Publishing what `_run_preview` does with
--   an answer, Stream/StableLine `_emit_stable` and `_abandon_stable`, Stream/Closing
--   `_close_open_audio`, Stream/Control `_dedup`, `_handle_control` and `fail`, Stream/Consumer and
--   Stream/Transcription `_consume` and `_transcribe_segment`, Stream/Text the filters of the text, with
--   `hold_back_tail` of src/tea_asr/punctuation.py, Stream/Overlap `strip_carried_overlap`, and
--   Stream/Admission `ContinuousSessionAdmission`. Stream/Machine composes them: the coroutines are cut
--   where they await, and a schedule is any list of their turns, with what the worker, the restoration
--   of the punctuation and the clock answer as arguments. Stream/Machine/Ledger keeps, for its proofs,
--   an account of each segment.
-- - Context: `resolve_context`, `apply_replacements` and `contains_context_echo` of
--   src/tea_asr/context.py. The loop of `apply_replacements` runs on fuel, one more than the length of
--   the text, of which each round passes a character, when no rule has an empty source.
-- - Worker/Protocol: src/tea_asr/worker/protocol.py, and the request that `_exchange` of
--   src/tea_asr/worker/supervisor.py writes. A pipe is the list of the chunks that arrive; the text of a
--   JSON value is a parameter, of which is known that what is written is read back. `read_exact` runs on
--   fuel, one more than the bytes that are wanted, of which each read brings one.
-- - RateLimit: `AuthRateLimiter` of src/tea_asr/rate_limit.py. The ordered dictionary is the list of
--   its entries, oldest first; the clock's reading is an argument, and the clock does not run back.
-- - Scheduler: `Scheduler` of src/tea_asr/scheduler.py. `transcribe` is cut where it awaits: `submit` is
--   its part before, `resume_cancelled` its `except` branch, `work_done` the callback of the worker's
--   call; the futures' fates are effects. The worker's call and the log are not modelled.
-- - Events: `EventWriter` of src/tea_asr/api/events.py. `emit` is the producer's side and `write` a round
--   of the loop of `run`. The JSON text of an event enters by its size, a parameter.
-- - Translation/Translator: `SessionTranslator` of src/tea_asr/translation/session.py. The task `_run` is
--   cut where it awaits, and `Phase` is its place; the provider's answers are arguments.
-- - Translation/Engine and Translation/Response: `SimtEngine`, `sanitize_history` and
--   `parse_model_response` of src/tea_asr/translation/simt.py, its patterns read by hand. The model is a
--   parameter; the fixed text of the prompt is not modelled.
-- - Singing: Singing/Tracker and Singing/Labeler are `SingingTracker` and `SegmentLabeler` of
--   src/tea_asr/singing.py, and Singing/Frames is `SessionSinging` of src/tea_asr/singing_session.py. The
--   float arithmetic of the scores is a parameter, and Singing/Reference says the label without
--   history, for Singing/Decisions.
-- - Repetition: src/tea_asr/repetition.py, whose loop goes down the text instead of moving an index. Two
--   of Unicode's categories are parameters.
-- - Stable: src/tea_asr/stable.py. Stable/Chars and Stable/Cuts have the places where a text may be cut,
--   Stable/View the comparison view, Stable/Alignment the table of the edit distances and Stable/Tracker
--   `StablePrefixTracker`. What Python's Unicode tables say of a character is a parameter.
-- - TokenBudget: src/tea_asr/worker/token_budget.py, with an exact ceiling.
--
-- A text is the list of its characters' codes. Numbers are natural numbers without a bound, as Python's
-- are; where a difference may fall below 0 it is an integer or is shown not to.
--
-- Not modelled: the handshake, the shutdown and the idle timeout of the session, its opt-in singing
-- labels and translation as parts of it (they are modelled by themselves), and its capture and
-- diagnostics; the workers' processes and their restarts; the dictionary files and the text of the
-- prompt; the punctuation model; the configuration; the HTTP routes; and what only calls a model or the
-- operating system.
pub mod Context
pub mod Events
pub mod Prelude
pub mod RateLimit
pub mod Repetition
pub mod Scheduler
pub mod Segmenter
pub mod Singing
pub mod Stable
pub mod Stream
pub mod TokenBudget
pub mod Translation
pub mod Worker
