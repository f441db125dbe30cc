-- ===== src/Translation/Translator/Turns.antt =====
-- translation/session.py over time: what may happen to the translator of a session, in any order.
use tea_asr_service.Prelude.{ℕ, Bool, ◌==◌, if◌then◌else◌, List, [], ◌∷◌, ◌++◌}
use tea_asr_service.Translation.Translator.{
  Final, ApiError, Event, segment, failure, SessionTranslator, Phase, idle, starting, calling,
  ended, Acted, ids_of, submit, wake, session_started, failed, answered, cancel_task, drain_joined,
  drain_timeout, close,
}

-- `breaks`: another exception than ApiError ends the task. `joins`: `drain` goes on after `join`, which
-- it does while nothing is outstanding.
pub data Turn : Type 0 where
  submits : (segment_id : ℕ) (text : List ℕ) → Turn
  wakes : (provider_generation : ℕ) → Turn
  starts : (generation : ℕ) → Turn
  fails : ApiError → Turn
  answers : (trans : Bool) (text : List ℕ) → Turn
  breaks joins times_out closes : Turn

unfoldable pub step : SessionTranslator → Turn → Acted
step s (submits segment_id text) = submit segment_id text s
step s (wakes provider_generation) = wake provider_generation s
step s (starts generation) = session_started generation s
step s (fails exc) = failed exc s
step s (answers trans text) = answered trans text s
step s breaks = (cancel_task s, [])
step s joins = if s.unfinished == 0 then drain_joined s else (s, [])
step s times_out = drain_timeout s
step s closes = (close s, [])

unfoldable pub run : SessionTranslator → List Turn → Acted
run s [] = (s, [])
run s (t ∷ ts) = let (s', events) = step s t in let (s'', more) = run s' ts in (s'', events ++ more)

-- The segments that were submitted.
abbrev pub submitted : List Turn → List ℕ
submitted [] = []
submitted (submits segment_id text ∷ ts) = segment_id ∷ submitted ts
submitted (_ ∷ ts) = submitted ts

-- The segments of the translations that were sent, and those of every event that was sent.
abbrev pub translated : List Event → List ℕ
translated [] = []
translated (segment n ids text ∷ events) = ids ++ translated events
translated (failure exc ids stopped ∷ events) = translated events

abbrev pub reported : List Event → List ℕ
reported [] = []
reported (segment n ids text ∷ events) = ids ++ reported events
reported (failure exc ids stopped ∷ events) = ids ++ reported events

abbrev pub batch_of : Phase → List Final
batch_of idle = []
batch_of (starting batch ids) = batch
batch_of (calling batch ids) = batch
batch_of ended = []

-- The segments that the translator still has: carried, in the call, and in the queue.
abbrev pub pending : SessionTranslator → List ℕ
pending s = s.carried ++ ids_of (batch_of s.phase) ++ ids_of s.queue
