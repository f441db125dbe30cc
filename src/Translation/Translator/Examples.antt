-- ===== src/Translation/Translator/Examples.antt =====
-- The translator of translation/session.py on short sessions, and its theorems there.
use mathlib.Core.List.{Sublist}
use tea_asr_service.Prelude.{◌≤◌, ◌≡◌, refl, true, false, none, List, [], ◌∷◌, ◌++◌, arith}
use tea_asr_service.Translation.Translator.{
  SessionTranslator, start, ended, submit, is_full, wake, ensure_session, session_started, failed,
  fail_batch, is_fatal, answered, take_response, drain_joined,
}
use tea_asr_service.Translation.Translator.Turns.{
  Turn, submits, wakes, starts, fails, answers, step, run, submitted, translated, reported, pending,
}
use tea_asr_service.Translation.Translator.Queueing.{IsSound}
use tea_asr_service.Translation.Translator.Validity.{run-IsSound}
use tea_asr_service.Translation.Translator.Order.{run-ordered}
use tea_asr_service.Translation.Translator.Reports.{run-reported, drain-reported}
use tea_asr_service.Translation.Translator.Telling.{count}

abbrev new : SessionTranslator
new = start (record {
  max_pending = 2;
  queue = [];
  unfinished = 0;
  phase = ended;
  generation = none;
  next_index = 0;
  carried = [];
  inflight = [];
  stopped = false;
  closed = false;
})

new-IsSound : IsSound new
new-IsSound = record {
  bounded = λ h. omega arith;
  fresh = λ _. refl;
  going = λ _. refl;
  emitting = λ _. refl;
  joined = omega arith;
  held = refl;
  holds = tt;
}

-- The second call takes two segments at once; the model waits with the third, which `drain` reports.
abbrev turns : List Turn
turns =
    submits 1 (7 ∷ [])
    ∷ wakes 1
    ∷ starts 1
    ∷ submits 2 (8 ∷ [])
    ∷ submits 3 (9 ∷ [])
    ∷ submits 4 (9 ∷ [])
    ∷ answers true (70 ∷ [])
    ∷ wakes 1
    ∷ answers true (80 ∷ [])
    ∷ submits 5 (9 ∷ [])
    ∷ wakes 1
    ∷ answers false []
    ∷ []

run-turns :
    (translated (run new turns).1 ≡ 1 ∷ 2 ∷ 3 ∷ [])
    × (reported (run new turns).1 ≡ 4 ∷ 1 ∷ 2 ∷ 3 ∷ [])
    × (pending (run new turns).0 ≡ 5 ∷ [])
    × ((run new turns).0.unfinished ≡ 0)
unfolding run step submit is_full wake ensure_session session_started answered take_response
run-turns = (refl, refl, refl, refl)

-- The worker restarts while segment 1 is carried, and the new session cannot be started: segment 1 is
-- named in two errors.
named_twice :
    reported
      (run new (
        submits 1 []
        ∷ wakes 1
        ∷ starts 1
        ∷ answers false []
        ∷ submits 2 []
        ∷ wakes 2
        ∷ fails (record { code = "translation_failed"; retryable = true })
        ∷ [])).1
    ≡ 1 ∷ 1 ∷ 2 ∷ []
unfolding run step submit is_full wake ensure_session session_started answered take_response failed
    fail_batch is_fatal
named_twice = refl

run-IsSound_example : IsSound (run new turns).0
run-IsSound_example = run-IsSound new turns new-IsSound

run-ordered_example :
    Sublist
      (translated (run new turns).1 ++ pending (run new turns).0)
      (pending new ++ submitted turns)
run-ordered_example = run-ordered new turns new-IsSound

run-reported_example :
    count 5 (pending new ++ submitted turns)
    ≤ count 5 (reported (run new turns).1 ++ pending (run new turns).0)
unfolding run step submit is_full wake ensure_session session_started answered take_response
run-reported_example = run-reported 5 new turns new-IsSound refl

drain-reported_example :
    count 5 (pending new ++ submitted turns)
    ≤ count 5 (reported ((run new turns).1 ++ (drain_joined (run new turns).0).1))
unfolding run step submit is_full wake ensure_session session_started answered take_response
drain-reported_example = drain-reported 5 new turns new-IsSound refl refl
