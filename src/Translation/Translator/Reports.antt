-- ===== src/Translation/Translator/Reports.antt =====
-- The segments that the events of translation/session.py name, over a session.
use tea_asr_service.Prelude.{
  ℕ, ◌+◌, ◌≤◌, ◌≡◌, refl, ap, inl, inr, true, false, Bool-cases, List, [], ◌∷◌, ◌++◌, ◌==◌, length,
  append-nil, arith,
}
use tea_asr_service.Translation.Translator.{
  Final, SessionTranslator, Phase, idle, starting, calling, ended, ids_of, is_empty, wake,
  session_started, failed, answered, drain_queue, drain_joined, drain_timeout, close,
}
use tea_asr_service.Translation.Translator.Turns.{
  Turn, submits, wakes, starts, fails, answers, breaks, joins, times_out, closes, step, run,
  submitted, reported, batch_of, pending,
}
use tea_asr_service.Translation.Translator.Queueing.{IsSound, is_ended, is_empty-nil}
use tea_asr_service.Translation.Translator.Validity.{step-IsSound, run-IsSound, cancel_task-ended}
use tea_asr_service.Translation.Translator.Order.{submitted-cons}
use tea_asr_service.Translation.Translator.Telling.{
  count, count-append, reported-append, held, held-pending, Told, wake_in-Told, start_in-Told,
  fail_in-Told, answer_in-Told, drain_joined-Told, submit-Told, stays_ended,
}

module _ (id : ℕ) where
  ended_phase : (ph : Phase) → is_ended ph ≡ true → ph ≡ ended
  ended_phase idle e = cc
  ended_phase (starting batch ids) e = cc
  ended_phase (calling batch ids) e = cc
  ended_phase ended e = refl

  was_going :
      (s : SessionTranslator) (t : Turn)
      → is_ended (step s t).0.phase ≡ false
      → is_ended s.phase ≡ false
  was_going s t going = elim (Bool-cases (is_ended s.phase)) [
    | inl gone ↦ ground (arith, stays_ended id s t (ended_phase s.phase gone))
    | inr on ↦ on
  ]

  step-Told :
      (s : SessionTranslator) (t : Turn)
      → IsSound s
      → is_ended (step s t).0.phase ≡ false
      → Told id (held id s + count id (submitted (t ∷ []))) (step s t)
  unfolding step wake session_started failed answered close drain_timeout
  step-Told s (submits segment_id text) v going =
      submit-Told id segment_id text s (v.emitting (was_going s (submits segment_id text) going))
        (v.going (was_going s (submits segment_id text) going))
  step-Told s (wakes provider_generation) v going =
      omega (arith, wake_in-Told id provider_generation s s.phase v refl)
  step-Told s (starts generation) v going =
      omega (arith, start_in-Told id generation s s.phase refl)
  step-Told s (fails exc) v going = omega (arith, fail_in-Told id exc s s.phase v refl going)
  step-Told s (answers trans text) v going =
      omega (arith, answer_in-Told id trans text s s.phase v refl)
  step-Told s breaks v going = ground (arith, ap is_ended (cancel_task-ended s))
  step-Told s joins v going = elim (Bool-cases (s.unfinished == 0)) [
    | inl z ↦ simp z (omega (arith, drain_joined-Told id s (v.emitting (was_going s joins going))))
    | inr waits ↦ simp waits (omega arith)
  ]
  step-Told s times_out v going = ground (arith, ap is_ended (cancel_task-ended (drain_queue s)))
  step-Told s closes v going = ground (arith, ap is_ended (cancel_task-ended s))

  run_was_going :
      (s : SessionTranslator) (ts : List Turn)
      → is_ended (run s ts).0.phase ≡ false
      → is_ended s.phase ≡ false
  unfolding run
  run_was_going s [] going = going
  run_was_going s (t ∷ ts) going = was_going s t (run_was_going (step s t).0 ts going)

  -- Whatever happens to the translator while its task runs: each segment that was pending at first or
  -- was submitted is named in an event that was sent, or is still pending, at least as often.
  pub run-reported :
      (s : SessionTranslator) (ts : List Turn)
      → IsSound s
      → is_ended (run s ts).0.phase ≡ false
      → count id (pending s ++ submitted ts)
        ≤ count id (reported (run s ts).1 ++ pending (run s ts).0)
  unfolding run
  run-reported s [] v going = omega (arith, ap (count id) (append-nil (pending s)))
  run-reported s (t ∷ ts) v going =
      let r = step s t in
      let q = run r.0 ts in
      omega (
        arith,
        step-Told s t v (run_was_going r.0 ts going),
        run-reported r.0 ts (step-IsSound s t v) going,
        held-pending id s,
        held-pending id r.0,
        ap (count id) (submitted-cons t ts),
        count-append id (submitted (t ∷ [])) (submitted ts),
        count-append id (pending s) (submitted (t ∷ ts)),
        count-append id (pending r.0) (submitted ts),
        ap (count id) (reported-append r.1 q.1),
        count-append id (reported r.1) (reported q.1),
        count-append id (reported (r.1 ++ q.1)) (pending q.0),
        count-append id (reported q.1) (pending q.0),
      )

  no_batch : (items : List Final) → length items ≡ 0 → ids_of items ≡ []
  no_batch [] e = refl
  no_batch (item ∷ items) e = absurd (omega (arith, e))

  joined_pending :
      (s : SessionTranslator) → IsSound s → s.unfinished ≡ 0 → held id (drain_joined s).0 ≡ 0
  unfolding drain_joined
  joined_pending s v z =
      let no_queue = ap (count id) (no_batch s.queue (omega (arith, v.joined, z))) in
      let no_calls = ap (count id) (no_batch (batch_of s.phase) (omega (arith, v.joined, z))) in
      elim (Bool-cases (is_empty s.carried)) [
        | inl clean ↦
            simp clean
              (omega (arith, no_queue, no_calls, ap (count id) (is_empty-nil s.carried clean)))
        | inr lost ↦ simp lost (omega (arith, no_queue, no_calls))
      ]

  -- When `drain` comes back from its `join` while the task runs, each segment that was pending at first
  -- or was submitted has been named in an event, at least as often.
  pub drain-reported :
      (s : SessionTranslator) (ts : List Turn)
      → IsSound s
      → is_ended (run s ts).0.phase ≡ false
      → (run s ts).0.unfinished ≡ 0
      → count id (pending s ++ submitted ts)
        ≤ count id (reported ((run s ts).1 ++ (drain_joined (run s ts).0).1))
  drain-reported s ts v going z =
      let r = run s ts in
      let d = drain_joined r.0 in
      let valid = run-IsSound s ts v in
      omega (
        arith,
        run-reported s ts v going,
        drain_joined-Told id r.0 (valid.emitting going),
        joined_pending r.0 valid z,
        held-pending id r.0,
        ap (count id) (reported-append r.1 d.1),
        count-append id (reported r.1) (reported d.1),
        count-append id (reported r.1) (pending r.0),
      )
