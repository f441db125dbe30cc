-- ===== src/Translation/Translator/Order.antt =====
-- The order of the segments in translation/session.py, over a session.
use mathlib.Core.List.{Sublist}
use mathlib.Core.List.{nil-sublist}
use mathlib.Core.List.Sublist
use tea_asr_service.Prelude.{
  ℕ, ◌≡◌, refl, subst, inl, inr, false, ◌||◌, Bool-cases, List, [], ◌∷◌, ◌++◌, ◌==◌, append-nil,
  append_assoc,
}
use tea_asr_service.Translation.Translator.{
  Final, SessionTranslator, ids_of, is_full, submit, wake, session_started, failed, answered, close,
}
use tea_asr_service.Translation.Translator.Turns.{
  Turn, submits, wakes, starts, fails, answers, breaks, joins, times_out, closes, step, run,
  submitted, translated, batch_of, pending,
}
use tea_asr_service.Translation.Translator.Queueing.{IsSound}
use tea_asr_service.Translation.Translator.Validity.{step-IsSound}
use tea_asr_service.Translation.Translator.Sequence.{
  map-append, translated-append, translated-report, all, wake_in-Among, start_in-Among,
  fail_in-Among, answer_in-Among, cancel_task-Among, drain_joined-Among, drain_timeout-Among,
}

submit-Ordered :
    (segment_id : ℕ) (text : List ℕ) (s : SessionTranslator)
    → Sublist
        (translated (submit segment_id text s).1 ++ pending (submit segment_id text s).0)
        (pending s ++ segment_id ∷ [])
unfolding submit
submit-Ordered segment_id text s = elim (Bool-cases (s.closed || s.stopped)) [
  | inl over ↦ simp over shrunk
  | inr open' ↦ elim (Bool-cases (is_full s)) [
    | inl full ↦
        simp
          (
            open',
            full,
            translated-report (record { code = "queue_full"; retryable = false }) (segment_id ∷ [])
                false s,
          )
          shrunk
    | inr room ↦
        simp (open', room)
          (rw
            (
              map-append (λ (item : Final). item.segment_id) s.queue
                  (record { segment_id = segment_id; text = text } ∷ []),
              ← append_assoc (s.carried ++ ids_of (batch_of s.phase)) (ids_of s.queue)
                  (segment_id ∷ []),
            )
            (all _))
  ]
]
  where
    shrunk : Sublist (pending s) (pending s ++ segment_id ∷ [])
    shrunk =
        subst (λ t. Sublist t (pending s ++ segment_id ∷ [])) (append-nil (pending s))
          (Sublist.append (all (pending s)) (nil-sublist (segment_id ∷ [])))

step-Ordered :
    (s : SessionTranslator) (t : Turn)
    → IsSound s
    → Sublist (translated (step s t).1 ++ pending (step s t).0) (pending s ++ submitted (t ∷ []))
unfolding step wake session_started failed answered close
step-Ordered s (submits segment_id text) v = submit-Ordered segment_id text s
step-Ordered s (wakes provider_generation) v =
    rw (append-nil (pending s)) (wake_in-Among provider_generation s s.phase refl)
step-Ordered s (starts generation) v =
    rw (append-nil (pending s)) (start_in-Among generation s s.phase refl)
step-Ordered s (fails exc) v = rw (append-nil (pending s)) (fail_in-Among exc s s.phase)
step-Ordered s (answers trans text) v =
    rw (append-nil (pending s)) (answer_in-Among trans text s s.phase v refl)
step-Ordered s breaks v = rw (append-nil (pending s)) (cancel_task-Among s)
step-Ordered s joins v = rw (append-nil (pending s)) (elim (Bool-cases (s.unfinished == 0)) [
  | inl z ↦ simp z (drain_joined-Among s)
  | inr waits ↦ simp waits (all (pending s))
])
step-Ordered s times_out v = rw (append-nil (pending s)) (drain_timeout-Among s)
step-Ordered s closes v = rw (append-nil (pending s)) (cancel_task-Among s)

pub submitted-cons :
    (t : Turn) (ts : List Turn) → submitted (t ∷ ts) ≡ submitted (t ∷ []) ++ submitted ts
submitted-cons (submits segment_id text) ts = refl
submitted-cons (wakes provider_generation) ts = refl
submitted-cons (starts generation) ts = refl
submitted-cons (fails exc) ts = refl
submitted-cons (answers trans text) ts = refl
submitted-cons breaks ts = refl
submitted-cons joins ts = refl
submitted-cons times_out ts = refl
submitted-cons closes ts = refl

-- Whatever happens to the translator, and in whichever order: the segments of the translations that
-- were sent, and then those still pending, are among those that were pending at first and those that
-- were submitted, in their order. So no segment is translated twice, none overtakes another, and none
-- is translated that was not submitted.
pub run-ordered :
    (s : SessionTranslator) (ts : List Turn)
    → IsSound s
    → Sublist (translated (run s ts).1 ++ pending (run s ts).0) (pending s ++ submitted ts)
unfolding run
run-ordered s [] v = rw (append-nil (pending s)) (all (pending s))
run-ordered s (t ∷ ts) v =
    let r = step s t in
    let q = run r.0 ts in
    rw
      (
        translated-append r.1 q.1,
        submitted-cons t ts,
        ← append_assoc (pending s) (submitted (t ∷ [])) (submitted ts),
        append_assoc (translated r.1) (translated q.1) (pending q.0),
      )
      (Sublist.trans
        (Sublist.append (all (translated r.1)) (run-ordered r.0 ts (step-IsSound s t v)))
        (rw (← append_assoc (translated r.1) (pending r.0) (submitted ts))
          (Sublist.append (step-Ordered s t v) (all (submitted ts)))))
