-- ===== src/Translation/Translator/Validity.antt =====
-- The translator of translation/session.py through the ends of its calls and of its task.
use tea_asr_service.Prelude.{
  ℕ, ◌+◌, ◌-◌, ◌≤◌, ◌≡◌, refl, subst, ap, ◌∙◌, inl, inr, Bool, true, false, Bool-cases, List, [],
  ◌∷◌, length, ◌==◌, ==_iff, arith,
}
use tea_asr_service.Translation.Translator.{
  Final, SessionTranslator, Phase, idle, starting, calling, ended, is_empty, is_some, take_response,
  answer_in, answered, drain_queue, cancel_in, cancel_task, drain_joined, drain_timeout, close,
}
use tea_asr_service.Translation.Translator.Turns.{
  Turn, submits, wakes, starts, fails, answers, breaks, joins, times_out, closes, step, run,
}
use tea_asr_service.Translation.Translator.Turns.{batch_of}
use tea_asr_service.Translation.Translator.Queueing.{
  IsSound, is_ended, ids_in, Holds, moved-IsSound, submit-IsSound, wake-IsSound,
  session_started-IsSound, failed-IsSound,
}

-- The task has gone, and with it the batch.
ended-IsSound :
    (s : SessionTranslator) (queue : List Final) (carried : List ℕ) (unfinished : ℕ) (closed : Bool)
    → IsSound s
    → length queue ≤ length s.queue
    → unfinished ≡ length queue
    → (is_some s.generation ≡ false → carried ≡ [])
    → IsSound (record s {
      queue = queue;
      unfinished = unfinished;
      phase = ended;
      carried = carried;
      inflight = [];
      closed = closed;
    })
ended-IsSound s queue carried unfinished closed v le n f = record {
  bounded = λ h. omega (arith, v.bounded h, le);
  fresh = f;
  going = λ h. cc;
  emitting = λ h. cc;
  joined = omega (arith, n);
  held = refl;
  holds = tt;
}

take_response-IsSound :
    (trans : Bool) (text : List ℕ) (batch : List Final) (ids : List ℕ) (s : SessionTranslator)
    → IsSound s
    → s.phase ≡ calling batch ids
    → is_some s.generation ≡ true
    → IsSound (take_response trans text batch ids s).0
unfolding take_response
take_response-IsSound trans text batch ids s v e has =
    let n = v.joined in
    let same = ap (λ ph. length (batch_of ph)) e in
    let open' = ap is_ended e in
    let new_carried : (c : List ℕ) → is_some s.generation ≡ false → c ≡ [] = λ c h. cc in
    elim (Bool-cases trans) [
      | inl yes' ↦ elim (Bool-cases s.closed) [
        | inl over ↦
            simp (yes', over)
              (ended-IsSound s s.queue [] (s.unfinished - length batch) true v (omega arith)
                (omega (arith, n, same)) (λ _. refl))
        | inr on ↦
            simp (yes', on)
              (record {
                bounded = v.bounded;
                fresh = λ _. refl;
                going = λ _. v.going open';
                emitting = λ _. refl;
                joined = omega (arith, n, same);
                held = refl;
                holds = tt;
              })
      ]
      | inr wait ↦ simp wait (
          moved-IsSound s s.queue idle s.generation ids (s.unfinished - length batch) v open'
            (omega arith) (omega (arith, n, same)) (new_carried ids) tt)
    ]

answer_in-IsSound :
    (trans : Bool) (text : List ℕ) (s : SessionTranslator) (ph : Phase)
    → IsSound s
    → s.phase ≡ ph
    → IsSound (answer_in trans text s ph).0
unfolding answer_in
answer_in-IsSound trans text s idle v e = v
answer_in-IsSound trans text s (starting batch ids) v e = v
answer_in-IsSound trans text s (calling batch ids) v e =
    take_response-IsSound trans text batch ids s v e
      (subst (Holds s.generation s.carried) e v.holds).1
answer_in-IsSound trans text s ended v e = v

cancel_in-IsSound :
    (s : SessionTranslator) (ph : Phase) → IsSound s → s.phase ≡ ph → IsSound (cancel_in s ph)
unfolding cancel_in
cancel_in-IsSound s idle v e = record {
  bounded = v.bounded;
  fresh = v.fresh;
  going = λ h. cc;
  emitting = λ h. cc;
  joined = omega (arith, v.joined, ap (λ ph. length (batch_of ph)) e);
  held = v.held ∙ ap ids_in e;
  holds = tt;
}
cancel_in-IsSound s (starting batch ids) v e =
    ended-IsSound s s.queue s.carried (s.unfinished - length batch) s.closed v (omega arith)
      (omega (arith, v.joined, ap (λ ph. length (batch_of ph)) e)) v.fresh
cancel_in-IsSound s (calling batch ids) v e =
    ended-IsSound s s.queue s.carried (s.unfinished - length batch) s.closed v (omega arith)
      (omega (arith, v.joined, ap (λ ph. length (batch_of ph)) e)) v.fresh
cancel_in-IsSound s ended v e = v

pub cancel_task-IsSound : (s : SessionTranslator) → IsSound s → IsSound (cancel_task s)
unfolding cancel_task
cancel_task-IsSound s v = cancel_in-IsSound s s.phase v refl

cancel_in-ended :
    (s : SessionTranslator) (ph : Phase) → s.phase ≡ ph → (cancel_in s ph).phase ≡ ended
unfolding cancel_in
cancel_in-ended s idle e = refl
cancel_in-ended s (starting batch ids) e = refl
cancel_in-ended s (calling batch ids) e = refl
cancel_in-ended s ended e = e

pub cancel_task-ended : (s : SessionTranslator) → (cancel_task s).phase ≡ ended
unfolding cancel_task
cancel_task-ended s = cancel_in-ended s s.phase refl

-- A translator whose task is gone may be closed.
closed-IsSound :
    (s : SessionTranslator) → IsSound s → s.phase ≡ ended → IsSound (record s { closed = true })
closed-IsSound s v e = record {
  bounded = v.bounded;
  fresh = v.fresh;
  going = v.going;
  emitting = λ h. ground (arith, h, ap is_ended e);
  joined = v.joined;
  held = v.held;
  holds = v.holds;
}

drained-IsSound : (s : SessionTranslator) → IsSound s → IsSound (drain_queue s)
drained-IsSound s v = record {
  bounded = λ h. omega arith;
  fresh = v.fresh;
  going = v.going;
  emitting = v.emitting;
  joined = omega (arith, v.joined);
  held = v.held;
  holds = v.holds;
}

-- While nothing is outstanding, the task is in no call.
joined-Holds :
    (s : SessionTranslator) (ph : Phase)
    → s.unfinished ≡ 0
    → s.unfinished ≡ length s.queue + length (batch_of ph)
    → Holds s.generation s.carried ph
    → Holds s.generation [] ph
joined-Holds s idle z n h = tt
joined-Holds s (starting batch ids) z n h = absurd (omega (arith, z, n, h.0))
joined-Holds s (calling batch ids) z n h = absurd (omega (arith, z, n, h.0))
joined-Holds s ended z n h = tt

drain_joined-IsSound :
    (s : SessionTranslator) → IsSound s → s.unfinished ≡ 0 → IsSound (drain_joined s).0
unfolding drain_joined
drain_joined-IsSound s v z = elim (Bool-cases (is_empty s.carried)) [
  | inl clean ↦ simp clean v
  | inr lost ↦ simp lost (record {
    bounded = v.bounded;
    fresh = λ _. refl;
    going = v.going;
    emitting = v.emitting;
    joined = v.joined;
    held = v.held;
    holds = joined-Holds s s.phase z v.joined v.holds;
  })
]

drain_timeout-IsSound : (s : SessionTranslator) → IsSound s → IsSound (drain_timeout s).0
unfolding drain_timeout
drain_timeout-IsSound s v =
    closed-IsSound (cancel_task (drain_queue s))
      (cancel_task-IsSound (drain_queue s) (drained-IsSound s v))
      (cancel_task-ended (drain_queue s))

close-IsSound : (s : SessionTranslator) → IsSound s → IsSound (close s)
unfolding close
close-IsSound s v = closed-IsSound (cancel_task s) (cancel_task-IsSound s v) (cancel_task-ended s)

pub step-IsSound : (s : SessionTranslator) (t : Turn) → IsSound s → IsSound (step s t).0
unfolding step answered
step-IsSound s (submits segment_id text) v = submit-IsSound segment_id text s v
step-IsSound s (wakes provider_generation) v = wake-IsSound provider_generation s v
step-IsSound s (starts generation) v = session_started-IsSound generation s v
step-IsSound s (fails exc) v = failed-IsSound exc s v
step-IsSound s (answers trans text) v = answer_in-IsSound trans text s s.phase v refl
step-IsSound s breaks v = cancel_task-IsSound s v
step-IsSound s joins v = elim (Bool-cases (s.unfinished == 0)) [
  | inl z ↦ simp z (drain_joined-IsSound s v ((==_iff _ _).0 z))
  | inr waits ↦ simp waits v
]
step-IsSound s times_out v = drain_timeout-IsSound s v
step-IsSound s closes v = close-IsSound s v

-- Whatever happens to the translator, and in whichever order: the queue is within its bound; the count
-- that `join` waits for is that of the queue and the batch; nothing is carried over from no session of
-- the worker; a call would report the ids carried and then those of its batch; and the task has ended
-- once the translator is stopped or closed.
pub run-IsSound : (s : SessionTranslator) (ts : List Turn) → IsSound s → IsSound (run s ts).0
unfolding run
run-IsSound s [] v = v
run-IsSound s (t ∷ ts) v = run-IsSound (step s t).0 ts (step-IsSound s t v)
