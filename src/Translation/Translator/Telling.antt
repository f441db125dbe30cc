-- ===== src/Translation/Translator/Telling.antt =====
-- How often each step of translation/session.py names a segment.
use tea_asr_service.Prelude.{
  ℕ, ◌+◌, ◌≤◌, ◌≡◌, refl, sym, subst, ap, ◌∙◌, inl, inr, Bool, true, false, not, ◌&&◌, Bool-cases,
  List, [], ◌∷◌, ◌++◌, if◌then◌else◌, ◌==◌, append-nil, append_assoc, arith,
}
use tea_asr_service.Translation.Translator.{
  Final, ApiError, Event, segment, failure, SessionTranslator, Phase, idle, starting, calling,
  ended, Acted, ids_of, is_empty, is_some, same_generation, is_full, submit, ensure_session,
  take_batch, wake_in, wake, start_in, session_started, is_fatal, fail_batch, fail_in, failed,
  take_response, answer_in, answered, cancel_in, cancel_task, drain_joined, drain_timeout, close,
  report,
}
use tea_asr_service.Translation.Translator.Turns.{
  Turn, submits, wakes, starts, fails, answers, breaks, joins, times_out, closes, step, reported,
  batch_of, pending,
}
use tea_asr_service.Translation.Translator.Queueing.{IsSound, Holds, is_ended}
use tea_asr_service.Translation.Translator.Sequence.{map-append}

-- How often the segment is named
abbrev pub count : ℕ → List ℕ → ℕ
count id [] = 0
count id (x ∷ xs) = (if x == id then 1 else 0) + count id xs

pub count-append : (id : ℕ) (xs ys : List ℕ) → count id (xs ++ ys) ≡ count id xs + count id ys
count-append id [] ys = omega arith
count-append id (x ∷ xs) ys = omega (arith, count-append id xs ys)

pub reported-append : (xs ys : List Event) → reported (xs ++ ys) ≡ reported xs ++ reported ys
reported-append [] ys = refl
reported-append (segment n ids text ∷ xs) ys =
    ap (λ t. ids ++ t) (reported-append xs ys) ∙ sym (append_assoc ids (reported xs) (reported ys))
reported-append (failure exc ids stopped ∷ xs) ys =
    ap (λ t. ids ++ t) (reported-append xs ys) ∙ sym (append_assoc ids (reported xs) (reported ys))

module _ (id : ℕ) where
  abbrev pub held : SessionTranslator → ℕ
  held s = count id s.carried + count id (ids_of (batch_of s.phase)) + count id (ids_of s.queue)

  pub held-pending : (s : SessionTranslator) → count id (pending s) ≡ held s
  held-pending s = omega (
    arith,
    count-append id (s.carried ++ ids_of (batch_of s.phase)) (ids_of s.queue),
    count-append id s.carried (ids_of (batch_of s.phase)),
  )

  -- The segment is named at least as often in what the step sends and leaves as it was held.
  abbrev pub Told : ℕ → Acted → Type 0
  Told n r = n ≤ count id (reported r.1) + held r.0

  pub count-report :
      (exc : ApiError) (ids : List ℕ) (stopped : Bool) (s : SessionTranslator)
      → s.closed ≡ false
      → count id (reported (report exc ids stopped s)) ≡ count id ids
  count-report exc ids stopped s open' = simp (open', append-nil ids) refl

  ensure_session-Told :
      (provider : ℕ) (batch : List Final) (s : SessionTranslator)
      → s.closed ≡ false
      → Told
          (count id s.carried + count id (ids_of batch))
          (ensure_session provider batch (s.carried ++ ids_of batch) (record s { queue = [] }))
  unfolding ensure_session
  ensure_session-Told provider batch s open' =
      elim (Bool-cases (same_generation s.generation provider)) [
        | inl same ↦ simp same (omega arith)
        | inr stale ↦ elim (Bool-cases (is_some s.generation && not (is_empty s.carried))) [
          | inl lost ↦
              simp (stale, lost)
                (omega (
                  arith,
                  count-report (record { code = "translation_failed"; retryable = false }) s.carried
                      false s open',
                ))
          | inr clean ↦ simp (stale, clean) (omega arith)
        ]
      ]

  take_batch-Told :
      (provider : ℕ) (s : SessionTranslator) (queue : List Final)
      → s.phase ≡ idle
      → s.closed ≡ false
      → s.queue ≡ queue
      → Told (held s) (take_batch provider s queue)
  unfolding take_batch
  take_batch-Told provider s [] e open' q = omega arith
  take_batch-Told provider s (item ∷ items) e open' q =
      rw (e, q) (omega (arith, ensure_session-Told provider (item ∷ items) s open'))

  fail_batch-Told :
      (exc : ApiError) (batch : List Final) (ids : List ℕ) (s : SessionTranslator)
      → s.closed ≡ false
      → count id s.carried + count id (ids_of batch) ≤ count id ids
      → is_ended (fail_batch exc batch ids s).0.phase ≡ false
      → Told
          (count id s.carried + count id (ids_of batch) + count id (ids_of s.queue))
          (fail_batch exc batch ids s)
  unfolding fail_batch
  fail_batch-Told exc batch ids s open' le going = elim (Bool-cases (is_fatal exc)) [
    | inl fatal ↦ ground (arith, fatal)
    | inr passing ↦ simp passing (omega (arith, le, count-report exc ids false s open'))
  ]

  take_response-Told :
      (trans : Bool) (text : List ℕ) (batch : List Final) (ids : List ℕ) (s : SessionTranslator)
      → s.closed ≡ false
      → ids ≡ s.carried ++ ids_of batch
      → Told
          (count id s.carried + count id (ids_of batch) + count id (ids_of s.queue))
          (take_response trans text batch ids s)
  unfolding take_response
  take_response-Told trans text batch ids s open' h =
      let all = ap (count id) h ∙ count-append id s.carried (ids_of batch) in
      elim (Bool-cases trans) [
        | inl yes' ↦ simp (yes', open') (omega (arith, all, count-append id ids []))
        | inr wait ↦ simp wait (omega (arith, all))
      ]

  pub wake_in-Told :
      (provider : ℕ) (s : SessionTranslator) (ph : Phase)
      → IsSound s
      → s.phase ≡ ph
      → Told (held s) (wake_in provider s ph)
  unfolding wake_in
  wake_in-Told provider s idle v e =
      take_batch-Told provider s s.queue e (v.emitting (ap is_ended e)) refl
  wake_in-Told provider s (starting batch ids) v e = omega arith
  wake_in-Told provider s (calling batch ids) v e = omega arith
  wake_in-Told provider s ended v e = omega arith

  pub start_in-Told :
      (g : ℕ) (s : SessionTranslator) (ph : Phase) → s.phase ≡ ph → Told (held s) (start_in g s ph)
  unfolding start_in
  start_in-Told g s idle e = omega arith
  start_in-Told g s (starting batch ids) e = rw e (omega arith)
  start_in-Told g s (calling batch ids) e = omega arith
  start_in-Told g s ended e = omega arith

  pub fail_in-Told :
      (exc : ApiError) (s : SessionTranslator) (ph : Phase)
      → IsSound s
      → s.phase ≡ ph
      → is_ended (fail_in exc s ph).0.phase ≡ false
      → Told (held s) (fail_in exc s ph)
  unfolding fail_in
  fail_in-Told exc s idle v e going = omega arith
  fail_in-Told exc s (starting batch ids) v e going =
      let (full, none_carried, before, whole) = subst (Holds s.generation s.carried) e v.holds in
      rw e (
        fail_batch-Told exc batch ids s (v.emitting (ap is_ended e))
          (omega (
            arith,
            ap (count id) none_carried,
            ap (count id) whole,
            count-append id before (ids_of batch),
          ))
          going)
  fail_in-Told exc s (calling batch ids) v e going =
      let (full, has, whole) = subst (Holds s.generation s.carried) e v.holds in
      rw e (
        fail_batch-Told exc batch ids s (v.emitting (ap is_ended e))
          (omega (arith, ap (count id) whole, count-append id s.carried (ids_of batch))) going)
  fail_in-Told exc s ended v e going = omega arith

  pub answer_in-Told :
      (trans : Bool) (text : List ℕ) (s : SessionTranslator) (ph : Phase)
      → IsSound s
      → s.phase ≡ ph
      → Told (held s) (answer_in trans text s ph)
  unfolding answer_in
  answer_in-Told trans text s idle v e = omega arith
  answer_in-Told trans text s (starting batch ids) v e = omega arith
  answer_in-Told trans text s (calling batch ids) v e = rw e (
      take_response-Told trans text batch ids s (v.emitting (ap is_ended e))
        (subst (Holds s.generation s.carried) e v.holds).2)
  answer_in-Told trans text s ended v e = omega arith

  pub drain_joined-Told :
      (s : SessionTranslator) → s.closed ≡ false → Told (held s) (drain_joined s)
  unfolding drain_joined
  drain_joined-Told s open' = elim (Bool-cases (is_empty s.carried)) [
    | inl clean ↦ simp clean (omega arith)
    | inr lost ↦ simp lost (
        omega (
          arith,
          count-report (record { code = "translation_failed"; retryable = false }) s.carried false s
              open',
        ))
  ]

  pub submit-Told :
      (segment_id : ℕ) (text : List ℕ) (s : SessionTranslator)
      → s.closed ≡ false
      → s.stopped ≡ false
      → Told (held s + count id (segment_id ∷ [])) (submit segment_id text s)
  unfolding submit
  submit-Told segment_id text s open' on = elim (Bool-cases (is_full s)) [
    | inl full ↦ simp (open', on, full) (omega arith)
    | inr room ↦
        let item : Final = record { segment_id = segment_id; text = text } in
        simp (open', on, room)
          (omega (
            arith,
            ap (count id) (map-append (λ (x : Final). x.segment_id) s.queue (item ∷ [])),
            count-append id (ids_of s.queue) (segment_id ∷ []),
          ))
  ]

  -- Once gone, the task does not come back.
  pub stays_ended :
      (s : SessionTranslator) (t : Turn) → s.phase ≡ ended → is_ended (step s t).0.phase ≡ true
  unfolding step wake session_started failed answered close wake_in start_in fail_in answer_in
      submit drain_joined drain_timeout cancel_task cancel_in
  stays_ended s (submits segment_id text) e = ground (arith, ap is_ended e)
  stays_ended s (wakes provider_generation) e = simp e refl
  stays_ended s (starts generation) e = simp e refl
  stays_ended s (fails exc) e = simp e refl
  stays_ended s (answers trans text) e = simp e refl
  stays_ended s breaks e = simp e refl
  stays_ended s joins e = ground (arith, ap is_ended e)
  stays_ended s times_out e = simp e refl
  stays_ended s closes e = simp e refl
