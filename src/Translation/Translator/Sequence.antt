-- ===== src/Translation/Translator/Sequence.antt =====
-- The segments in each step of translation/session.py, in their order.
use mathlib.Core.List.{Sublist}
use mathlib.Core.List.{nil-sublist}
use mathlib.Core.List.Sublist
use tea_asr_service.Prelude.{
  ℕ, ◌≡◌, refl, sym, subst, ap, ◌∙◌, inl, inr, Bool, true, false, not, ◌&&◌, Bool-cases, List, [],
  ◌∷◌, ◌++◌, if◌then◌else◌, append-nil, append_assoc, map,
}
use tea_asr_service.Translation.Translator.{
  Final, ApiError, Event, segment, failure, SessionTranslator, Phase, idle, starting, calling,
  ended, Acted, ids_of, is_empty, is_some, same_generation, ensure_session, take_batch, wake_in,
  start_in, is_fatal, fail_batch, fail_in, take_response, answer_in, drain_queue, cancel_in,
  cancel_task, drain_joined, drain_timeout, report,
}
use tea_asr_service.Translation.Translator.Turns.{translated, batch_of, pending}
use tea_asr_service.Translation.Translator.Queueing.{IsSound, Holds}

pub map-append :
    {A : Type 0} {B : Type 0} (f : A → B) (xs ys : List A) → map f (xs ++ ys) ≡ map f xs ++ map f ys
map-append f [] ys = refl
map-append f (x ∷ xs) ys = ap (λ t. f x ∷ t) (map-append f xs ys)

pub translated-append :
    (xs ys : List Event) → translated (xs ++ ys) ≡ translated xs ++ translated ys
translated-append [] ys = refl
translated-append (segment n ids text ∷ xs) ys =
    ap (λ t. ids ++ t) (translated-append xs ys)
    ∙ sym (append_assoc ids (translated xs) (translated ys))
translated-append (failure exc ids stopped ∷ xs) ys = translated-append xs ys

pub translated-report :
    (exc : ApiError) (ids : List ℕ) (stopped : Bool) (s : SessionTranslator)
    → translated (report exc ids stopped s) ≡ []
translated-report exc ids stopped s = elim (Bool-cases s.closed) [
  | inl over ↦ simp over refl
  | inr on ↦ simp on refl
]

-- Those translated and then those still pending are among those that were pending, in their order.
abbrev pub Among : SessionTranslator → Acted → Type 0
Among s r = Sublist (translated r.1 ++ pending r.0) (pending s)

pub parts :
    {x y z c b q : List ℕ}
    → Sublist x c
    → Sublist y b
    → Sublist z q
    → Sublist (x ++ y ++ z) (c ++ b ++ q)
parts f g h = Sublist.append (Sublist.append f g) h

pub all : (xs : List ℕ) → Sublist xs xs
all = Sublist.refl

ensure_session-Among :
    (provider : ℕ) (batch : List Final) (s : SessionTranslator)
    → Sublist
        (translated
            (ensure_session provider batch (s.carried ++ ids_of batch) (record s { queue = [] })).1
          ++ pending
              (ensure_session provider batch
                (s.carried ++ ids_of batch)
                (record s { queue = [] })).0)
        (s.carried ++ ids_of batch)
unfolding ensure_session
ensure_session-Among provider batch s = elim (Bool-cases (same_generation s.generation provider)) [
  | inl same ↦
      simp same (rw (append-nil (s.carried ++ ids_of batch)) (all (s.carried ++ ids_of batch)))
  | inr stale ↦ elim (Bool-cases (is_some s.generation && not (is_empty s.carried))) [
    | inl lost ↦
        simp
          (
            stale,
            lost,
            translated-report (record { code = "translation_failed"; retryable = false }) s.carried
                false s,
          )
          (rw (append-nil (ids_of batch))
            (Sublist.append (nil-sublist s.carried) (all (ids_of batch))))
    | inr clean ↦
        simp (stale, clean)
          (rw (append-nil (s.carried ++ ids_of batch)) (all (s.carried ++ ids_of batch)))
  ]
]

take_batch-Among :
    (provider : ℕ) (s : SessionTranslator) (queue : List Final)
    → s.phase ≡ idle
    → s.queue ≡ queue
    → Among s (take_batch provider s queue)
unfolding take_batch
take_batch-Among provider s [] e q = all (pending s)
take_batch-Among provider s (item ∷ items) e q =
    rw (e, q, append-nil s.carried) (ensure_session-Among provider (item ∷ items) s)

pub wake_in-Among :
    (provider : ℕ) (s : SessionTranslator) (ph : Phase)
    → s.phase ≡ ph
    → Among s (wake_in provider s ph)
unfolding wake_in
wake_in-Among provider s idle e = take_batch-Among provider s s.queue e refl
wake_in-Among provider s (starting batch ids) e = all (pending s)
wake_in-Among provider s (calling batch ids) e = all (pending s)
wake_in-Among provider s ended e = all (pending s)

pub start_in-Among :
    (g : ℕ) (s : SessionTranslator) (ph : Phase) → s.phase ≡ ph → Among s (start_in g s ph)
unfolding start_in
start_in-Among g s idle e = all (pending s)
start_in-Among g s (starting batch ids) e = rw e (all _)
start_in-Among g s (calling batch ids) e = all (pending s)
start_in-Among g s ended e = all (pending s)

fail_batch-Among :
    (exc : ApiError) (batch : List Final) (ids : List ℕ) (s : SessionTranslator)
    → Among s (fail_batch exc batch ids s)
unfolding fail_batch
fail_batch-Among exc batch ids s =
    let nothing = translated-report exc ids (is_fatal exc) s in
    elim (Bool-cases (is_fatal exc)) [
      | inl fatal ↦ simp (translated-report exc ids true s, fatal) (nil-sublist (pending s))
      | inr passing ↦
          simp (translated-report exc ids false s, passing)
            (parts (nil-sublist s.carried) (nil-sublist (ids_of (batch_of s.phase)))
              (all (ids_of s.queue)))
    ]

pub fail_in-Among :
    (exc : ApiError) (s : SessionTranslator) (ph : Phase) → Among s (fail_in exc s ph)
unfolding fail_in
fail_in-Among exc s idle = all (pending s)
fail_in-Among exc s (starting batch ids) = fail_batch-Among exc batch ids s
fail_in-Among exc s (calling batch ids) = fail_batch-Among exc batch ids s
fail_in-Among exc s ended = all (pending s)

take_response-Among :
    (trans : Bool) (text : List ℕ) (batch : List Final) (ids : List ℕ) (s : SessionTranslator)
    → s.phase ≡ calling batch ids
    → ids ≡ s.carried ++ ids_of batch
    → Among s (take_response trans text batch ids s)
unfolding take_response
take_response-Among trans text batch ids s e h =
    let here : Sublist (ids ++ ids_of s.queue) (s.carried ++ ids_of batch ++ ids_of s.queue) =
      rw h (all _) in
    elim (Bool-cases trans) [
      | inl yes' ↦ elim (Bool-cases s.closed) [
        | inl over ↦
            simp (yes', over)
              (parts (nil-sublist s.carried) (nil-sublist (ids_of (batch_of s.phase)))
                (all (ids_of s.queue)))
        | inr on ↦ simp (yes', on, e) (rw (append-nil ids) here)
      ]
      | inr wait ↦ simp (wait, e) (rw (append-nil ids) here)
    ]

pub answer_in-Among :
    (trans : Bool) (text : List ℕ) (s : SessionTranslator) (ph : Phase)
    → IsSound s
    → s.phase ≡ ph
    → Among s (answer_in trans text s ph)
unfolding answer_in
answer_in-Among trans text s idle v e = all (pending s)
answer_in-Among trans text s (starting batch ids) v e = all (pending s)
answer_in-Among trans text s (calling batch ids) v e =
    take_response-Among trans text batch ids s e (subst (Holds s.generation s.carried) e v.holds).2
answer_in-Among trans text s ended v e = all (pending s)

cancel_in-Among : (s : SessionTranslator) (ph : Phase) → s.phase ≡ ph → Among s (cancel_in s ph, [])
unfolding cancel_in
cancel_in-Among s idle e = parts (all s.carried) (nil-sublist _) (all (ids_of s.queue))
cancel_in-Among s (starting batch ids) e =
    parts (all s.carried) (nil-sublist _) (all (ids_of s.queue))
cancel_in-Among s (calling batch ids) e =
    parts (all s.carried) (nil-sublist _) (all (ids_of s.queue))
cancel_in-Among s ended e = all (pending s)

pub cancel_task-Among : (s : SessionTranslator) → Among s (cancel_task s, [])
unfolding cancel_task
cancel_task-Among s = cancel_in-Among s s.phase refl

pub drain_joined-Among : (s : SessionTranslator) → Among s (drain_joined s)
unfolding drain_joined
drain_joined-Among s = elim (Bool-cases (is_empty s.carried)) [
  | inl clean ↦ simp clean (all (pending s))
  | inr lost ↦
      simp
        (
          lost,
          translated-report (record { code = "translation_failed"; retryable = false }) s.carried
              false s,
        )
        (parts (nil-sublist s.carried) (all _) (all (ids_of s.queue)))
]

pub drain_timeout-Among : (s : SessionTranslator) → Among s (drain_timeout s)
unfolding drain_timeout
drain_timeout-Among s =
    rw
      (translated-report (record { code = "translation_timeout"; retryable = false })
        ((if is_empty s.inflight then s.carried else s.inflight) ++ ids_of s.queue) true s)
      (Sublist.trans (cancel_task-Among (drain_queue s))
        (parts (all s.carried) (all _) (nil-sublist (ids_of s.queue))))
