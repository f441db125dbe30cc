-- ===== src/Translation/Translator/Queueing.antt =====
-- What the translator of translation/session.py keeps true of its queue and of its task.
use tea_asr_service.Prelude.{
  if◌then◌else◌, ℕ, ◌+◌, ◌-◌, ◌≤◌, ◌<◌, ◌≡◌, refl, subst, ap, ◌∙◌, inl, inr, Bool, true, false, not,
  ◌&&◌, ◌||◌, Bool-cases, Option, none, some, List, [], ◌∷◌, ◌++◌, length, length-append, ltb, leb,
  arith,
}
use tea_asr_service.Translation.Translator.{
  Final, ApiError, SessionTranslator, Phase, idle, starting, calling, ended, ids_of, is_empty,
  is_some, same_generation, is_full, submit, ensure_session, take_batch, wake_in, wake, start_in,
  session_started, is_fatal, fail_batch, fail_in, failed,
}
use tea_asr_service.Translation.Translator.Turns.{batch_of}

abbrev pub is_ended : Phase → Bool
is_ended idle = false
is_ended (starting batch ids) = false
is_ended (calling batch ids) = false
is_ended ended = true

abbrev pub ids_in : Phase → List ℕ
ids_in idle = []
ids_in (starting batch ids) = ids
ids_in (calling batch ids) = ids
ids_in ended = []

-- The ids that a call would report: those of its batch, after those carried. A batch is not empty. `translate` is called
-- in a session of the worker only.
abbrev pub Holds : Option ℕ → List ℕ → Phase → Type 0
Holds generation carried idle = Unit
Holds generation carried (starting batch ids) =
    (0 < length batch) × (carried ≡ []) × (before : List ℕ) × (ids ≡ before ++ ids_of batch)
Holds generation carried (calling batch ids) =
    (0 < length batch) × (is_some generation ≡ true) × (ids ≡ carried ++ ids_of batch)
Holds generation carried ended = Unit

pub record IsSound (s : SessionTranslator) : Type 0 where
  pub bounded : 0 < s.max_pending → length s.queue ≤ s.max_pending
  pub fresh : is_some s.generation ≡ false → s.carried ≡ []
  pub going : is_ended s.phase ≡ false → s.stopped ≡ false
  pub emitting : is_ended s.phase ≡ false → s.closed ≡ false
  pub joined : s.unfinished ≡ length s.queue + length (batch_of s.phase)
  pub held : s.inflight ≡ ids_in s.phase
  pub holds : Holds s.generation s.carried s.phase

pub is_empty-nil : (xs : List ℕ) → is_empty xs ≡ true → xs ≡ []
is_empty-nil [] e = refl
is_empty-nil (x ∷ xs) e = cc

pub submit-IsSound :
    (segment_id : ℕ) (text : List ℕ) (s : SessionTranslator)
    → IsSound s
    → IsSound (submit segment_id text s).0
unfolding submit is_full
submit-IsSound segment_id text s v = elim (Bool-cases (s.closed || s.stopped)) [
  | inl over ↦ rw over v
  | inr open' ↦ elim (Bool-cases (ltb 0 s.max_pending && leb s.max_pending (length s.queue))) [
    | inl full ↦ rw (open', full) v
    | inr room ↦
        let longer =
          length-append {0} s.queue (record { segment_id = segment_id; text = text } ∷ []) in
        rw (open', room)
          (record {
            bounded = λ h. ground (arith, h, room, longer);
            fresh = v.fresh;
            going = v.going;
            emitting = v.emitting;
            joined = omega (arith, v.joined, longer);
            held = v.held;
            holds = v.holds;
          })
  ]
]

-- From one place of the task to another: the queue was taken, or the batch is done with.
pub moved-IsSound :
    (s : SessionTranslator) (queue : List Final) (ph : Phase) (generation : Option ℕ)
    (carried : List ℕ) (unfinished : ℕ)
    → IsSound s
    → is_ended s.phase ≡ false
    → length queue ≤ length s.queue
    → unfinished ≡ length queue + length (batch_of ph)
    → (is_some generation ≡ false → carried ≡ [])
    → Holds generation carried ph
    → IsSound (record s {
      queue = queue;
      unfinished = unfinished;
      phase = ph;
      generation = generation;
      carried = carried;
      inflight = ids_in ph;
    })
moved-IsSound s queue ph generation carried unfinished v e le n f h = record {
  bounded = λ c. omega (arith, v.bounded c, le);
  fresh = f;
  going = λ _. v.going e;
  emitting = λ _. v.emitting e;
  joined = n;
  held = refl;
  holds = h;
}

pub same_generation-is_some : (o : Option ℕ) (g : ℕ) → same_generation o g ≡ true → is_some o ≡ true
same_generation-is_some none g e = cc
same_generation-is_some (some h) g e = refl

-- Nothing is carried when nothing is reported as lost.
pub carried_clean :
    (s : SessionTranslator)
    → IsSound s
    → (is_some s.generation && not (is_empty s.carried)) ≡ false
    → s.carried ≡ []
carried_clean s v e = elim (Bool-cases (is_some s.generation)) [
  | inl has ↦ is_empty-nil s.carried (ground (arith, has, e))
  | inr new ↦ v.fresh new
]

take_batch-IsSound :
    (provider : ℕ) (s : SessionTranslator) (queue : List Final)
    → IsSound s
    → is_ended s.phase ≡ false
    → s.unfinished ≡ length queue
    → IsSound (take_batch provider s queue).0
unfolding take_batch ensure_session
take_batch-IsSound provider s [] v e n = v
take_batch-IsSound provider s (item ∷ items) v e n =
    let batch = item ∷ items in
    let ids = s.carried ++ ids_of batch in
    let none_left : s.unfinished ≡ 0 + length batch = omega (arith, n) in
    elim (Bool-cases (same_generation s.generation provider)) [
      | inl same ↦ simp same (
          moved-IsSound s [] (calling batch ids) s.generation s.carried s.unfinished v e
            (omega arith) none_left v.fresh
            (omega arith, same_generation-is_some s.generation provider same, refl))
      | inr stale ↦ elim (Bool-cases (is_some s.generation && not (is_empty s.carried))) [
        | inl lost ↦
            simp (stale, lost)
              (moved-IsSound s [] (starting batch ids) s.generation [] s.unfinished v e
                (omega arith) none_left (λ _. refl) (omega arith, refl, s.carried, refl))
        | inr clean ↦
            simp (stale, clean)
              (moved-IsSound s [] (starting batch ids) s.generation s.carried s.unfinished v e
                (omega arith) none_left v.fresh
                (omega arith, carried_clean s v clean, s.carried, refl))
      ]
    ]

wake_in-IsSound :
    (provider : ℕ) (s : SessionTranslator) (ph : Phase)
    → IsSound s
    → s.phase ≡ ph
    → IsSound (wake_in provider s ph).0
unfolding wake_in
wake_in-IsSound provider s idle v e =
    take_batch-IsSound provider s s.queue v (ap is_ended e)
      (omega (arith, v.joined, ap (λ ph. length (batch_of ph)) e))
wake_in-IsSound provider s (starting batch ids) v e = v
wake_in-IsSound provider s (calling batch ids) v e = v
wake_in-IsSound provider s ended v e = v

start_in-IsSound :
    (g : ℕ) (s : SessionTranslator) (ph : Phase)
    → IsSound s
    → s.phase ≡ ph
    → IsSound (start_in g s ph).0
unfolding start_in
start_in-IsSound g s idle v e = v
start_in-IsSound g s (starting batch ids) v e =
    moved-IsSound s s.queue (calling batch (s.carried ++ ids_of batch)) (some g) s.carried
      s.unfinished v (ap is_ended e) (omega arith)
      (v.joined ∙ ap (λ ph. length s.queue + length (batch_of ph)) e) (λ h. cc)
      ((subst (Holds s.generation s.carried) e v.holds).0, refl, refl)
start_in-IsSound g s (calling batch ids) v e = v
start_in-IsSound g s ended v e = v

fail_batch-IsSound :
    (exc : ApiError) (batch : List Final) (ids : List ℕ) (s : SessionTranslator)
    → IsSound s
    → is_ended s.phase ≡ false
    → batch_of s.phase ≡ batch
    → IsSound (fail_batch exc batch ids s).0
unfolding fail_batch
fail_batch-IsSound exc batch ids s v e b =
    let same = ap (λ (items : List Final). length items) b in
    let n = v.joined in
    elim (Bool-cases (is_fatal exc)) [
      | inl fatal ↦ simp fatal (record {
        bounded = λ h. omega arith;
        fresh = λ _. refl;
        going = λ h. cc;
        emitting = λ h. cc;
        joined = omega (arith, n, same);
        held = refl;
        holds = tt;
      })
      | inr passing ↦ simp passing (
          moved-IsSound s s.queue idle (if is_empty s.carried then s.generation else none) []
            (s.unfinished - length batch) v e (omega arith) (omega (arith, n, same)) (λ _. refl) tt)
    ]

fail_in-IsSound :
    (exc : ApiError) (s : SessionTranslator) (ph : Phase)
    → IsSound s
    → s.phase ≡ ph
    → IsSound (fail_in exc s ph).0
unfolding fail_in
fail_in-IsSound exc s idle v e = v
fail_in-IsSound exc s (starting batch ids) v e =
    fail_batch-IsSound exc batch ids s v (ap is_ended e) (ap batch_of e)
fail_in-IsSound exc s (calling batch ids) v e =
    fail_batch-IsSound exc batch ids s v (ap is_ended e) (ap batch_of e)
fail_in-IsSound exc s ended v e = v

pub wake-IsSound : (provider : ℕ) (s : SessionTranslator) → IsSound s → IsSound (wake provider s).0
unfolding wake
wake-IsSound provider s v = wake_in-IsSound provider s s.phase v refl

pub session_started-IsSound :
    (g : ℕ) (s : SessionTranslator) → IsSound s → IsSound (session_started g s).0
unfolding session_started
session_started-IsSound g s v = start_in-IsSound g s s.phase v refl

pub failed-IsSound : (exc : ApiError) (s : SessionTranslator) → IsSound s → IsSound (failed exc s).0
unfolding failed
failed-IsSound exc s v = fail_in-IsSound exc s s.phase v refl
