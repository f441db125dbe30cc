-- ===== src/Events/Session.antt =====
-- A session of api/events.py: events are emitted and written in any order.
use tea_asr_service.Prelude.{
  ℕ, ◌+◌, ◌≡◌, refl, sym, ap, subst, ◌∙◌, inl, inr, Bool, true, not, Bool-cases, Option, none, some,
  List, [], ◌∷◌, ◌++◌, ==_iff, ◌==◌, length, keep, length-keep, arith, append-nil, append_assoc,
  map,
}
use tea_asr_service.Events.Types.{ends_segment}
use tea_asr_service.Events.{
  Payload, EventWriter, Sent, is_terminal, is_partial_of, check_overflow, append, replace_pending,
  discard, emit_stable, enqueue, emit, write, write_from,
}
use tea_asr_service.Events.Replace.{keep-append, count}
use tea_asr_service.Events.Pending.{HasBytes, emit-HasBytes, write-HasBytes}
use tea_asr_service.Events.Kinds.{Kind, AtMostOne, has_kind, emit-AtMostOne}
use tea_asr_service.Events.Delivery.{terminal, emit-terminal, keep-none}

-- A moment of the session: the session emits an event, or the writer's loop makes a round.
pub data Turn : Type 0 where
  emits : (now : ℕ) → Payload → Turn
  writes : (now : ℕ) → Turn

abbrev pub emitted : List Turn → List Payload
emitted [] = []
emitted (emits now p ∷ turns) = p ∷ emitted turns
emitted (writes now ∷ turns) = emitted turns

abbrev pub payloads : List Sent → List Payload
payloads = map (λ m. m.payload)

abbrev cons? : Option Sent → List Sent → List Sent
cons? none sent = sent
cons? (some m) sent = m ∷ sent

payloads-cons? :
    (m : Option Sent) (sent : List Sent)
    → payloads (cons? m sent) ≡ payloads (cons? m []) ++ payloads sent
payloads-cons? none sent = refl
payloads-cons? (some m) sent = refl

-- The event ids count up from `n`.
abbrev pub CountsFrom : ℕ → List Sent → Type 0
CountsFrom n [] = Unit
CountsFrom n (m ∷ sent) = (m.event_id ≡ n) × CountsFrom (n + 1) sent

-- If nothing left, nothing passed.
keep-same :
    (test : Payload → Bool) (xs : List Payload)
    → length (keep (λ q. not (test q)) xs) ≡ length xs
    → keep test xs ≡ []
keep-same test [] e = refl
keep-same test (x ∷ xs) e = elim (Bool-cases (test x)) [
  | inl hit ↦ ground (arith, length-keep (λ q. not (test q)) xs)
  | inr miss ↦ ground (arith, keep-same test xs)
]

module _ (size : Payload → ℕ) where
  unfoldable pub run : EventWriter → List Turn → EventWriter × List Sent
  run s [] = (s, [])
  run s (emits now p ∷ turns) = run (emit size now p s) turns
  run s (writes now ∷ turns) =
      let (s', m) = write size now s in let (s'', sent) = run s' turns in (s'', cons? m sent)

  pub record IsConsistent (s : EventWriter) : Type 0 where
    pub bytes : HasBytes size s
    pub kinds : (k : Kind) → AtMostOne k s.queue

  write-AtMostOne :
      (now : ℕ) (k : Kind) (s : EventWriter)
      → AtMostOne k s.queue
      → AtMostOne k (write size now s).0.queue
  unfolding write
  write-AtMostOne now k s h = go s.queue refl
    where
      go :
          (queue : List Payload)
          → s.queue ≡ queue
          → AtMostOne k (write_from size now s queue).0.queue
      go [] e = h
      go (p ∷ queue) e = omega (arith, h, ap (count (has_kind k)) e)

  -- Whatever is emitted and written, and whenever: the byte count stays the sum of the sizes of the
  -- queue, and at most one event waits of each coalesced type, and for each segment at most one partial
  -- and at most one open stable text.
  pub run-IsConsistent :
      (s : EventWriter) (turns : List Turn) → IsConsistent s → IsConsistent (run s turns).0
  unfolding run
  run-IsConsistent s [] v = v
  run-IsConsistent s (emits now p ∷ turns) v = run-IsConsistent (emit size now p s) turns (record {
    bytes = emit-HasBytes size now p s v.bytes;
    kinds = λ k. emit-AtMostOne size k now p s (v.kinds k);
  })
  run-IsConsistent s (writes now ∷ turns) v = run-IsConsistent (write size now s).0 turns (record {
    bytes = write-HasBytes size now s v.bytes;
    kinds = λ k. write-AtMostOne now k s (v.kinds k);
  })

  -- The writer takes the first event of the queue.
  write-queue :
      (now : ℕ) (s : EventWriter)
      → payloads (cons? (write size now s).1 []) ++ (write size now s).0.queue ≡ s.queue
  unfolding write
  write-queue now s = go s.queue refl
    where
      go :
          (queue : List Payload)
          → s.queue ≡ queue
          → payloads (cons? (write_from size now s queue).1 [])
              ++ (write_from size now s queue).0.queue
            ≡ queue
      go [] e = e
      go (p ∷ queue) e = refl

  -- No terminal event is lost, doubled or put out of order: those that were sent, and then those that
  -- still wait, are those that waited at the start, and then those that were emitted.
  pub run-terminal :
      (s : EventWriter) (turns : List Turn)
      → terminal (payloads (run s turns).1) ++ terminal (run s turns).0.queue
        ≡ terminal s.queue ++ terminal (emitted turns)
  unfolding run
  run-terminal s [] = sym (append-nil (terminal s.queue))
  run-terminal s (emits now p ∷ turns) =
      run-terminal (emit size now p s) turns
      ∙ ap (λ t. t ++ terminal (emitted turns)) (emit-terminal size now p s)
      ∙ append_assoc (terminal s.queue) (terminal (p ∷ [])) (terminal (emitted turns))
      ∙ ap (λ t. terminal s.queue ++ t) (sym (keep-append is_terminal (p ∷ []) (emitted turns)))
  run-terminal s (writes now ∷ turns) =
      let r = write size now s in
      let q = run r.0 turns in
      let out = payloads (cons? r.1 []) in
      ap (λ t. terminal t ++ terminal q.0.queue) (payloads-cons? r.1 q.1)
      ∙ ap (λ t. t ++ terminal q.0.queue) (keep-append is_terminal out (payloads q.1))
      ∙ append_assoc (terminal out) (terminal (payloads q.1)) (terminal q.0.queue)
      ∙ ap (λ t. terminal out ++ t) (run-terminal r.0 turns)
      ∙ sym (append_assoc (terminal out) (terminal r.0.queue) (terminal (emitted turns)))
      ∙ ap (λ t. t ++ terminal (emitted turns))
          (sym (keep-append is_terminal out r.0.queue) ∙ ap terminal (write-queue now s))

  emit_keeps_id :
      (now : ℕ) (p : Payload) (s : EventWriter)
      → (emit size now p s).next_event_id ≡ s.next_event_id
  unfolding emit emit_stable replace_pending append discard check_overflow
  emit_keeps_id now p s = ground arith

  write-CountsFrom :
      (now : ℕ) (s : EventWriter) (sent : List Sent)
      → CountsFrom (write size now s).0.next_event_id sent
      → CountsFrom s.next_event_id (cons? (write size now s).1 sent)
        × ((write size now s).0.next_event_id + length sent
            ≡ s.next_event_id + length (cons? (write size now s).1 sent))
  unfolding write
  write-CountsFrom now s sent = go s.queue
    where
      go :
          (queue : List Payload)
          → CountsFrom (write_from size now s queue).0.next_event_id sent
          → CountsFrom s.next_event_id (cons? (write_from size now s queue).1 sent)
            × ((write_from size now s queue).0.next_event_id + length sent
                ≡ s.next_event_id + length (cons? (write_from size now s queue).1 sent))
      go [] h = (h, refl)
      go (p ∷ queue) h = ((refl, h), omega arith)

  -- Whatever is emitted and written, and whenever: the events that are sent are numbered without a gap
  -- from the next event id on, which is then past them by their number.
  pub run-CountsFrom :
      (s : EventWriter) (turns : List Turn)
      → CountsFrom s.next_event_id (run s turns).1
        × ((run s turns).0.next_event_id ≡ s.next_event_id + length (run s turns).1)
  unfolding run
  run-CountsFrom s [] = (tt, omega arith)
  run-CountsFrom s (emits now p ∷ turns) =
      let s' = emit size now p s in
      subst
        (λ n.
          CountsFrom n (run s' turns).1
          × ((run s' turns).0.next_event_id ≡ n + length (run s' turns).1))
        (emit_keeps_id now p s) (run-CountsFrom s' turns)
  run-CountsFrom s (writes now ∷ turns) =
      let s' = (write size now s).0 in
      let rest = run-CountsFrom s' turns in
      let this = write-CountsFrom now s (run s' turns).1 rest.0 in
      (this.0, omega (arith, rest.1, this.1))

  discard-none :
      (test : Payload → Bool) (s : EventWriter) → keep test (discard size test s).queue ≡ []
  unfolding discard
  discard-none test s =
      elim (Bool-cases (length (keep (λ q. not (test q)) s.queue) == length s.queue)) [
        | inl same ↦ simp same (keep-same test s.queue ((==_iff _ _).0 same))
        | inr fewer ↦ simp fewer (keep-none test s.queue)
      ]

  -- Once a final, skipped or failed event of a segment is emitted, no partial of that segment waits.
  pub emit-no_partial :
      (now : ℕ) (p : Payload) (s : EventWriter)
      → ends_segment p.type ≡ true
      → keep (is_partial_of p.segment_id) (emit size now p s).queue ≡ []
  unfolding emit
  emit-no_partial now p s ends =
      simp ends (discard-none (is_partial_of p.segment_id) (enqueue size now p s))
