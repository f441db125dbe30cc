-- ===== src/Events/Delivery.antt =====
-- The terminal events in the queue of api/events.py, through each of its operations.
use tea_asr_service.Prelude.{
  ℕ, ◌≡◌, refl, sym, ap, ◌∙◌, inl, inr, Bool, true, false, not, Bool-cases, List, [], ◌∷◌, ◌++◌,
  keep, arith, append-nil,
}
use tea_asr_service.Events.Types.{
  EventType, transcript_partial, transcript_stable, same_type, same_type→≡, same_type_refl,
  is_terminal_type, is_coalesced, is_coalesced-not_terminal, ends_segment,
}
use tea_asr_service.Events.{
  Payload, EventWriter, is_terminal, is_partial_of, is_open_stable_of, check_overflow, append,
  replace_pending, discard, emit_stable, enqueue, emit,
}
use tea_asr_service.Events.Replace.{keep-append}
use tea_asr_service.Events.Pending.{replace_pending_ind}

-- The terminal events among those given, in their order.
abbrev pub terminal : List Payload → List Payload
terminal = keep is_terminal

-- A test that no terminal event passes.
abbrev Spares : (Payload → Bool) → Type 0
Spares test = (q : Payload) → test q ≡ true → is_terminal q ≡ false

terminal-skip :
    (before after : List Payload) (q : Payload)
    → is_terminal q ≡ false
    → terminal (before ++ q ∷ after) ≡ terminal before ++ terminal after
terminal-skip before after q h = keep-append is_terminal before (q ∷ after) ∙ ground arith

terminal-spared :
    (test : Payload → Bool) (queue : List Payload)
    → Spares test
    → terminal (keep (λ q. not (test q)) queue) ≡ terminal queue
terminal-spared test [] h = refl
terminal-spared test (q ∷ queue) h = elim (Bool-cases (test q)) [
  | inl hit ↦ ground (arith, hit, h q hit, terminal-spared test queue h)
  | inr miss ↦ ground (arith, miss, terminal-spared test queue h)
]

partial-Spares : (segment : ℕ) → Spares (is_partial_of segment)
unfolding is_terminal is_partial_of
partial-Spares segment q h =
    unfold is_terminal_type in ground (arith, same_type→≡ q.type transcript_partial)

open_stable-Spares : (segment : ℕ) → Spares (is_open_stable_of segment)
unfolding is_terminal is_open_stable_of
open_stable-Spares segment q h = ground arith

coalesced-Spares : (t : EventType) → is_coalesced t ≡ true → Spares (λ q. same_type q.type t)
unfolding is_terminal
coalesced-Spares t c q h = ground (arith, same_type→≡ q.type t h, is_coalesced-not_terminal t c)

module _ (size : Payload → ℕ) where
  append-terminal :
      (now : ℕ) (p : Payload) (s : EventWriter)
      → terminal (append size now p s).queue ≡ terminal s.queue ++ terminal (p ∷ [])
  unfolding append check_overflow
  append-terminal now p s = keep-append is_terminal s.queue (p ∷ [])

  replace_pending-terminal :
      (test : Payload → Bool) (now : ℕ) (p : Payload) (s : EventWriter)
      → Spares test
      → is_terminal p ≡ false
      → terminal (replace_pending size test now p s).queue ≡ terminal s.queue ++ terminal (p ∷ [])
  replace_pending-terminal test now p s h np =
      replace_pending_ind size
        (λ queue bytes. terminal queue ≡ terminal s.queue ++ terminal (p ∷ [])) test now p s
        (λ _. keep-append is_terminal s.queue (p ∷ []))
        (λ before after old e hit.
          let same : terminal s.queue ≡ terminal before ++ terminal after =
            ap terminal e ∙ terminal-skip before after old (h old hit) in
          let none' : terminal (p ∷ []) ≡ [] = ground (arith, np) in
          terminal-skip before after p np
          ∙ sym same
          ∙ sym (append-nil (terminal s.queue))
          ∙ ap (λ t. terminal s.queue ++ t) (sym none'))

  discard-terminal :
      (test : Payload → Bool) (s : EventWriter)
      → Spares test
      → terminal (discard size test s).queue ≡ terminal s.queue
  unfolding discard
  discard-terminal test s h = ground (arith, terminal-spared test s.queue h)

  emit_stable-terminal :
      (now : ℕ) (p : Payload) (s : EventWriter)
      → same_type p.type transcript_stable ≡ true
      → terminal (emit_stable size now p s).queue ≡ terminal s.queue ++ terminal (p ∷ [])
  unfolding emit_stable
  emit_stable-terminal now p s stable = elim (Bool-cases p.is_open) [
    | inl open' ↦ simp open' (
        replace_pending-terminal (is_open_stable_of p.segment_id) now p s
          (open_stable-Spares p.segment_id) (unfold is_terminal in ground arith))
    | inr closing ↦ simp closing (
        append-terminal now p (discard size (is_open_stable_of p.segment_id) s)
        ∙ ap (λ t. t ++ terminal (p ∷ []))
            (discard-terminal (is_open_stable_of p.segment_id) s (open_stable-Spares p.segment_id)))
  ]

  enqueue-terminal :
      (now : ℕ) (p : Payload) (s : EventWriter)
      → terminal (enqueue size now p s).queue ≡ terminal s.queue ++ terminal (p ∷ [])
  unfolding enqueue
  enqueue-terminal now p s = elim (Bool-cases (is_coalesced p.type)) [
    | inl merges ↦ simp merges (
        replace_pending-terminal (λ q. same_type q.type p.type) now p s
          (coalesced-Spares p.type merges)
          (coalesced-Spares p.type merges p (same_type_refl p.type)))
    | inr apart ↦ elim (Bool-cases (same_type p.type transcript_partial)) [
      | inl partial ↦
          simp (apart, partial)
            (replace_pending-terminal (is_partial_of p.segment_id) now p s
              (partial-Spares p.segment_id)
              (unfold is_terminal is_terminal_type in
                ground (arith, same_type→≡ p.type transcript_partial partial)))
      | inr whole ↦ elim (Bool-cases (same_type p.type transcript_stable)) [
        | inl stable ↦ simp (apart, whole, stable) (emit_stable-terminal now p s stable)
        | inr other ↦ simp (apart, whole, other) (append-terminal now p s)
      ]
    ]
  ]

  -- Whatever is emitted, the terminal events that wait stay, in their order, and a new terminal event
  -- goes behind them; any other event leaves them as they are.
  pub emit-terminal :
      (now : ℕ) (p : Payload) (s : EventWriter)
      → terminal (emit size now p s).queue ≡ terminal s.queue ++ terminal (p ∷ [])
  unfolding emit
  emit-terminal now p s = elim (Bool-cases (ends_segment p.type)) [
    | inl ends ↦ simp ends (
        discard-terminal (is_partial_of p.segment_id) (enqueue size now p s)
          (partial-Spares p.segment_id)
        ∙ enqueue-terminal now p s)
    | inr goes_on ↦ simp goes_on (enqueue-terminal now p s)
  ]

-- After a final, skipped or failed segment none of its partials waits.
pub keep-none :
    (test : Payload → Bool) (queue : List Payload) → keep test (keep (λ q. not (test q)) queue) ≡ []
keep-none test [] = refl
keep-none test (q ∷ queue) = ground (arith, keep-none test queue)
