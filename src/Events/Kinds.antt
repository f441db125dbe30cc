-- ===== src/Events/Kinds.antt =====
-- The waiting events of each kind in the queue of api/events.py, counted through its operations.
use tea_asr_service.Prelude.{
  ℕ, ◌≤◌, ◌≡◌, sym, ap, ◌∙◌, ◌⊎◌, inl, inr, Bool, true, false, not, Bool-cases, List, [], ◌∷◌, ◌==◌,
  ==_iff, arith,
}
use tea_asr_service.Events.Types.{
  EventType, transcript_partial, transcript_stable, same_type, same_type→≡, is_coalesced,
  ends_segment,
}
use tea_asr_service.Events.{
  Payload, EventWriter, is_partial_of, is_open_stable_of, check_overflow, append, replace_pending,
  discard, emit_stable, enqueue, emit,
}
use tea_asr_service.Events.Replace.{count, count-append, count-keep}
use tea_asr_service.Events.Pending.{replace_pending_ind}

-- The events of which at most one may wait: one of each coalesced type, and for each segment one
-- partial and one open stable text.
pub data Kind : Type 0 where
  of_type : (t : EventType) → is_coalesced t ≡ true → Kind
  partial_of stable_of : (segment : ℕ) → Kind

abbrev pub has_kind : Kind → Payload → Bool
has_kind (of_type t _) q = same_type q.type t
has_kind (partial_of segment) q = is_partial_of segment q
has_kind (stable_of segment) q = is_open_stable_of segment q

abbrev pub AtMostOne : Kind → List Payload → Type 0
AtMostOne k queue = count (has_kind k) queue ≤ 1

module _ (size : Payload → ℕ) (k : Kind) where
  replace_pending-AtMostOne :
      (test : Payload → Bool) (now : ℕ) (p : Payload) (s : EventWriter)
      → ((has_kind k p ≡ false) ⊎ (has_kind k ≡ test))
      → AtMostOne k s.queue
      → AtMostOne k (replace_pending size test now p s).queue
  replace_pending-AtMostOne test now p s (inl apart) h =
      replace_pending_ind size (λ queue bytes. AtMostOne k queue) test now p s
        (λ _. ground (arith, count-append (has_kind k) s.queue (p ∷ [])))
        (λ before after old e _. ground (
          arith,
          ap (count (has_kind k)) e,
          count-append (has_kind k) before (old ∷ after),
          count-append (has_kind k) before (p ∷ after),
        ))
  replace_pending-AtMostOne test now p s (inr same) h =
      replace_pending_ind size (λ queue bytes. AtMostOne k queue) test now p s
        (λ none'. ground (
          arith,
          count-append (has_kind k) s.queue (p ∷ []),
          ap (λ (t : Payload → Bool). count t s.queue) same,
        ))
        (λ before after old e hit. ground (
          arith,
          ap (count (has_kind k)) e,
          ap (λ (t : Payload → Bool). t old) same,
          count-append (has_kind k) before (old ∷ after),
          count-append (has_kind k) before (p ∷ after),
        ))

  append-AtMostOne :
      (now : ℕ) (p : Payload) (s : EventWriter)
      → has_kind k p ≡ false
      → AtMostOne k s.queue
      → AtMostOne k (append size now p s).queue
  unfolding append check_overflow
  append-AtMostOne now p s apart h = ground (arith, count-append (has_kind k) s.queue (p ∷ []))

  discard-AtMostOne :
      (test : Payload → Bool) (s : EventWriter)
      → AtMostOne k s.queue
      → AtMostOne k (discard size test s).queue
  unfolding discard
  discard-AtMostOne test s h = ground (arith, count-keep (has_kind k) (λ q. not (test q)) s.queue)

-- How a kind meets the kind of a new event.
coalesced_kind :
    (k : Kind) (p : Payload)
    → is_coalesced p.type ≡ true
    → (has_kind k p ≡ false) ⊎ (has_kind k ≡ λ q. same_type q.type p.type)
unfolding is_partial_of is_open_stable_of
coalesced_kind (of_type t c) p h = elim (Bool-cases (same_type p.type t)) [
  | inl same ↦ inr (rw (same_type→≡ p.type t same))
  | inr other ↦ inl other
]
coalesced_kind (partial_of segment) p h =
    inl (unfold is_coalesced in ground (arith, same_type→≡ p.type transcript_partial))
coalesced_kind (stable_of segment) p h =
    inl (unfold is_coalesced in ground (arith, same_type→≡ p.type transcript_stable))

partial_kind :
    (k : Kind) (p : Payload)
    → same_type p.type transcript_partial ≡ true
    → (has_kind k p ≡ false) ⊎ (has_kind k ≡ is_partial_of p.segment_id)
unfolding is_partial_of is_open_stable_of
partial_kind (of_type t c) p h = inl (elim (Bool-cases (same_type p.type t)) [
  | inl same ↦
      let e : t ≡ transcript_partial =
        sym (same_type→≡ p.type t same) ∙ same_type→≡ p.type transcript_partial h in
      unfold is_coalesced in cc (rw e at c)
  | inr other ↦ other
])
partial_kind (partial_of segment) p h = elim (Bool-cases (p.segment_id == segment)) [
  | inl same ↦ inr (rw ((==_iff p.segment_id segment).0 same))
  | inr other ↦ inl (ground arith)
]
partial_kind (stable_of segment) p h =
    inl (unfold same_type in ground (arith, same_type→≡ p.type transcript_partial))

open_stable_kind :
    (k : Kind) (p : Payload)
    → same_type p.type transcript_stable ≡ true
    → (has_kind k p ≡ false) ⊎ (has_kind k ≡ is_open_stable_of p.segment_id)
unfolding is_partial_of is_open_stable_of
open_stable_kind (of_type t c) p h = inl (elim (Bool-cases (same_type p.type t)) [
  | inl same ↦
      let e : t ≡ transcript_stable =
        sym (same_type→≡ p.type t same) ∙ same_type→≡ p.type transcript_stable h in
      unfold is_coalesced in cc (rw e at c)
  | inr other ↦ other
])
open_stable_kind (partial_of segment) p h =
    inl (unfold same_type in ground (arith, same_type→≡ p.type transcript_stable))
open_stable_kind (stable_of segment) p h = elim (Bool-cases (p.segment_id == segment)) [
  | inl same ↦ inr (rw ((==_iff p.segment_id segment).0 same))
  | inr other ↦ inl (ground arith)
]

-- A closing stable event, and an event that is neither coalesced, partial nor stable, has no kind.
closing_kind :
    (k : Kind) (p : Payload)
    → same_type p.type transcript_stable ≡ true
    → p.is_open ≡ false
    → has_kind k p ≡ false
unfolding is_partial_of is_open_stable_of
closing_kind k p h c = elim (open_stable_kind k p h) [
  | inl apart ↦ apart
  | inr same ↦ ap (λ (t : Payload → Bool). t p) same ∙ unfold is_open_stable_of in ground arith
]

other_kind :
    (k : Kind) (p : Payload)
    → is_coalesced p.type ≡ false
    → same_type p.type transcript_partial ≡ false
    → same_type p.type transcript_stable ≡ false
    → has_kind k p ≡ false
unfolding is_partial_of is_open_stable_of
other_kind (of_type t c) p h1 h2 h3 = elim (Bool-cases (same_type p.type t)) [
  | inl same ↦ cc (ap is_coalesced (same_type→≡ p.type t same))
  | inr other ↦ other
]
other_kind (partial_of segment) p h1 h2 h3 = ground arith
other_kind (stable_of segment) p h1 h2 h3 = ground arith

module _ (size : Payload → ℕ) (k : Kind) where
  emit_stable-AtMostOne :
      (now : ℕ) (p : Payload) (s : EventWriter)
      → same_type p.type transcript_stable ≡ true
      → AtMostOne k s.queue
      → AtMostOne k (emit_stable size now p s).queue
  unfolding emit_stable
  emit_stable-AtMostOne now p s stable h = elim (Bool-cases p.is_open) [
    | inl open' ↦ simp open' (
        replace_pending-AtMostOne size k (is_open_stable_of p.segment_id) now p s
          (open_stable_kind k p stable) h)
    | inr closing ↦ simp closing (
        append-AtMostOne size k now p _ (closing_kind k p stable closing)
          (discard-AtMostOne size k (is_open_stable_of p.segment_id) s h))
  ]

  enqueue-AtMostOne :
      (now : ℕ) (p : Payload) (s : EventWriter)
      → AtMostOne k s.queue
      → AtMostOne k (enqueue size now p s).queue
  unfolding enqueue
  enqueue-AtMostOne now p s h = elim (Bool-cases (is_coalesced p.type)) [
    | inl merges ↦ simp merges (
        replace_pending-AtMostOne size k (λ q. same_type q.type p.type) now p s
          (coalesced_kind k p merges) h)
    | inr apart ↦ elim (Bool-cases (same_type p.type transcript_partial)) [
      | inl partial ↦
          simp (apart, partial)
            (replace_pending-AtMostOne size k (is_partial_of p.segment_id) now p s
              (partial_kind k p partial) h)
      | inr whole ↦ elim (Bool-cases (same_type p.type transcript_stable)) [
        | inl stable ↦ simp (apart, whole, stable) (emit_stable-AtMostOne now p s stable h)
        | inr other ↦
            simp (apart, whole, other)
              (append-AtMostOne size k now p s (other_kind k p apart whole other) h)
      ]
    ]
  ]

  -- However the events come, of each kind at most one waits in the queue.
  pub emit-AtMostOne :
      (now : ℕ) (p : Payload) (s : EventWriter)
      → AtMostOne k s.queue
      → AtMostOne k (emit size now p s).queue
  unfolding emit
  emit-AtMostOne now p s h = elim (Bool-cases (ends_segment p.type)) [
    | inl ends ↦
        simp ends
          (discard-AtMostOne size k (is_partial_of p.segment_id) _ (enqueue-AtMostOne now p s h))
    | inr goes_on ↦ simp goes_on (enqueue-AtMostOne now p s h)
  ]
