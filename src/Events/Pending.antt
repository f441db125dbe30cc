-- ===== src/Events/Pending.antt =====
-- The byte count of the queue of api/events.py, through each of its operations.
use tea_asr_service.Prelude.{
  ℕ, ◌+◌, ◌-◌, ◌≡◌, refl, ap, inl, inr, Bool, true, Bool-cases, Option-cases, List, [], ◌∷◌, ◌++◌,
  arith,
}
use tea_asr_service.Events.Types.{
  transcript_partial, transcript_stable, same_type, is_coalesced, ends_segment,
}
use tea_asr_service.Events.{
  Payload, EventWriter, is_partial_of, is_open_stable_of, replace_first, total, check_overflow,
  append, replace_pending, discard, emit_stable, enqueue, emit, write, write_from,
}
use tea_asr_service.Events.Replace.{count, total-append, replace_first-none, replace_first-some}

module _ (size : Payload → ℕ) where
  -- The rule for a replacement: what holds after an append and after every exchange holds.
  pub replace_pending_ind :
      (P : List Payload → ℕ → Type 0) (test : Payload → Bool) (now : ℕ) (p : Payload)
      (s : EventWriter)
      → (count test s.queue ≡ 0 → P (s.queue ++ p ∷ []) (s.bytes + size p))
      → ((before after : List Payload) (old : Payload)
          → s.queue ≡ before ++ old ∷ after
          → test old ≡ true
          → P (before ++ p ∷ after) (s.bytes + size p - size old))
      → P (replace_pending size test now p s).queue (replace_pending size test now p s).bytes
  unfolding replace_pending append check_overflow
  replace_pending_ind P test now p s added exchanged =
      elim (Option-cases (replace_first test p s.queue)) [
        | inl none' ↦ rw none' (added (replace_first-none test p s.queue none'))
        | inr ((queue', old), found) ↦
            let r = replace_first-some test p s.queue queue' old found in
            rw (found, r.is) (exchanged r.before r.after old r.was r.fits)
      ]

  abbrev pub HasBytes : EventWriter → Type 0
  HasBytes s = s.bytes ≡ total size s.queue

  pub append-HasBytes :
      (now : ℕ) (p : Payload) (s : EventWriter) → HasBytes s → HasBytes (append size now p s)
  unfolding append check_overflow
  append-HasBytes now p s h = omega (arith, total-append size s.queue (p ∷ []))

  pub replace_pending-HasBytes :
      (test : Payload → Bool) (now : ℕ) (p : Payload) (s : EventWriter)
      → HasBytes s
      → HasBytes (replace_pending size test now p s)
  replace_pending-HasBytes test now p s h =
      replace_pending_ind (λ queue bytes. bytes ≡ total size queue) test now p s
        (λ _. omega (arith, total-append size s.queue (p ∷ [])))
        (λ before after old e _. omega (
          arith,
          ap (total size) e,
          total-append size before (old ∷ after),
          total-append size before (p ∷ after),
        ))

  pub discard-HasBytes :
      (test : Payload → Bool) (s : EventWriter) → HasBytes s → HasBytes (discard size test s)
  unfolding discard
  discard-HasBytes test s h = ground arith

  emit_stable-HasBytes :
      (now : ℕ) (p : Payload) (s : EventWriter) → HasBytes s → HasBytes (emit_stable size now p s)
  unfolding emit_stable
  emit_stable-HasBytes now p s h = elim (Bool-cases p.is_open) [
    | inl open' ↦ simp open' (replace_pending-HasBytes (is_open_stable_of p.segment_id) now p s h)
    | inr closing ↦
        simp closing
          (append-HasBytes now p _ (discard-HasBytes (is_open_stable_of p.segment_id) s h))
  ]

  enqueue-HasBytes :
      (now : ℕ) (p : Payload) (s : EventWriter) → HasBytes s → HasBytes (enqueue size now p s)
  unfolding enqueue
  enqueue-HasBytes now p s h = elim (Bool-cases (is_coalesced p.type)) [
    | inl merges ↦ rw merges (replace_pending-HasBytes (λ q. same_type q.type p.type) now p s h)
    | inr apart ↦ elim (Bool-cases (same_type p.type transcript_partial)) [
      | inl partial ↦
          rw (apart, partial) (replace_pending-HasBytes (is_partial_of p.segment_id) now p s h)
      | inr whole ↦ elim (Bool-cases (same_type p.type transcript_stable)) [
        | inl stable ↦ rw (apart, whole, stable) (emit_stable-HasBytes now p s h)
        | inr other ↦ rw (apart, whole, other) (append-HasBytes now p s h)
      ]
    ]
  ]

  pub emit-HasBytes :
      (now : ℕ) (p : Payload) (s : EventWriter) → HasBytes s → HasBytes (emit size now p s)
  unfolding emit
  emit-HasBytes now p s h = elim (Bool-cases (ends_segment p.type)) [
    | inl ends ↦
        rw ends (discard-HasBytes (is_partial_of p.segment_id) _ (enqueue-HasBytes now p s h))
    | inr goes_on ↦ rw goes_on (enqueue-HasBytes now p s h)
  ]

  pub write-HasBytes : (now : ℕ) (s : EventWriter) → HasBytes s → HasBytes (write size now s).0
  unfolding write
  write-HasBytes now s h = go s.queue refl
    where
      go : (queue : List Payload) → s.queue ≡ queue → HasBytes (write_from size now s queue).0
      go [] e = h
      go (p ∷ queue) e = omega (arith, h, ap (total size) e)
