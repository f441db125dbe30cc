-- ===== src/Segmenter/Steps.antt =====
-- One window of segmenter.py: `_confirm`, `_close` and `_step` against the invariant and the stream.
use tea_asr_service.Prelude.{
  ℕ, ◌+◌, ◌≤◌, max, ◌≡◌, refl, sym, subst, ap, ◌∙◌, inl, inr, not, Bool-cases, ◌&&◌, Option, none,
  some, List, [], ◌∷◌, arith, leb,
}
use tea_asr_service.Segmenter.{
  vad_window_samples, samples, hard_cap_ms, Boundary, State, SegmenterEvent, ok,
  ContinuousSegmenter, quiet_split_point, confirm, close, close_from, close_end, settle,
}
use tea_asr_service.Segmenter.Machine.{
  confirm_if_long, step_silence, step_pending, close_silence, split, limit_length, step_speech,
  step_in, step,
}
use tea_asr_service.Segmenter.Invariant.{
  span, Returns, Returns->>=, Phase, IsValid, Follows, onset-le, quiet_split_point-le, slice-buffer,
}

module _ {S : Type 0} (origin : ℕ) (heard : List ℕ) where
  -- What a call that begins at `s` leaves.
  abbrev pub Kept : ContinuousSegmenter S → ContinuousSegmenter S × List SegmenterEvent → Type 0
  Kept s (s', events) =
      IsValid origin heard s'
      × Follows origin heard s.committed_end events s'.committed_end
      × (s'.cursor ≡ s.cursor)
      × (s'.next_sample ≡ s.next_sample)

  pub confirm-Kept :
      (s : ContinuousSegmenter S) (end c : ℕ)
      → IsValid origin heard s
      → s.candidate_start ≡ some c
      → c ≤ s.next_sample
      → Returns (λ r. Kept s (r.0, r.1 ∷ [])) (confirm s end)
  unfolding confirm
  confirm-Kept s end c v e h = ground (arith, onset-le s.config.onset_threshold c s.recent)

  -- A segment that is closed holds the audio of its range.
  pub close_lem :
      (s : ContinuousSegmenter S) (boundary : Boundary) (end : Option ℕ) (a : ℕ)
      → IsValid origin heard s
      → s.segment_start ≡ some a
      → s.buffer_start ≤ a
      → a ≤ s.next_sample
      → close_end s end ≤ s.next_sample
      → close s boundary end
        ≡ ok (
          settle boundary (record s { committed_end = max (close_end s end) a }),
          record {
            start_sample = a;
            end_sample = max (close_end s end) a;
            pcm = span origin heard a (max (close_end s end) a);
            boundary = boundary;
          },
        )
  unfolding close
  close_lem s boundary end a v e after before fits =
      let start : max a s.buffer_start ≡ a = omega arith in
      let audio =
        slice-buffer origin heard s a (max (close_end s end) a) v after (omega arith)
          (omega arith) in
      ap (close_from s boundary end) e ∙ rw (start, audio)

  abbrev pub Open : ContinuousSegmenter S → ℕ → Type 0
  Open s a =
      (s.state ≡ State.speech)
      × (s.segment_start ≡ some a)
      × (s.buffer_start ≤ a)
      × (s.committed_end ≤ a)
      × (a ≤ s.next_sample)

  pub close_silence-Kept :
      (s : ContinuousSegmenter S) (a : ℕ)
      → IsValid origin heard s
      → Open s a
      → Returns (Kept s) (close_silence s)
  unfolding close_silence
  close_silence-Kept s a v h =
      rw (close_lem s Boundary.silence none a v h.1 h.2 h.4 (unfold close_end in omega arith))
        (unfold settle close_end in ground arith)

  split-Kept :
      (s : ContinuousSegmenter S) (point end a : ℕ)
      → IsValid origin heard s
      → Open s a
      → point ≤ s.next_sample
      → Returns (Kept s) (split s point end)
  unfolding split
  split-Kept s point end a v h fits =
      rw (close_lem s Boundary.max_duration (some point) a v h.1 h.2 h.4 (unfold close_end in fits))
        (unfold settle close_end in ground arith)

  unsplit-Kept :
      (s : ContinuousSegmenter S) → IsValid origin heard s → Returns (Kept s) (ok (s, []))
  unsplit-Kept s v = (v, refl, refl, refl)

  limit_length-Kept :
      (s : ContinuousSegmenter S) (end a : ℕ)
      → IsValid origin heard s
      → Open s a
      → end ≤ s.next_sample
      → Returns (Kept s) (limit_length s end (some a))
  unfolding limit_length
  limit_length-Kept s end a v h within =
      let point = quiet_split_point s a end in
      let cut = split-Kept s point end a v h (omega (arith, quiet_split_point-le s a end)) in
      elim (Bool-cases (leb (a + samples s.config.max_segment_ms) end)) [
        | inl long ↦
            elim (Bool-cases
              (leb end point && not (leb (a + samples (hard_cap_ms s.config)) end))) [
                | inl wait ↦ rw (long, wait) (unsplit-Kept s v)
                | inr now ↦ rw (long, now) cut
              ]
        | inr short ↦ rw short (unsplit-Kept s v)
      ]

  limit_length-Kept' :
      (s : ContinuousSegmenter S) (end a : ℕ)
      → IsValid origin heard s
      → Open s a
      → end ≤ s.next_sample
      → Returns (Kept s) (limit_length s end s.segment_start)
  limit_length-Kept' s end a v h within =
      subst (λ o. Returns (Kept s) (limit_length s end o)) (sym h.1)
        (limit_length-Kept s end a v h within)

  -- A window of speech that may confirm the candidate.
  confirm_if_long-Kept :
      (s : ContinuousSegmenter S) (end c : ℕ)
      → IsValid origin heard s
      → s.candidate_start ≡ some c
      → c ≤ s.next_sample
      → Returns (Kept s) (confirm_if_long s end)
  unfolding confirm_if_long
  confirm_if_long-Kept s end c v e h =
      elim (Bool-cases (leb (samples s.config.min_speech_ms) s.pending_speech_samples)) [
        | inl long ↦ rw long (
            Returns->>= (λ r. Kept s (r.0, r.1 ∷ [])) (Kept s) (confirm s end) _
              (confirm-Kept s end c v e h) (λ r k. k))
        | inr short ↦ rw short (unsplit-Kept s v)
      ]

  step_silence-Kept :
      (s : ContinuousSegmenter S) (p start end : ℕ)
      → IsValid origin heard s
      → start ≤ s.next_sample
      → s.state ≡ State.silence
      → Returns (Kept s) (step_silence s p start end)
  unfolding step_silence
  step_silence-Kept s p start end v within e = elim (Bool-cases (leb s.config.threshold p)) [
    | inl speaking ↦
        let s' = record s {
          state = State.pending;
          candidate_start = some start;
          pending_speech_samples = vad_window_samples;
        } in
        rw speaking (confirm_if_long-Kept s' end start (ground arith) refl within)
    | inr quiet ↦ rw quiet (unsplit-Kept s v)
  ]

  step_pending-Kept :
      (s : ContinuousSegmenter S) (p end c : ℕ)
      → IsValid origin heard s
      → s.state ≡ State.pending
      → s.candidate_start ≡ some c
      → c ≤ s.next_sample
      → Returns (Kept s) (step_pending s p end)
  unfolding step_pending
  step_pending-Kept s p end c v waiting e within = elim (Bool-cases (leb s.config.threshold p)) [
    | inl speaking ↦
        let s' = record s {
          pending_speech_samples = s.pending_speech_samples + vad_window_samples;
        } in
        rw speaking (confirm_if_long-Kept s' end c (ground arith) e within)
    | inr quiet ↦ rw quiet (ground arith)
  ]

  step_speech-Kept :
      (s : ContinuousSegmenter S) (p end a : ℕ)
      → IsValid origin heard s
      → Open s a
      → end ≤ s.next_sample
      → Returns (Kept s) (step_speech s p end)
  unfolding step_speech
  step_speech-Kept s p end a v h within =
      let restarted = record s { last_speech_end = end; trailing_silence = 0 } in
      let quieter = record s { trailing_silence = s.trailing_silence + vad_window_samples } in
      let v' : IsValid origin heard quieter = ground arith in
      elim (Bool-cases (leb s.config.neg_threshold p)) [
        | inl speaking ↦ rw speaking (limit_length-Kept' restarted end a (ground arith) h within)
        | inr quiet ↦
            elim (Bool-cases (leb (samples s.config.end_silence_ms) quieter.trailing_silence)) [
              | inl long ↦ rw (quiet, long) (close_silence-Kept quieter a v' h)
              | inr short ↦ rw (quiet, short) (limit_length-Kept' quieter end a v' h within)
            ]
      ]

  Phase-pending :
      (s : ContinuousSegmenter S) (o a : Option ℕ)
      → Phase s State.pending o a
      → (c : ℕ) × (o ≡ some c) × (c ≤ s.next_sample)
  Phase-pending s none a h = absurd h
  Phase-pending s (some c) a h = (c, refl, h)

  pub Phase-speech :
      (s : ContinuousSegmenter S) (c o : Option ℕ)
      → Phase s State.speech c o
      → (a : ℕ) × (o ≡ some a) × (s.buffer_start ≤ a) × (s.committed_end ≤ a) × (a ≤ s.next_sample)
  Phase-speech s c none h = absurd h
  Phase-speech s c (some a) h = (a, refl, h.0, h.1, h.2)

  step_in-Kept :
      (st : State) (s : ContinuousSegmenter S) (p end : ℕ)
      → IsValid origin heard s
      → s.state ≡ st
      → Phase s st s.candidate_start s.segment_start
      → end ≤ s.next_sample
      → Returns (Kept s) (step_in st s p s.cursor end)
  unfolding step_in
  step_in-Kept State.silence s p end v e h within =
      step_silence-Kept s p s.cursor end v v.analysed e
  step_in-Kept State.pending s p end v e h within =
      let (c, found, fits) = Phase-pending s s.candidate_start s.segment_start h in
      step_pending-Kept s p end c v e found fits
  step_in-Kept State.speech s p end v e h within =
      let (a, found, after, free, before) = Phase-speech s s.candidate_start s.segment_start h in
      step_speech-Kept s p end a v (e, found, after, free, before) within

  -- A window never fails an assertion, and keeps the invariant and the order of the segments.
  pub step-Kept :
      (s : ContinuousSegmenter S) (p end : ℕ)
      → IsValid origin heard s
      → end ≤ s.next_sample
      → Returns (Kept s) (step s p s.cursor end)
  unfolding step
  step-Kept s p end v within = step_in-Kept s.state s p end v refl v.phase within
