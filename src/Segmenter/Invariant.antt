-- ===== src/Segmenter/Invariant.antt =====
-- What the segmenter of segmenter.py keeps true of its fields, and what its events promise.
-- `heard` is all PCM that was pushed, from the sample `origin` at which the session began.
use tea_asr_service.Prelude.{
  ℕ, ◌+◌, ◌-◌, ◌*◌, ◌/◌, ◌≤◌, ◌<◌, max, ◌≡◌, ap, ap₂, ◌∙◌, inl, inr, Option-cases, Option, none,
  some, List, [], ◌∷◌, arith, length, take, drop, pos, sub_ℕ, ◌+ℤ◌, slice, slice-pos, drop-drop,
  length-drop,
}
use tea_asr_service.Segmenter.{
  State, SegmenterEvent, speech_started, segment_closed, samples, Result, ok, raised, ◌>>=◌,
  ContinuousSegmenter, offset, onset, quietest, quiet_split_point,
}

-- The bytes of the samples from `a` up to `b`.
abbrev pub span : ℕ → List ℕ → ℕ → ℕ → List ℕ
span origin heard a b = take ((b - a) * 2) (drop ((a - origin) * 2) heard)

-- A call gives a result, and `P` holds of it.
abbrev pub Returns : {A : Type 0} → (A → Type 0) → Result A → Type 0
Returns P (ok a) = P a
Returns P (raised e) = ⊥

pub Returns->>= :
    {A B : Type 0} (P : A → Type 0) (Q : B → Type 0) (m : Result A) (f : A → Result B)
    → Returns P m
    → ((a : A) → P a → Returns Q (f a))
    → Returns Q (m >>= f)
Returns->>= P Q (ok a) f p k = k a p
Returns->>= P Q (raised e) f p k = absurd p

module _ {S : Type 0} where
  abbrev pub Phase : ContinuousSegmenter S → State → Option ℕ → Option ℕ → Type 0
  Phase s State.silence c a = Unit
  Phase s State.pending none a = ⊥
  Phase s State.pending (some c) a = c ≤ s.next_sample
  Phase s State.speech c none = ⊥
  Phase s State.speech c (some a) =
      (s.buffer_start ≤ a) × (s.committed_end ≤ a) × (a ≤ s.next_sample)

  pub record IsValid (origin : ℕ) (heard : List ℕ) (s : ContinuousSegmenter S) : Type 0 where
    pub starts : origin ≤ s.buffer_start
    pub buffered : s.buffer_start ≤ s.cursor
    pub analysed : s.cursor ≤ s.next_sample
    pub clock : length heard + origin * 2 ≡ s.next_sample * 2
    pub holds : s.buffer ≡ drop ((s.buffer_start - origin) * 2) heard
    pub committed : s.committed_end ≤ s.next_sample
    pub phase : Phase s s.state s.candidate_start s.segment_start

-- The events of a call that began with `committed_end` at `lo` and left it at `hi`: each segment
-- begins where the one before it ended or later, and holds exactly the audio of its range.
abbrev pub Follows : ℕ → List ℕ → ℕ → List SegmenterEvent → ℕ → Type 0
Follows origin heard lo [] hi = lo ≡ hi
Follows origin heard lo (speech_started a ∷ events) hi =
    (lo ≤ a) × Follows origin heard lo events hi
Follows origin heard lo (segment_closed c ∷ events) hi =
    (lo ≤ c.start_sample)
    × (c.start_sample ≤ c.end_sample)
    × (c.end_sample * 2 ≤ length heard + origin * 2)
    × (c.pcm ≡ span origin heard c.start_sample c.end_sample)
    × Follows origin heard c.end_sample events hi

pub onset-le : (threshold from : ℕ) (recent : List (ℕ × ℕ)) → onset threshold from recent ≤ from
unfolding onset
onset-le threshold from [] = omega arith
onset-le threshold from ((w, p) ∷ recent) =
    ground (arith, onset-le threshold from recent, onset-le threshold w recent)

-- The quietest window lies in the range that is searched.
pub quietest_range :
    (earliest limit : ℕ) (recent : List (ℕ × ℕ)) {p w : ℕ}
    → quietest earliest limit recent ≡ some (p, w)
    → (earliest ≤ w) × (w < limit)
unfolding quietest
quietest_range earliest limit [] h = ground arith
quietest_range earliest limit ((v, q) ∷ recent) {p} {w} h =
    elim (Option-cases (quietest earliest limit recent)) [
      | inl e ↦ ground (arith, e)
      | inr ((p', w'), e) ↦
          ground (arith, e, quietest_range earliest limit recent {p = p'} {w = w'} e)
    ]

module _ {S : Type 0} where
  pub quiet_split_point-le :
      (s : ContinuousSegmenter S) (segment_start limit : ℕ)
      → quiet_split_point s segment_start limit ≤ limit
  unfolding quiet_split_point
  quiet_split_point-le s segment_start limit =
      let earliest =
        max (segment_start + samples (s.config.max_segment_ms / 2))
          (limit - samples s.config.split_search_ms) in
      elim (Option-cases (quietest earliest limit s.recent)) [
        | inl e ↦ ground (arith, e)
        | inr ((p, w), e) ↦
            ground (arith, e, quietest_range earliest limit s.recent {p = p} {w = w} e)
      ]

  -- A slice of the buffer is a span of the stream.
  pub slice-buffer :
      (origin : ℕ) (heard : List ℕ) (s : ContinuousSegmenter S) (a b : ℕ)
      → IsValid origin heard s
      → s.buffer_start ≤ a
      → a ≤ b
      → b ≤ s.next_sample
      → slice s.buffer (offset s a) (offset s a +ℤ sub_ℕ (b * 2) (a * 2)) ≡ span origin heard a b
  slice-buffer origin heard s a b v le1 le2 le3 =
      let lo : offset s a ≡ pos (a * 2 - s.buffer_start * 2) = ground arith in
      let hi : offset s a +ℤ sub_ℕ (b * 2) (a * 2) ≡ pos (b * 2 - s.buffer_start * 2) =
        ground arith in
      let held : length s.buffer ≡ length heard - (s.buffer_start - origin) * 2 =
        ap length v.holds ∙ length-drop ((s.buffer_start - origin) * 2) heard in
      let from = (s.buffer_start - origin) * 2 in
      ap₂ (slice s.buffer) lo hi
      ∙ slice-pos s.buffer (a * 2 - s.buffer_start * 2) (b * 2 - s.buffer_start * 2) (omega arith)
          (omega (arith, held, v.clock, v.starts, v.buffered, v.analysed))
      ∙ ap₂ take (omega arith) (
          ap (drop (a * 2 - s.buffer_start * 2)) v.holds
          ∙ drop-drop from (a * 2 - s.buffer_start * 2) heard
          ∙ ap (λ n. drop n heard) (omega arith))
