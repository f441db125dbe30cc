-- ===== src/Segmenter/Stream.antt =====
-- A whole session of segmenter.py: `push` after `push`, then `flush`.
use tea_asr_service.Prelude.{
  ℕ, zero, suc, ◌+◌, ◌-◌, ◌*◌, ◌/◌, ◌%◌, ◌≤◌, ◌<◌, min, max, ◌≡◌, refl, sym, ap, ◌∙◌, inl, inr,
  Bool-cases, Option, none, some, List, [], ◌∷◌, ◌++◌, arith, leb, leb→le, ==-true, ltb, length,
  take, drop, drop-append, take-append, length-append, length-drop, drop-drop,
}
use tea_asr_service.Segmenter.{
  vad_window_samples, Boundary, State, SegmenterEvent, speech_started, segment_closed,
  ContinuousSegmenter, close_end, settle,
}
use tea_asr_service.Segmenter.Machine.{
  step, flush, flush_in, keep_from, trim, window_at, scored, analyse, windows, push,
}
use tea_asr_service.Segmenter.Invariant.{span, Returns, Returns->>=, Phase, IsValid, Follows}
use tea_asr_service.Segmenter.Steps.{Kept, step-Kept, close_lem, Phase-speech}

pub Follows-append :
    (origin : ℕ) (heard : List ℕ) (lo mid hi : ℕ) (xs ys : List SegmenterEvent)
    → Follows origin heard lo xs mid
    → Follows origin heard mid ys hi
    → Follows origin heard lo (xs ++ ys) hi
Follows-append origin heard lo mid hi [] ys h k = rw h k
Follows-append origin heard lo mid hi (speech_started a ∷ xs) ys h k =
    (h.0, Follows-append origin heard lo mid hi xs ys h.1 k)
Follows-append origin heard lo mid hi (segment_closed c ∷ xs) ys h k =
    (h.0, h.1, h.2, h.3, Follows-append origin heard c.end_sample mid hi xs ys h.4 k)

pub Follows-le :
    (origin : ℕ) (heard : List ℕ) (lo hi : ℕ) (xs : List SegmenterEvent)
    → Follows origin heard lo xs hi
    → lo ≤ hi
Follows-le origin heard lo hi [] h = omega arith
Follows-le origin heard lo hi (speech_started a ∷ xs) h = Follows-le origin heard lo hi xs h.1
Follows-le origin heard lo hi (segment_closed c ∷ xs) h =
    omega (arith, Follows-le origin heard c.end_sample hi xs h.4)

-- More audio does not change the audio of a range that was heard.
span-append :
    (origin : ℕ) (heard more : List ℕ) (a b : ℕ)
    → a ≤ b
    → b * 2 ≤ length heard + origin * 2
    → origin ≤ a
    → span origin (heard ++ more) a b ≡ span origin heard a b
span-append origin heard more a b le fits from =
    ap (take ((b - a) * 2)) (drop-append ((a - origin) * 2) heard more (omega arith))
    ∙ take-append ((b - a) * 2) (drop ((a - origin) * 2) heard) more
        (omega (arith, length-drop {0} ((a - origin) * 2) heard))

pub Follows-grow :
    (origin : ℕ) (heard more : List ℕ) (lo hi : ℕ) (xs : List SegmenterEvent)
    → origin ≤ lo
    → Follows origin heard lo xs hi
    → Follows origin (heard ++ more) lo xs hi
Follows-grow origin heard more lo hi [] from h = h
Follows-grow origin heard more lo hi (speech_started a ∷ xs) from h =
    (h.0, Follows-grow origin heard more lo hi xs from h.1)
Follows-grow origin heard more lo hi (segment_closed c ∷ xs) from h = (
  h.0,
  h.1,
  omega (arith, length-append {0} heard more),
  h.3 ∙ sym (span-append origin heard more c.start_sample c.end_sample h.1 h.2 (omega arith)),
  Follows-grow origin heard more c.end_sample hi xs (omega arith) h.4,
)

module _ {S : Type 0} (probability : List ℕ → S → ℕ × S) (origin : ℕ) where
  -- One window of the loop: the clock goes on by a window.
  analyse-Kept :
      (heard : List ℕ) (s : ContinuousSegmenter S)
      → IsValid origin heard s
      → s.cursor + vad_window_samples ≤ s.next_sample
      → Returns
          (λ r.
            IsValid origin heard r.0
            × Follows origin heard s.committed_end r.1 r.0.committed_end
            × (r.0.cursor ≡ s.cursor + vad_window_samples)
            × (r.0.next_sample ≡ s.next_sample))
          (analyse probability s)
  unfolding analyse
  analyse-Kept heard s v room =
      let result = probability (window_at s) s.vad_session in
      let v' : IsValid origin heard (scored s result) = unfold scored in ground arith in
      Returns->>= (Kept origin heard s) _
        (step (scored s result) result.0 s.cursor (s.cursor + vad_window_samples)) _
        (unfold scored in
          step-Kept origin heard (scored s result) result.0 (s.cursor + vad_window_samples) v' room)
        (λ r k. (ground arith, k.1, omega arith, k.3))

  -- The open segment is kept whole.
  keep_from-Phase :
      (s : ContinuousSegmenter S) (st : State) (c a : Option ℕ) (kept : ℕ) (b : List ℕ)
      → Phase s st c a
      → kept ≡ max s.buffer_start (min (keep_from s st c a) s.cursor)
      → Phase (record s { buffer = b; buffer_start = kept }) st c a
  unfolding keep_from
  keep_from-Phase s State.silence c a kept b h e = tt
  keep_from-Phase s State.pending none a kept b h e = h
  keep_from-Phase s State.pending (some c) a kept b h e = h
  keep_from-Phase s State.speech c none kept b h e = h
  keep_from-Phase s State.speech c (some a) kept b h e = (omega arith, h.1, h.2)

  trim_keeps :
      (s : ContinuousSegmenter S)
      → ((trim s).committed_end ≡ s.committed_end)
        × ((trim s).cursor ≡ s.cursor)
        × ((trim s).next_sample ≡ s.next_sample)
  unfolding trim
  trim_keeps s = ground arith

  Phase-grow :
      (s : ContinuousSegmenter S) (st : State) (c a : Option ℕ) (b : List ℕ) (n : ℕ)
      → Phase s st c a
      → Phase (record s { buffer = b; next_sample = s.next_sample + n }) st c a
  Phase-grow s State.silence c a b n h = tt
  Phase-grow s State.pending none a b n h = h
  Phase-grow s State.pending (some c) a b n h = omega arith
  Phase-grow s State.speech c none b n h = h
  Phase-grow s State.speech c (some a) b n h = (h.0, h.1, omega arith)

  trim-IsValid :
      (heard : List ℕ) (s : ContinuousSegmenter S)
      → IsValid origin heard s
      → IsValid origin heard (trim s)
  unfolding trim
  trim-IsValid heard s v =
      let kept =
        max s.buffer_start (min (keep_from s s.state s.candidate_start s.segment_start) s.cursor) in
      let dropped = drop ((kept - s.buffer_start) * 2) s.buffer in
      elim (Bool-cases (ltb s.buffer_start kept)) [
        | inl less ↦ rw less (record {
          starts = omega arith;
          buffered = omega arith;
          analysed = v.analysed;
          clock = v.clock;
          holds =
              ap (drop ((kept - s.buffer_start) * 2)) v.holds
              ∙ drop-drop ((s.buffer_start - origin) * 2) ((kept - s.buffer_start) * 2) heard
              ∙ ap (λ n. drop n heard) (omega arith);
          committed = v.committed;
          phase =
              keep_from-Phase s s.state s.candidate_start s.segment_start kept dropped v.phase refl;
        })
        | inr same ↦ rw same v
      ]

  -- Enough fuel: the loop ends by its test.
  windows-Kept :
      (fuel : ℕ) (heard : List ℕ) (s : ContinuousSegmenter S)
      → IsValid origin heard s
      → s.next_sample - s.cursor < fuel
      → Returns
          (λ r.
            IsValid origin heard r.0
            × Follows origin heard s.committed_end r.1 r.0.committed_end
            × (r.0.next_sample < r.0.cursor + vad_window_samples)
            × (r.0.next_sample ≡ s.next_sample))
          (windows probability fuel s)
  unfolding windows
  windows-Kept zero heard s v h = absurd (omega arith)
  windows-Kept (suc fuel) heard s v h =
      elim (Bool-cases (leb (s.cursor + vad_window_samples) s.next_sample)) [
        | inl room ↦ rw room (
            Returns->>= _ _ (analyse probability s) _ (analyse-Kept heard s v (leb→le _ _ room))
              λ r k.
                Returns->>= _ _ (windows probability fuel r.0) _
                  (windows-Kept fuel heard r.0 k.0 (omega arith))
                  λ q l. (
                    l.0,
                    Follows-append origin heard s.committed_end r.0.committed_end q.0.committed_end
                        r.1 q.1 k.1 l.1,
                    l.2,
                    l.3 ∙ k.3,
                  ))
        | inr done ↦ rw done (v, refl, ground arith, refl)
      ]

  -- `push` of whole samples gives a result: the audio is added to the stream, every full window of
  -- it is analysed, and the invariant holds again.
  pub push-Kept :
      (heard pcm : List ℕ) (s : ContinuousSegmenter S)
      → IsValid origin heard s
      → length pcm % 2 ≡ 0
      → Returns
          (λ r.
            IsValid origin (heard ++ pcm) r.0
            × Follows origin (heard ++ pcm) s.committed_end r.1 r.0.committed_end
            × (r.0.next_sample < r.0.cursor + vad_window_samples)
            × (r.0.next_sample ≡ s.next_sample + length pcm / 2))
          (push probability s pcm)
  unfolding push
  push-Kept heard pcm s v even =
      let s' = record s {
        buffer = s.buffer ++ pcm;
        next_sample = s.next_sample + length pcm / 2;
      } in
      let longer = length-append {0} heard pcm in
      let v' : IsValid origin (heard ++ pcm) s' = record {
        starts = v.starts;
        buffered = v.buffered;
        analysed = omega arith;
        clock = omega arith;
        holds =
            ap (λ b. b ++ pcm) v.holds
            ∙ sym (drop-append ((s.buffer_start - origin) * 2) heard pcm (omega arith));
        committed = omega arith;
        phase =
            Phase-grow s s.state s.candidate_start s.segment_start (s.buffer ++ pcm)
              (length pcm / 2) v.phase;
      } in
      rw (==-true _ _ even) (
        Returns->>= _ _ (windows probability (suc (s'.next_sample - s'.cursor)) s') _
          (windows-Kept _ (heard ++ pcm) s' v' (omega arith))
          λ r k.
            let (end, clock, next) = trim_keeps r.0 in
            (trim-IsValid (heard ++ pcm) r.0 k.0, rw end k.1, rw (clock, next) k.2, next ∙ k.3))

  flush_in-Kept :
      (st : State) (heard : List ℕ) (s : ContinuousSegmenter S)
      → IsValid origin heard s
      → s.state ≡ st
      → Phase s st s.candidate_start s.segment_start
      → Returns (Kept origin heard s) (flush_in s st)
  unfolding flush_in
  flush_in-Kept State.silence heard s v e h = ground arith
  flush_in-Kept State.pending heard s v e h = ground arith
  flush_in-Kept State.speech heard s v e h =
      let (a, found, after, free, before) =
        Phase-speech origin heard s s.candidate_start s.segment_start h in
      rw
        (close_lem origin heard s Boundary.stop none a v found after before
          (unfold close_end in omega arith))
        (unfold settle close_end in ground arith)

  -- `flush` gives a result that keeps the invariant and the order of the segments.
  pub flush-Kept :
      (heard : List ℕ) (s : ContinuousSegmenter S)
      → IsValid origin heard s
      → Returns (Kept origin heard s) (flush s)
  unfolding flush
  flush-Kept heard s v = flush_in-Kept s.state heard s v refl v.phase
