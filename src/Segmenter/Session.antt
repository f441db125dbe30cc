-- ===== src/Segmenter/Session.antt =====
-- A session of segmenter.py from its first sample to `flush`: what a client gets, all told.
use tea_asr_service.Prelude.{
  ℕ, ◌+◌, ◌-◌, ◌*◌, ◌%◌, ◌≤◌, ◌<◌, ◌≡◌, refl, sym, ap, Bool-cases, inl, inr, drop-nil, ◌∙◌, List,
  [], ◌∷◌, ◌++◌, append-nil, append_assoc, arith, length, All, pos, sub_ℕ, ◌+ℤ◌, slice, leb, none,
  some, Option,
}
use tea_asr_service.Segmenter.{
  vad_window_samples, ok, ◌>>=◌, SegmenterConfig, State, ContinuousSegmenter, offset, init,
  open_audio, open_segment_audio,
}
use tea_asr_service.Segmenter.Machine.{Stepped, flush, push, window_at}
use tea_asr_service.Segmenter.Invariant.{
  span, Returns, Returns->>=, Phase, IsValid, Follows, slice-buffer,
}
use tea_asr_service.Segmenter.Stream.{
  Follows-append, Follows-le, Follows-grow, push-Kept, flush-Kept,
}

module _ {S : Type 0} (origin : ℕ) (heard : List ℕ) (s : ContinuousSegmenter S) where
  -- While a full window is at hand, the VAD is given exactly the 512 samples at the cursor.
  pub window_at-span :
      IsValid origin heard s
      → s.cursor + vad_window_samples ≤ s.next_sample
      → window_at s ≡ span origin heard s.cursor (s.cursor + vad_window_samples)
  unfolding window_at
  window_at-span v room =
      let e : pos (vad_window_samples * 2)
          ≡ sub_ℕ ((s.cursor + vad_window_samples) * 2) (s.cursor * 2) =
        ground arith in
      ap (λ n. slice s.buffer (offset s s.cursor) (offset s s.cursor +ℤ n)) e
      ∙ slice-buffer origin heard s s.cursor (s.cursor + vad_window_samples) v v.buffered
          (omega arith) room

  open_audio-span :
      (st : State) (c o : Option ℕ) (a : ℕ) (pcm : List ℕ)
      → IsValid origin heard s
      → Phase s st c o
      → open_audio s st o ≡ some (a, pcm)
      → (o ≡ some a) × (a < s.cursor) × (pcm ≡ span origin heard a s.cursor)
  unfolding open_audio
  open_audio-span State.silence c o a pcm v h e = cc
  open_audio-span State.pending c o a pcm v h e = cc
  open_audio-span State.speech c none a pcm v h e = cc
  open_audio-span State.speech c (some start) a pcm v h e = elim (Bool-cases (leb s.cursor start)) [
    | inl late ↦ ground (arith, late)
    | inr early ↦
        let within : start < s.cursor = ground arith in
        let at : start ≡ a = ground (arith, early) in
        let held : slice s.buffer (offset s start)
              (offset s start +ℤ sub_ℕ (s.cursor * 2) (start * 2))
            ≡ pcm =
          ground (arith, early) in
        (
          ap some at,
          rw (← at) within,
          sym held
              ∙ slice-buffer origin heard s start s.cursor v h.0 (omega arith) v.analysed
              ∙ ap (λ n. span origin heard n s.cursor) at,
        )
  ]

  -- What `open_segment_audio` hands to the preview starts at the open segment's start, ends at the
  -- last analysed window, is not empty, and is exactly the stream's audio of that range.
  pub open_segment_audio-span :
      (a : ℕ) (pcm : List ℕ)
      → IsValid origin heard s
      → open_segment_audio s ≡ some (a, pcm)
      → (s.segment_start ≡ some a) × (a < s.cursor) × (pcm ≡ span origin heard a s.cursor)
  unfolding open_segment_audio
  open_segment_audio-span a pcm v e =
      open_audio-span s.state s.candidate_start s.segment_start a pcm v v.phase e

abbrev pub joined : List (List ℕ) → List ℕ
joined [] = []
joined (pcm ∷ chunks) = pcm ++ joined chunks

module _ {S : Type 0} (probability : List ℕ → S → ℕ × S) where
  -- `push` for one chunk of bytes after another
  feed : ContinuousSegmenter S → List (List ℕ) → Stepped S
  feed s [] = ok (s, [])
  feed s (pcm ∷ chunks) = do
    (s', events) ← push probability s pcm
    (s'', later) ← feed s' chunks
    ok (s'', events ++ later)

  unfoldable pub session : SegmenterConfig → S → ℕ → List (List ℕ) → Stepped S
  unfolding feed
  session config new start_sample chunks = do
    (s, events) ← feed (init config new start_sample) chunks
    (s', last) ← flush s
    ok (s', events ++ last)

  feed-Follows :
      (origin : ℕ) (heard : List ℕ) (s : ContinuousSegmenter S) (chunks : List (List ℕ))
      → IsValid origin heard s
      → origin ≤ s.committed_end
      → All (λ pcm. length pcm % 2 ≡ 0) chunks
      → Returns
          (λ r.
            IsValid origin (heard ++ joined chunks) r.0
            × Follows origin (heard ++ joined chunks) s.committed_end r.1 r.0.committed_end)
          (feed s chunks)
  unfolding feed
  feed-Follows origin heard s [] v from even = (rw append-nil v, refl)
  feed-Follows origin heard s (pcm ∷ chunks) v from even =
      Returns->>= _ _ (push probability s pcm) _ (push-Kept probability origin heard pcm s v even.0)
        λ r k.
          Returns->>= _ _ (feed r.0 chunks) _
            (feed-Follows origin (heard ++ pcm) r.0 chunks k.0
              (omega
                (arith, Follows-le origin (heard ++ pcm) s.committed_end r.0.committed_end r.1 k.1))
              even.1)
            λ q l. (
              rw append_assoc at l.0,
              rw (← append_assoc) (
                  Follows-append origin ((heard ++ pcm) ++ joined chunks) s.committed_end
                    r.0.committed_end q.0.committed_end r.1 q.1
                    (Follows-grow origin (heard ++ pcm) (joined chunks) s.committed_end
                      r.0.committed_end r.1 from k.1)
                    l.1),
            )

  init-IsValid :
      (config : SegmenterConfig) (new : S) (origin : ℕ) → IsValid origin [] (init config new origin)
  unfolding init
  init-IsValid config new origin = record {
    starts = omega arith;
    buffered = omega arith;
    analysed = omega arith;
    clock = omega arith;
    holds = sym (drop-nil ((origin - origin) * 2));
    committed = omega arith;
    phase = tt;
  }

  -- A session of whole samples, cut into chunks in any way, never fails: its segments are in order
  -- and do not overlap, and each holds exactly the audio of its range of the session's timeline.
  pub session-Follows :
      (config : SegmenterConfig) (new : S) (start_sample : ℕ) (chunks : List (List ℕ))
      → All (λ pcm. length pcm % 2 ≡ 0) chunks
      → Returns
          (λ r. Follows start_sample (joined chunks) start_sample r.1 r.0.committed_end)
          (session config new start_sample chunks)
  unfolding session init
  session-Follows config new start_sample chunks even =
      Returns->>= _ _ (feed (init config new start_sample) chunks) _
        (feed-Follows start_sample [] (init config new start_sample) chunks
          (init-IsValid config new start_sample) (unfold init in omega arith) even)
        λ r k.
          Returns->>= _ _ (flush r.0) _
            (flush-Kept probability start_sample (joined chunks) r.0 k.0)
            λ q l.
              Follows-append start_sample (joined chunks) start_sample r.0.committed_end
                q.0.committed_end r.1 q.1 k.1 l.1
