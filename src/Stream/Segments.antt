-- ===== src/Stream/Segments.antt =====
-- How a segment of api/stream.py (tea_asr/api/stream.py) is opened, closed and queued.
use tea_asr_service.Prelude.{
  ℕ, ◌+◌, true, false, Option, none, some, List, [], ◌∷◌, ◌++◌, leb, if◌then◌else◌, length,
}
use tea_asr_service.Segmenter
use tea_asr_service.Segmenter.{SegmentClosed}
use tea_asr_service.Stream.{
  StreamSession, Segment, Boundary, boundary_of, Outcome, done, raised, ◌>>=◌, session_limit,
  speech_started, segment_queued, max_pending_segments, domain_of, rules_of, tracker_of, segment_at,
  emit, modify,
}
use tea_asr_service.Stream.Preview.{settle_preview_soon}
use tea_asr_service.Stream.History.{audio_before}

module _ {S : Type 0} where
  unfoldable pub new_segment : StreamSession S → ℕ → Segment
  unfolding audio_before
  new_segment s start_sample = record {
    index = s.next_index;
    start_sample = start_sample;
    revision = 0;
    published_preview_end = 0;
    terminal = false;
    stable = tracker_of s.config.stable_agreement;
    stable_revision = 0;
    stable_end_sample = 0;
    context_domain = domain_of s.config.context_plan;
    replacements = rules_of s.config.context_plan;
    end_sample = none;
    carry_pcm = audio_before s start_sample;
  }

  unfoldable pub open_segment : ℕ → StreamSession S → StreamSession S
  unfolding new_segment
  open_segment start_sample s = record s {
    segments = s.segments ++ new_segment s start_sample ∷ [];
    next_index = s.next_index + 1;
    segment = some s.next_index;
  }

  unfoldable pub enqueue : StreamSession S → ℕ → List ℕ → ℕ → Boundary → Outcome S
  enqueue s i pcm end_sample boundary =
      let s' =
        emit (segment_queued i (segment_at s i).start_sample end_sample boundary)
          (modify i (λ g. record g { terminal = true; end_sample = some end_sample }) s) in
      if leb max_pending_segments (length s.pending)
      then raised session_limit s'
      else done (record s' {
        pending =
            s.pending
            ++ record { segment = i; pcm = pcm; end_sample = end_sample; boundary = boundary } ∷ [];
      })

  -- The next segment starts where a split one ends.
  unfoldable pub reopen : Segmenter.Boundary → ℕ → StreamSession S → StreamSession S
  unfolding open_segment
  reopen Segmenter.Boundary.max_duration end_sample s =
      emit (speech_started s.next_index end_sample) (open_segment end_sample s)
  reopen _ end_sample s = s

  unfoldable pub close_segment : StreamSession S → Option ℕ → SegmentClosed → Outcome S
  unfolding enqueue reopen settle_preview_soon
  close_segment s (some i) c = do
    s' ←
        enqueue (settle_preview_soon (record s { segment = none }) i) i c.pcm c.end_sample
          (boundary_of c.boundary)
    done (reopen c.boundary c.end_sample s')
  close_segment s none c = do
    s' ←
        enqueue
          (settle_preview_soon (record (open_segment c.start_sample s) { segment = none })
            s.next_index)
          s.next_index c.pcm c.end_sample (boundary_of c.boundary)
    done (reopen c.boundary c.end_sample s')
