-- ===== src/Stream/Preview.antt =====
-- The previews of api/stream.py (tea_asr/api/stream.py): when one starts.
use tea_asr_service.Prelude.{
  ℕ, ◌+◌, ◌/◌, min, max, true, false, ◌||◌, not, Option, none, some, List, [], ◌∷◌, ltb,
  if◌then◌else◌, length,
}
use tea_asr_service.Segmenter.{ContinuousSegmenter, open_segment_audio}
use tea_asr_service.Stream.{StreamSession, decoding, PreviewTask, PreviewState, segment_at, modify}

abbrev pub preview_max_audio_samples : ℕ
preview_max_audio_samples = 240000

-- The audio to decode, and its end on the session's timeline
abbrev pub timed : Option (ℕ × List ℕ) → Option (List ℕ × ℕ)
timed none = none
timed (some (start, pcm)) = some (pcm, start + length pcm / 2)

abbrev pub unless_empty : List ℕ → ℕ → Option (List ℕ × ℕ)
unless_empty [] end = none
unless_empty (b ∷ pcm) end = some (b ∷ pcm, end)

-- `_preview_retry_at`: the timer fires at `at`.
unfoldable pub preview_retry_at : ℕ → Option ℕ → Option ℕ
preview_retry_at at none = some at
preview_retry_at at (some timer) = some timer

module _ {S : Type 0} where
  abbrev pub open_audio_of : Option (ContinuousSegmenter S) → Option (List ℕ × ℕ)
  open_audio_of none = none
  open_audio_of (some segmenter) = timed (open_segment_audio segmenter)

  unfoldable pub current_preview_audio : StreamSession S → Option (List ℕ × ℕ)
  current_preview_audio s =
      if s.config.continuous then open_audio_of s.segmenter else unless_empty s.pcm s.next_sample

  unfoldable pub preview_gap : StreamSession S → ℕ
  preview_gap s =
      max s.config.preview_min_interval
        (min s.config.preview_max_load_gap (s.config.load_gap s.preview.last_decode))

  abbrev pub with_preview : StreamSession S → PreviewState → StreamSession S
  with_preview s p = record s { preview = p }

  unfoldable pub start_preview : StreamSession S → ℕ → ℕ → List ℕ → ℕ → StreamSession S
  start_preview s now i pcm end_sample = with_preview s (record s.preview {
    task = some (record { snapshot = pcm; end_sample = end_sample; segment = i; phase = decoding });
    last_started = now;
    timer = none;
  })

  -- From the test for a running task on
  unfoldable pub schedule_preview :
      StreamSession S → Option PreviewTask → ℕ → ℕ → List ℕ → ℕ → StreamSession S
  unfolding preview_gap preview_retry_at start_preview
  schedule_preview s (some task) now i pcm end_sample =
      with_preview s (record s.preview { pending = true })
  schedule_preview s none now i pcm end_sample =
      let opens = s.preview.last_started + preview_gap s in
      if ltb now opens
      then with_preview s
          (record s.preview { pending = true; timer = preview_retry_at opens s.preview.timer })
      else start_preview s now i pcm end_sample

  unfoldable pub preview_of : StreamSession S → ℕ → Option ℕ → Option (List ℕ × ℕ) → StreamSession S
  unfolding schedule_preview
  preview_of s now none audio = s
  preview_of s now (some i) none = s
  preview_of s now (some i) (some (pcm, end_sample)) =
      let g = segment_at s i in
      if g.terminal
        || ltb preview_max_audio_samples (length pcm / 2)
        || ltb (length pcm / 2) (s.config.preview_min_audio_samples + g.published_preview_end)
      then s
      else schedule_preview s s.preview.task now i pcm end_sample

  unfoldable pub maybe_schedule_preview : StreamSession S → ℕ → StreamSession S
  unfolding preview_of current_preview_audio
  maybe_schedule_preview s now =
      if not s.config.revisable || s.closing || s.cancelled
      then s
      else preview_of s now s.segment (current_preview_audio s)

  -- `fire`
  unfoldable pub fire_timer : StreamSession S → ℕ → StreamSession S
  unfolding maybe_schedule_preview
  fire_timer s now = maybe_schedule_preview (with_preview s (record s.preview { timer = none })) now

  unfoldable pub settle_preview_soon : StreamSession S → ℕ → StreamSession S
  settle_preview_soon s i =
      let s' = modify i (λ g. record g { terminal = true }) s in
      with_preview s' (record s'.preview { pending = false })

  -- `_settle_preview`, up to its wait for the task
  unfoldable pub settle_preview : StreamSession S → StreamSession S
  settle_preview s = with_preview s (record s.preview { pending = false; timer = none })

  -- The `finally` block
  unfoldable pub finish_preview : StreamSession S → ℕ → StreamSession S
  finish_preview s now =
      let s' = with_preview s (record s.preview { task = none; pending = false }) in
      if s.preview.pending then maybe_schedule_preview s' now else s'
