-- ===== src/Stream/Closing.antt =====
-- `_close_open_audio` of api/stream.py (tea_asr/api/stream.py), cut where it awaits the preview.
use tea_asr_service.Prelude.{ℕ, Bool, true, false, Option, none, some, List, [], ◌∷◌, if◌then◌else◌}
use tea_asr_service.Segmenter
use tea_asr_service.Segmenter.{SegmenterEvent, ContinuousSegmenter}
use tea_asr_service.Segmenter.Machine.{flush}
use tea_asr_service.Stream.{
  StreamSession, Boundary, ControlKey, stop, Outcome, done, raised, crashed, audio_committed, emit,
}
use tea_asr_service.Stream.Preview.{settle_preview_soon, settle_preview}
use tea_asr_service.Stream.Segments.{open_segment, enqueue}

abbrev pub active_of : Option ℕ → ℕ → ℕ
active_of none next_index = next_index
active_of (some i) next_index = i

abbrev pub boundary_for : ControlKey → Boundary
boundary_for (stop last) = Boundary.stop
boundary_for _ = Boundary.manual

module _ {S : Type 0} where
  unfoldable pub close_begin : StreamSession S → Option ℕ → StreamSession S
  unfolding settle_preview settle_preview_soon
  close_begin s none = settle_preview s
  close_begin s (some i) = settle_preview (settle_preview_soon s i)

  unfoldable pub ensure_open : ℕ → Option ℕ → StreamSession S → StreamSession S
  unfolding open_segment
  ensure_open start_sample none s = open_segment start_sample s
  ensure_open start_sample (some i) s = s

  -- The loop over what `flush` gave; whether it closed a segment comes with it.
  unfoldable pub flushed : StreamSession S → List SegmenterEvent → Bool → Outcome S × Bool
  unfolding ensure_open enqueue
  flushed s [] closed_any = (done s, closed_any)
  flushed s (Segmenter.speech_started a ∷ events) closed_any = flushed s events closed_any
  flushed s (Segmenter.segment_closed c ∷ events) closed_any =
      let s' = record (ensure_open c.start_sample s.segment s) { segment = none } in
      let rest = λ (q : StreamSession S). flushed q events true in
      elim (enqueue s' (active_of s.segment s.next_index) c.pcm c.end_sample Boundary.stop) [
        | done q ↦ rest q
        | raised e q ↦ (raised e q, true)
      ]

  -- if not closed_any and boundary == "stop"
  unfoldable pub report_none : ℕ → ControlKey → Outcome S × Bool → Outcome S
  report_none request_id (stop last) (done s, false) =
      done (emit (audio_committed request_id none) s)
  report_none request_id key (outcome, closed_any) = outcome

  unfoldable pub close_continuous :
      StreamSession S
      → ℕ
      → ControlKey
      → Segmenter.Result (ContinuousSegmenter S × List SegmenterEvent)
      → Outcome S
  unfolding report_none flushed
  close_continuous s request_id key (Segmenter.raised e) = raised crashed s
  close_continuous s request_id key (Segmenter.ok (segmenter, events)) =
      report_none request_id key (flushed (record s { segmenter = some segmenter }) events false)

  unfoldable pub close_utterance : StreamSession S → Option ℕ → List ℕ → ℕ → ControlKey → Outcome S
  unfolding enqueue
  close_utterance s none pcm request_id key = done (emit (audio_committed request_id none) s)
  close_utterance s (some i) [] request_id key = done (emit (audio_committed request_id none) s)
  close_utterance s (some i) (b ∷ pcm) request_id key =
      enqueue (record (emit (audio_committed request_id (some i)) s) { pcm = []; segment = none }) i
        (b ∷ pcm) s.next_sample (boundary_for key)

  unfoldable pub flush_of :
      Option (ContinuousSegmenter S)
      → Segmenter.Result (ContinuousSegmenter S × List SegmenterEvent)
  flush_of none = Segmenter.raised Segmenter.assertion_failed
  flush_of (some segmenter) = flush segmenter

  -- `_close_open_audio` behind its wait
  unfoldable pub close_open_audio : StreamSession S → Option ℕ → ℕ → ControlKey → Outcome S
  unfolding close_continuous close_utterance flush_of
  close_open_audio s segment request_id key =
      if s.config.continuous
      then close_continuous s request_id key (flush_of s.segmenter)
      else close_utterance s segment s.pcm request_id key
