-- ===== src/Stream/Machine/Ledger/Handling.antt =====
-- `_handle_frame` of api/stream.py (tea_asr/api/stream.py) in the books of a segment.
use tea_asr_service.Prelude.{
  ℕ, ◌+◌, ◌*◌, refl, Bool, true, false, ◌||◌, Option, none, some, List, [], ◌∷◌, ◌++◌, arith, leb,
  ltb, if◌then◌else◌, length, min,
}
use tea_asr_service.Segmenter
use tea_asr_service.Segmenter.{SegmenterEvent, SegmentClosed, ContinuousSegmenter}
use tea_asr_service.Segmenter.Machine.{push}
use tea_asr_service.Stream.{
  StreamSession, Outcome, done, raised, protocol_error, payload_too_large, audio_ack, flow_control,
}
use tea_asr_service.Stream.History.{remember_audio, trim_history, history_for}
use tea_asr_service.Stream.Frames.{
  on_event, on_events, pushed, refill, ensure_segment, extend_utterance, acknowledge, advance_with,
  advance_continuous, take_audio, frame_error, handle_frame, pcm_of, start_of,
  max_utterance_pcm_bytes, max_safe_int, flow_window_refill_samples, flow_window_low_water_samples,
}
use tea_asr_service.Stream.Machine.Ledger.{
  IsSame, IsSame-refl, IsSame-trans, IsSame-emit, IsSame-if, IsSame-of,
}
use tea_asr_service.Stream.Machine.Ledger.Previews.{maybe_schedule_preview-IsSame}
use tea_asr_service.Stream.Machine.Ledger.Closes.{
  HasBooks, HasBooks-IsSame, Settles, Settles->>=, with_slack, open_segment-HasBooks,
  close_segment-Settles,
}

module _ {S : Type 0} (i : ℕ) where
  on_event-Settles :
      (s : StreamSession S) (event : SegmenterEvent) {h : ℕ}
      → HasBooks i h 0 s
      → Settles i h (on_event s event)
  unfolding on_event
  on_event-Settles s (Segmenter.speech_started a) b =
      HasBooks-IsSame i (open_segment-HasBooks i s a b) (IsSame-emit i _ _ refl refl refl)
  on_event-Settles s (Segmenter.segment_closed c) b = close_segment-Settles i s s.segment c refl b

  on_events-Settles :
      (s : StreamSession S) (events : List SegmenterEvent) {h : ℕ}
      → HasBooks i h 0 s
      → Settles i h (on_events s events)
  unfolding on_events
  on_events-Settles s [] b = b
  on_events-Settles s (event ∷ events) {h} b =
      Settles->>= i h _ _ (on_event-Settles s event b) (λ q k. on_events-Settles q events k)

  trim_history-IsSame : (n : ℕ) (s : StreamSession S) → IsSame i s (trim_history n s)
  unfolding trim_history
  trim_history-IsSame n s = ground arith

  history_for-IsSame :
      (history : List ℕ) (a : ℕ) (s : StreamSession S) → IsSame i s (history_for history a s)
  unfolding history_for
  history_for-IsSame [] a s = IsSame-of i s _ refl refl refl refl refl
  history_for-IsSame (b ∷ history) a s = ground arith

  remember_audio-IsSame :
      (a : ℕ) (pcm : List ℕ) (s : StreamSession S) → IsSame i s (remember_audio a pcm s)
  unfolding remember_audio
  remember_audio-IsSame a pcm s =
      let s' = history_for s.audio_history a s in
      let grown = record s' { audio_history = s'.audio_history ++ pcm } in
      IsSame-if i (leb s.config.audio_history_max_samples 0 || leb (length pcm) 0) (IsSame-refl i s)
        (IsSame-trans i (history_for-IsSame s.audio_history a s) (
          IsSame-trans i (IsSame-of i s' grown refl refl refl refl refl)
            (trim_history-IsSame (s.config.audio_history_max_samples * 2) grown)))

  refill-IsSame : (s : StreamSession S) → IsSame i s (refill s)
  unfolding refill
  refill-IsSame s =
      let until = min max_safe_int (s.next_sample + flow_window_refill_samples) in
      let s' = record s { send_until_sample = until } in
      IsSame-if i (leb s.send_until_sample (s.next_sample + flow_window_low_water_samples))
        (IsSame-trans i (IsSame-of i s s' refl refl refl refl refl)
          (IsSame-emit i s' (flow_control until) refl refl refl))
        (IsSame-refl i s)

  acknowledge-IsSame :
      (seq end_sample now : ℕ) (s : StreamSession S) → IsSame i s (acknowledge seq end_sample now s)
  unfolding acknowledge
  acknowledge-IsSame seq end_sample now s =
      IsSame-trans i (IsSame-of i s _ refl refl refl refl refl) (
        IsSame-trans i (IsSame-emit i _ (audio_ack seq end_sample) refl refl refl)
          (IsSame-trans i (refill-IsSame _) (maybe_schedule_preview-IsSame i _ now)))

  ensure_segment-HasBooks :
      (a : ℕ) (o : Option ℕ) (s : StreamSession S) {h : ℕ}
      → HasBooks i h 0 s
      → HasBooks i h 0 (ensure_segment a o s)
  unfolding ensure_segment
  ensure_segment-HasBooks a none s b = open_segment-HasBooks i s a b
  ensure_segment-HasBooks a (some j) s b = b

  pub Settles-if :
      (test : Bool) (h : ℕ) (x y : Outcome S)
      → Settles i h x
      → Settles i h y
      → Settles i h (if test then x else y)
  Settles-if true h x y a b = a
  Settles-if false h x y a b = b

  extend_utterance-Settles :
      (s : StreamSession S) (a : ℕ) (pcm : List ℕ) {h : ℕ}
      → HasBooks i h 0 s
      → Settles i h (extend_utterance s a pcm)
  unfolding extend_utterance
  extend_utterance-Settles s a pcm {h} b =
      let s' = ensure_segment a s.segment s in
      Settles-if (ltb max_utterance_pcm_bytes (length s.pcm + length pcm)) h
        (raised payload_too_large s) (done (record s' { pcm = s'.pcm ++ pcm }))
        (with_slack i b, cc, cc)
        (HasBooks-IsSame i (ensure_segment-HasBooks a s.segment s b)
          (IsSame-of i s' _ refl refl refl refl refl))

  pushed-Settles :
      (s : StreamSession S) (r : Segmenter.Result (ContinuousSegmenter S × List SegmenterEvent))
      {h : ℕ}
      → HasBooks i h 0 s
      → Settles i h (pushed s r)
  unfolding pushed
  pushed-Settles s (Segmenter.ok (segmenter, events)) b =
      on_events-Settles _ events (HasBooks-IsSame i b (IsSame-of i s _ refl refl refl refl refl))
  pushed-Settles s (Segmenter.raised e) b = (b, cc, cc)

  module _ (probability : List ℕ → S → ℕ × S) where
    advance_with-Settles :
        (s : StreamSession S) (o : Option (ContinuousSegmenter S)) (pcm : List ℕ) {h : ℕ}
        → HasBooks i h 0 s
        → Settles i h (advance_with probability s o pcm)
    unfolding advance_with
    advance_with-Settles s none pcm b = (b, cc, cc)
    advance_with-Settles s (some segmenter) pcm b =
        pushed-Settles s (push probability segmenter pcm) b

    take_audio-Settles :
        (s : StreamSession S) (a : ℕ) (pcm : List ℕ) {h : ℕ}
        → HasBooks i h 0 s
        → Settles i h (take_audio probability s a pcm)
    unfolding take_audio advance_continuous
    take_audio-Settles s a pcm {h} b =
        Settles-if s.config.continuous h _ _ (advance_with-Settles s s.segmenter pcm b)
          (extend_utterance-Settles s a pcm b)

    pub handle_frame-Settles :
        (s : StreamSession S) (now : ℕ) (frame : List ℕ) {h : ℕ}
        → HasBooks i h 0 s
        → Settles i h (handle_frame probability s now frame)
    unfolding handle_frame
    handle_frame-Settles s now frame {h} b =
        Settles-if (frame_error probability s frame) h (raised protocol_error s) _
          (with_slack i b, cc, cc)
          (Settles->>= i h _ _
            (take_audio-Settles _ (start_of frame) (pcm_of frame)
              (HasBooks-IsSame i b (remember_audio-IsSame (start_of frame) (pcm_of frame) s)))
            (λ q k. HasBooks-IsSame i k (acknowledge-IsSame _ _ now q)))
