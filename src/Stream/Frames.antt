-- ===== src/Stream/Frames.antt =====
-- Binary frames of api/stream.py (tea_asr/api/stream.py): the header, the sample clock, the flow
-- control, and the segments that the audio opens and closes.
pub mod Clock
pub mod Flow
pub mod Refusal
pub mod Runs
use tea_asr_service.Prelude.{
  ℕ, zero, suc, ◌+◌, ◌*◌, ◌/◌, ◌%◌, min, Bool, true, false, ◌||◌, not, Option, none, some, List, [],
  ◌∷◌, ◌++◌, ltb, leb, ◌==◌, if◌then◌else◌, length, take, drop,
}
use tea_asr_service.Segmenter
use tea_asr_service.Segmenter.{SegmenterEvent, ContinuousSegmenter}
use tea_asr_service.Segmenter.Machine.{push}
use tea_asr_service.Stream.{
  StreamSession, Outcome, done, raised, ◌>>=◌, protocol_error, payload_too_large, crashed,
  audio_ack, flow_control, speech_started, emit,
}
use tea_asr_service.Stream.Preview.{maybe_schedule_preview}
use tea_asr_service.Stream.History.{remember_audio}
use tea_asr_service.Stream.Segments.{open_segment, close_segment}

abbrev pub frame_header_bytes : ℕ
frame_header_bytes = 16

abbrev pub max_frame_pcm_bytes : ℕ
max_frame_pcm_bytes = 6400

abbrev pub max_utterance_pcm_bytes : ℕ
max_utterance_pcm_bytes = 960000

abbrev pub max_safe_int : ℕ
max_safe_int = 9007199254740991

abbrev pub flow_window_refill_samples : ℕ
flow_window_refill_samples = 80000

abbrev pub flow_window_low_water_samples : ℕ
flow_window_low_water_samples = 40000

-- struct.unpack("<Q")
unfoldable pub u64_le : List ℕ → ℕ
u64_le [] = 0
u64_le (b ∷ bytes) = b + 256 * u64_le bytes

abbrev pub seq_of : List ℕ → ℕ
seq_of frame = u64_le (take 8 frame)

abbrev pub start_of : List ℕ → ℕ
start_of frame = u64_le (take 8 (drop 8 frame))

abbrev pub pcm_of : List ℕ → List ℕ
pcm_of frame = drop frame_header_bytes frame

module _ {S : Type 0} where
  unfoldable pub on_event : StreamSession S → SegmenterEvent → Outcome S
  unfolding close_segment open_segment
  on_event s (Segmenter.speech_started start_sample) =
      done (emit (speech_started s.next_index start_sample) (open_segment start_sample s))
  on_event s (Segmenter.segment_closed c) = close_segment s s.segment c

  unfoldable pub on_events : StreamSession S → List SegmenterEvent → Outcome S
  unfolding on_event
  on_events s [] = done s
  on_events s (event ∷ events) = do s' ← on_event s event; on_events s' events

  unfoldable pub pushed :
      StreamSession S → Segmenter.Result (ContinuousSegmenter S × List SegmenterEvent) → Outcome S
  unfolding on_events
  pushed s (Segmenter.ok (segmenter, events)) =
      on_events (record s { segmenter = some segmenter }) events
  pushed s (Segmenter.raised e) = raised crashed s

  -- The window refilled, when little of it is left
  unfoldable pub refill : StreamSession S → StreamSession S
  refill s =
      let until = min max_safe_int (s.next_sample + flow_window_refill_samples) in
      if leb s.send_until_sample (s.next_sample + flow_window_low_water_samples)
      then emit (flow_control until) (record s { send_until_sample = until })
      else s

  -- An utterance has one segment, of all the audio up to `audio.commit`.
  unfoldable pub ensure_segment : ℕ → Option ℕ → StreamSession S → StreamSession S
  ensure_segment start_sample none s = open_segment start_sample s
  ensure_segment start_sample (some i) s = s

  unfoldable pub extend_utterance : StreamSession S → ℕ → List ℕ → Outcome S
  unfolding ensure_segment
  extend_utterance s start_sample pcm =
      let s' = ensure_segment start_sample s.segment s in
      if ltb max_utterance_pcm_bytes (length s.pcm + length pcm)
      then raised payload_too_large s
      else done (record s' { pcm = s'.pcm ++ pcm })

  -- The clock after a frame, and what it is answered with
  unfoldable pub acknowledge : ℕ → ℕ → ℕ → StreamSession S → StreamSession S
  unfolding refill
  acknowledge seq end_sample now s =
      maybe_schedule_preview
        (refill (
          emit (audio_ack seq end_sample)
            (record s { next_seq = s.next_seq + 1; next_sample = end_sample })))
        now

  module _ (probability : List ℕ → S → ℕ × S) where
    unfoldable pub advance_with :
        StreamSession S → Option (ContinuousSegmenter S) → List ℕ → Outcome S
    unfolding pushed
    advance_with s none pcm = raised crashed s
    advance_with s (some segmenter) pcm = pushed s (push probability segmenter pcm)

    unfoldable pub advance_continuous : StreamSession S → List ℕ → Outcome S
    unfolding advance_with
    advance_continuous s pcm = advance_with s s.segmenter pcm

    unfoldable pub take_audio : StreamSession S → ℕ → List ℕ → Outcome S
    unfolding advance_continuous extend_utterance
    take_audio s start_sample pcm =
        if s.config.continuous
        then advance_continuous s pcm
        else extend_utterance s start_sample pcm

    -- The checks of the header, up to the flow-control window
    unfoldable pub frame_error : StreamSession S → List ℕ → Bool
    frame_error s frame =
        leb (length frame) frame_header_bytes
        || ltb max_frame_pcm_bytes (length (pcm_of frame))
        || not (length (pcm_of frame) % 2 == 0)
        || ltb max_safe_int (seq_of frame)
        || ltb max_safe_int (start_of frame)
        || not (seq_of frame == s.next_seq)
        || not (start_of frame == s.next_sample)
        || ltb s.send_until_sample (start_of frame + length (pcm_of frame) / 2)

    unfoldable pub handle_frame : StreamSession S → ℕ → List ℕ → Outcome S
    unfolding frame_error take_audio remember_audio acknowledge
    handle_frame s now frame =
        let start = start_of frame in
        let pcm = pcm_of frame in
        let taken = (do
          s' ← take_audio (remember_audio start pcm s) start pcm
          done (acknowledge (seq_of frame) (start + length pcm / 2) now s')) in
        if frame_error s frame then raised protocol_error s else taken
