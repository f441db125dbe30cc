-- ===== src/Stream/Machine.antt =====
-- One session of api/stream.py (tea_asr/api/stream.py) at work: the receive loop, the consumer and the
-- preview's task take turns where they await. A schedule is a list of turns; a turn that is not due
-- changes nothing.
pub mod Ledger
pub mod Terminal
use tea_asr_service.Prelude.{
  leb, ℕ, Bool, true, false, Option, none, some, List, [], ◌∷◌, if◌then◌else◌,
}
use tea_asr_service.Stream.{
  StreamSession, ClosedSegment, PreviewTask, PreviewPhase, decoding, restoring, Outcome, done,
  raised, ErrorCode, crashed, PauseReason, SessionConfig, start, session_started,
}
use tea_asr_service.Segmenter.{ContinuousSegmenter}
use tea_asr_service.Stream.Text.{Tables}
use tea_asr_service.Stream.Preview.{fire_timer, finish_preview}
use tea_asr_service.Stream.Publishing.{
  preview_failed, preview_decoded, preview_restored, pause_reason,
}
use tea_asr_service.Stream.Frames.{handle_frame}
use tea_asr_service.Stream.Control.{
  Control, Receiving, listening, settling, draining, cancelling, failing, ended, give_up,
  handle_control, settled, stop_completed, stop_timed_out,
}
use tea_asr_service.Stream.Consumer.{Answer, ConsumerPhase, idle, take_next}
use tea_asr_service.Stream.Consumer
use tea_asr_service.Stream.Transcription.{on_decoded, on_retried, on_restored}

-- What the preview's task hears from the worker; `dropped` is StaleTaskDropped.
pub data PreviewAnswer : Type 0 where
  decoded : (decode : ℕ) (raw : List ℕ) → PreviewAnswer
  refused : (code : ErrorCode) → PreviewAnswer
  dropped broken : PreviewAnswer

pub data Turn : Type 0 where
  frame : (now : ℕ) (bytes : List ℕ) → Turn
  control : (message : Control) → Turn
  preview_gone : Turn
  queue_joined : Turn
  drain_timeout : Turn
  consumer_ready : Turn
  worker_answers : (answer : Answer) → Turn
  text_restored : (text : List ℕ) (changed : Bool) → Turn
  preview_answers : (now : ℕ) (answer : PreviewAnswer) → Turn
  preview_text_restored : (now : ℕ) (text : List ℕ) (changed : Bool) → Turn
  timer_fires : (now : ℕ) → Turn

pub record Running (S : Type 0) : Type 0 where
  pub session : StreamSession S
  pub receiving : Receiving
  pub consumer : ConsumerPhase

-- INITIAL_FLOW_WINDOW_SAMPLES
abbrev pub initial_flow_window_samples : ℕ
initial_flow_window_samples = 80000

-- The session that `run` has started, before the first turn
unfoldable pub start_session :
    {S : Type 0} → SessionConfig → Option (ContinuousSegmenter S) → ℕ → Running S
start_session config segmenter request_id = record {
  session = record {
    config = config;
    next_seq = 0;
    next_sample = 0;
    send_until_sample = initial_flow_window_samples;
    pcm = [];
    segment = none;
    next_index = 0;
    segments = [];
    failed_segments = [];
    cancelled = false;
    closing = false;
    segmenter = segmenter;
    pending = [];
    preview = record {
      task = none;
      pending = false;
      last_started = 0;
      last_decode = 0;
      timer = none;
    };
    previous_final = none;
    audio_history = [];
    audio_history_start_sample = 0;
    control_acks = (request_id, start) ∷ [];
    sent = session_started request_id initial_flow_window_samples ∷ [];
  };
  receiving = listening;
  consumer = idle;
}

module _ {S : Type 0} where
  abbrev pub received : Running S → StreamSession S × Receiving → Running S
  received r (s, receiving) = record r { session = s; receiving = receiving }

  abbrev pub consumed : Running S → StreamSession S × ConsumerPhase → Running S
  consumed r (s, consumer) = record r { session = s; consumer = consumer }

  abbrev pub previewed : Running S → StreamSession S → Running S
  previewed r s = record r { session = s }

  -- An ApiError of a frame ends the session with its event, and another exception without one.
  unfoldable pub after_frame : Outcome S → StreamSession S × Receiving
  after_frame (done s) = (s, listening)
  after_frame (raised crashed s) = (s, ended)
  after_frame (raised code s) = (give_up s, failing code)

  unfoldable pub on_control : Running S → Control → Receiving → Running S
  on_control r message listening = received r (handle_control r.session message)
  on_control r message _ = r

  unfoldable pub on_preview_gone : Running S → Option PreviewTask → Running S
  on_preview_gone r none = received r (settled r.session r.receiving)
  on_preview_gone r (some task) = r

  unfoldable pub on_joined : Running S → Receiving → List ClosedSegment → ConsumerPhase → Running S
  on_joined r (draining request_id last_seq) [] idle =
      received r (stop_completed r.session request_id last_seq)
  on_joined r _ _ _ = r

  unfoldable pub on_ready : Running S → ConsumerPhase → Running S
  on_ready r idle = consumed r (take_next r.session)
  on_ready r _ = r

  unfoldable pub on_timer : StreamSession S → ℕ → Option ℕ → StreamSession S
  on_timer s now none = s
  on_timer s now (some at) = if leb at now then fire_timer s now else s

  module _ (t : Tables) where
    unfoldable pub on_drain_timeout : Running S → Receiving → Running S
    on_drain_timeout r (draining request_id last_seq) =
        received r (stop_timed_out t.unicode r.session request_id last_seq)
    on_drain_timeout r _ = r

    unfoldable pub on_answer : Running S → Answer → ConsumerPhase → Running S
    on_answer r answer (Consumer.decoding closed decode_pcm carried) =
        consumed r (on_decoded t r.session closed carried answer)
    on_answer r answer (Consumer.retrying closed) =
        consumed r (on_retried t r.session closed answer)
    on_answer r answer _ = r

    unfoldable pub on_text : Running S → List ℕ → Bool → ConsumerPhase → Running S
    on_text r text changed (Consumer.restoring closed raw_text old warnings) =
        consumed r (on_restored t r.session closed raw_text warnings text changed)
    on_text r text changed _ = r

    unfoldable pub on_preview :
        StreamSession S → ℕ → PreviewTask → PreviewPhase → PreviewAnswer → StreamSession S
    on_preview s now task decoding (decoded decode raw) = preview_decoded t s now task decode raw
    on_preview s now task decoding (refused code) =
        preview_failed s now task.segment (pause_reason code)
    on_preview s now task decoding dropped = finish_preview s now
    on_preview s now task decoding broken =
        preview_failed s now task.segment PauseReason.backend_error
    on_preview s now task (restoring text count) answer = s

    unfoldable pub on_preview_answer :
        StreamSession S → ℕ → Option PreviewTask → PreviewAnswer → StreamSession S
    unfolding on_preview
    on_preview_answer s now none answer = s
    on_preview_answer s now (some task) answer = on_preview s now task task.phase answer

    unfoldable pub on_preview_phase :
        StreamSession S → ℕ → PreviewTask → PreviewPhase → List ℕ → Bool → StreamSession S
    on_preview_phase s now task decoding text changed = s
    on_preview_phase s now task (restoring old count) text changed =
        preview_restored t s now task text count changed

    unfoldable pub on_preview_text :
        StreamSession S → ℕ → Option PreviewTask → List ℕ → Bool → StreamSession S
    unfolding on_preview_phase
    on_preview_text s now none text changed = s
    on_preview_text s now (some task) text changed =
        on_preview_phase s now task task.phase text changed

    module _ (probability : List ℕ → S → ℕ × S) where
      unfoldable pub on_frame : Running S → ℕ → List ℕ → Receiving → Running S
      unfolding after_frame
      on_frame r now bytes listening =
          received r (after_frame (handle_frame probability r.session now bytes))
      on_frame r now bytes _ = r

      unfoldable pub turn : Running S → Turn → Running S
      turn r (frame now bytes) = on_frame r now bytes r.receiving
      turn r (control message) = on_control r message r.receiving
      turn r preview_gone = on_preview_gone r r.session.preview.task
      turn r queue_joined = on_joined r r.receiving r.session.pending r.consumer
      turn r drain_timeout = on_drain_timeout r r.receiving
      turn r consumer_ready = on_ready r r.consumer
      turn r (worker_answers answer) = on_answer r answer r.consumer
      turn r (text_restored text changed) = on_text r text changed r.consumer
      turn r (preview_answers now answer) =
          previewed r (on_preview_answer r.session now r.session.preview.task answer)
      turn r (preview_text_restored now text changed) =
          previewed r (on_preview_text r.session now r.session.preview.task text changed)
      turn r (timer_fires now) = previewed r (on_timer r.session now r.session.preview.timer)

      unfoldable pub turns : Running S → List Turn → Running S
      unfolding turn
      turns r [] = r
      turns r (turn' ∷ rest) = turns (turn r turn') rest
