-- ===== src/Stream.antt =====
-- api/stream.py (tea_asr/api/stream.py): the state of one WebSocket session, its segments and the
-- operations on them that its message handlers and its tasks share. The session modelled has no
-- singing labels, no translation and no audio capture, which are opt-in; log lines are left out.
-- A segment object is shared by the session, the queue and the preview: it is an entry of `segments`,
-- and a reference to it is its index. `sent` is what was handed to the event writer, oldest first.
-- Time is a number of the clock's units, and an exception leaves the state that it found.
pub mod Text
pub mod Overlap
pub mod StableLine
pub mod Preview
pub mod Publishing
pub mod History
pub mod Segments
pub mod Frames
pub mod Closing
pub mod Control
pub mod Consumer
pub mod Transcription
pub mod Machine
pub mod Admission
mod Examples
use tea_asr_service.Prelude.{
  ℕ, zero, suc, ◌+◌, ◌-◌, ◌*◌, ◌/◌, Bool, true, false, Option, none, some, List, [], ◌∷◌, ◌++◌, leb,
  if◌then◌else◌, length, get_or,
}
use tea_asr_service.Segmenter
use tea_asr_service.Segmenter.{ContinuousSegmenter}
use tea_asr_service.Context.{ReplacementRule, ContextPlan}
use tea_asr_service.Repetition.{Limits}
use tea_asr_service.Stable.Tracker.{StablePrefixTracker, StableUpdate, tracker}

abbrev pub max_pending_segments : ℕ
max_pending_segments = 16

abbrev pub sample_rate : ℕ
sample_rate = 16000

pub data Boundary : Type 0 where
  silence max_duration stop manual : Boundary

-- The wire codes in use here; `crashed` stands for an exception that is not an ApiError.
pub data ErrorCode : Type 0 where
  protocol_error payload_too_large session_limit unsupported_option conflict queue_full : ErrorCode
  model_unavailable inference_failed inference_timeout internal_error crashed : ErrorCode

pub data SkipReason : Type 0 where
  no_speech empty : SkipReason

pub data Warning : Type 0 where
  private_use_characters repetition_trimmed carry_overlap_stripped carry_overlap_uncertain : Warning
  replacements_applied context_echo punctuation_restored : Warning

pub data PauseReason : Type 0 where
  load backend_error : PauseReason

-- The events with the fields that the session decides; `segment_id` is the index.
pub data SessionEvent : Type 0 where
  session_started : (request_id send_until_sample : ℕ) → SessionEvent
  audio_ack : (received_seq received_sample : ℕ) → SessionEvent
  flow_control : (send_until_sample : ℕ) → SessionEvent
  speech_started : (segment_index start_sample : ℕ) → SessionEvent
  segment_queued : (segment_index start_sample end_sample : ℕ) (boundary : Boundary) → SessionEvent
  audio_committed : (request_id : ℕ) (segment : Option ℕ) → SessionEvent
  transcript_partial :
      (segment_index revision start_sample end_sample : ℕ) (text : List ℕ) (warnings : List Warning)
      → SessionEvent
  transcript_final :
      (segment_index revision start_sample end_sample : ℕ) (text raw_text : List ℕ)
      (warnings : List Warning)
      → SessionEvent
  transcript_stable :
      (segment_index stable_revision source_revision end_sample : ℕ) (update : StableUpdate)
      → SessionEvent
  segment_skipped : (segment_index : ℕ) (reason : SkipReason) → SessionEvent
  segment_error : (segment_index : ℕ) (code : ErrorCode) → SessionEvent
  preview_status : (reason : PauseReason) → SessionEvent
  pong : (request_id : ℕ) → SessionEvent
  error : (code : ErrorCode) (request_id : Option ℕ) → SessionEvent
  session_stopped : (request_id : ℕ) (last_seq : Option ℕ) (failed_segments : List ℕ) → SessionEvent
  session_cancelled : (request_id : ℕ) → SessionEvent

-- The wire's status is `completed_with_errors` if `failed_segments` is not empty.
pub record Segment : Type 0 where
  pub index : ℕ
  pub start_sample : ℕ
  pub revision : ℕ
  pub published_preview_end : ℕ
  pub terminal : Bool
  pub stable : Option StablePrefixTracker
  pub stable_revision : ℕ
  pub stable_end_sample : ℕ
  pub context_domain : Option (List ℕ)
  pub replacements : List ReplacementRule
  pub end_sample : Option ℕ
  pub carry_pcm : List ℕ

pub record ClosedSegment : Type 0 where
  pub segment : ℕ
  pub pcm : List ℕ
  pub end_sample : ℕ
  pub boundary : Boundary

-- Where the preview's task awaits: the worker, or the restoration of the punctuation of a text.
pub data PreviewPhase : Type 0 where
  decoding : PreviewPhase
  restoring : (text : List ℕ) (replacement_count : ℕ) → PreviewPhase

pub record PreviewTask : Type 0 where
  pub snapshot : List ℕ
  pub end_sample : ℕ
  pub segment : ℕ
  pub phase : PreviewPhase

pub record PreviewState : Type 0 where
  pub task : Option PreviewTask
  pub pending : Bool
  pub last_started : ℕ
  pub last_decode : ℕ
  pub timer : Option ℕ

-- Seconds are in units of the clock, and what is rounded to samples is in samples.
-- `load_gap` is the float product `preview_load_factor * seconds`.
pub record SessionConfig : Type 0 where
  pub continuous : Bool
  pub revisable : Bool
  pub stable_agreement : Option ℕ
  pub context_plan : Option ContextPlan
  pub filter_pua : Bool
  pub limits : Limits
  pub carry_context_samples : ℕ
  pub carry_context_max_gap_samples : ℕ
  pub audio_history_max_samples : ℕ
  pub preview_min_audio_samples : ℕ
  pub preview_min_interval : ℕ
  pub preview_max_load_gap : ℕ
  pub load_gap : ℕ → ℕ
  pub tail_margin : Option ℕ

pub data ControlKey : Type 0 where
  start ping : ControlKey
  commit : ℕ → ControlKey
  stop : Option ℕ → ControlKey

pub record StreamSession (S : Type 0) : Type 0 where
  pub config : SessionConfig
  pub next_seq : ℕ
  pub next_sample : ℕ
  pub send_until_sample : ℕ
  pub pcm : List ℕ
  pub segment : Option ℕ
  pub next_index : ℕ
  pub segments : List Segment
  pub failed_segments : List ℕ
  pub cancelled : Bool
  pub closing : Bool
  pub segmenter : Option (ContinuousSegmenter S)
  pub pending : List ClosedSegment
  pub preview : PreviewState
  pub previous_final : Option (ℕ × List ℕ)
  pub audio_history : List ℕ
  pub audio_history_start_sample : ℕ
  pub control_acks : List (ℕ × ControlKey)
  pub sent : List SessionEvent

pub data Outcome (S : Type 0) : Type 0 where
  done : StreamSession S → Outcome S
  raised : ErrorCode → StreamSession S → Outcome S

infixl 5 ◌>>=◌
abbrev pub ◌>>=◌ : {S : Type 0} → Outcome S → (StreamSession S → Outcome S) → Outcome S
done s >>= f = f s
raised e s >>= f = raised e s

abbrev pub update_at : (Segment → Segment) → ℕ → List Segment → List Segment
update_at f i [] = []
update_at f zero (g ∷ gs) = f g ∷ gs
update_at f (suc i) (g ∷ gs) = g ∷ update_at f i gs

-- What a dangling reference would read; there is none.
abbrev pub no_segment : Segment
no_segment = record {
  index = 0;
  start_sample = 0;
  revision = 0;
  published_preview_end = 0;
  terminal = true;
  stable = none;
  stable_revision = 0;
  stable_end_sample = 0;
  context_domain = none;
  replacements = [];
  end_sample = none;
  carry_pcm = [];
}

abbrev pub domain_of : Option ContextPlan → Option (List ℕ)
domain_of none = none
domain_of (some plan) = plan.domain

abbrev pub rules_of : Option ContextPlan → List ReplacementRule
rules_of none = []
rules_of (some plan) = plan.replacements

-- The wire has checked the agreement, so the tracker's ValueError is no case here.
abbrev pub tracker_of : Option ℕ → Option StablePrefixTracker
tracker_of none = none
tracker_of (some agreement) = tracker agreement

abbrev pub boundary_of : Segmenter.Boundary → Boundary
boundary_of Segmenter.Boundary.silence = Boundary.silence
boundary_of Segmenter.Boundary.max_duration = Boundary.max_duration
boundary_of Segmenter.Boundary.stop = Boundary.stop

module _ {S : Type 0} where
  abbrev pub segment_at : StreamSession S → ℕ → Segment
  segment_at s i = get_or s.segments i no_segment

  abbrev pub emit : SessionEvent → StreamSession S → StreamSession S
  emit e s = record s { sent = s.sent ++ e ∷ [] }

  abbrev pub modify : ℕ → (Segment → Segment) → StreamSession S → StreamSession S
  modify i f s = record s { segments = update_at f i s.segments }
