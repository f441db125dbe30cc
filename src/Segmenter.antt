-- ===== src/Segmenter.antt =====
-- segmenter.py (tea_asr/segmenter.py): a continuous stream of 16 kHz PCM cut into segments.
-- A score is a natural number: every double in [0, 1] is a multiple of 2 ^ -1074, and the code only
-- compares scores. The VAD (vad.py, an ONNX model) is the function `probability` from the bytes of a
-- window and the VAD's own state to a score and the next state. A failed `assert` is an error value.
pub mod Machine
pub mod Invariant
pub mod Steps
pub mod Stream
pub mod Session
mod Examples
use tea_asr_service.Prelude.{
  ℕ, zero, suc, ◌+◌, ◌-◌, ◌*◌, ◌/◌, ◌%◌, min, max, Bool, true, false, ◌&&◌, not, Option, none, some,
  List, [], ◌∷◌, ◌++◌, leb, ltb, ◌==◌, if◌then◌else◌, length, take, drop, ℤ, sub_ℕ, ◌+ℤ◌, slice,
}

abbrev pub vad_window_samples : ℕ
vad_window_samples = 512

-- deque(maxlen=512)
abbrev pub recent_windows : ℕ
recent_windows = 512

pub data Boundary : Type 0 where
  silence max_duration stop : Boundary

pub data State : Type 0 where
  silence pending speech : State

pub record SegmentClosed : Type 0 where
  pub start_sample : ℕ
  pub end_sample : ℕ
  pub pcm : List ℕ
  pub boundary : Boundary

pub data SegmenterEvent : Type 0 where
  speech_started : (start_sample : ℕ) → SegmenterEvent
  segment_closed : SegmentClosed → SegmenterEvent

pub record SegmenterConfig : Type 0 where
  pub min_speech_ms : ℕ
  pub end_silence_ms : ℕ
  pub pre_roll_ms : ℕ
  pub tail_ms : ℕ
  pub max_segment_ms : ℕ
  pub threshold : ℕ
  pub neg_threshold : ℕ
  pub onset_threshold : ℕ
  pub split_search_ms : ℕ
  pub split_grace_ms : ℕ

unfoldable pub samples : ℕ → ℕ
samples milliseconds = milliseconds * 16

unfoldable pub hard_cap_ms : SegmenterConfig → ℕ
hard_cap_ms config = config.max_segment_ms + config.split_grace_ms

-- The ways a call may fail; `out_of_fuel` is the model's own.
pub data Error : Type 0 where
  odd_length assertion_failed out_of_fuel : Error

pub data Result (A : Type 0) : Type 0 where
  ok : A → Result A
  raised : Error → Result A

infixl 5 ◌>>=◌
abbrev pub ◌>>=◌ : {A B : Type 0} → Result A → (A → Result B) → Result B
ok a >>= f = f a
raised e >>= f = raised e

-- `recent` holds (window start, score), newest first.
pub record ContinuousSegmenter (VadSession : Type 0) : Type 0 where
  pub config : SegmenterConfig
  pub vad_session : VadSession
  pub buffer : List ℕ
  pub buffer_start : ℕ
  pub cursor : ℕ
  pub next_sample : ℕ
  pub state : State
  pub candidate_start : Option ℕ
  pub pending_speech_samples : ℕ
  pub segment_start : Option ℕ
  pub last_speech_end : ℕ
  pub trailing_silence : ℕ
  pub committed_end : ℕ
  pub recent : List (ℕ × ℕ)

-- min(candidates), over (score, window start)
quieter : ℕ × ℕ → Option (ℕ × ℕ) → ℕ × ℕ
quieter c none = c
quieter (p, w) (some (q, v)) =
    if ltb p q then (p, w) else if p == q && ltb w v then (p, w) else (q, v)

unfoldable pub quietest : ℕ → ℕ → List (ℕ × ℕ) → Option (ℕ × ℕ)
unfolding quieter
quietest earliest limit [] = none
quietest earliest limit ((window_start, p) ∷ recent) =
    let rest = quietest earliest limit recent in
    if leb earliest window_start && ltb window_start limit
    then some (quieter (p, window_start) rest)
    else rest

split_at : ℕ → ℕ → Option (ℕ × ℕ) → ℕ
split_at neg_threshold limit none = limit
split_at neg_threshold limit (some (p, window_start)) =
    if leb neg_threshold p then limit else window_start

-- The walk back from the candidate, over `recent` from the newest window on.
unfoldable pub onset : ℕ → ℕ → List (ℕ × ℕ) → ℕ
onset threshold from [] = from
onset threshold from ((window_start, p) ∷ recent) =
    let skip = onset threshold from recent in
    let back = onset threshold window_start recent in
    if leb from window_start then skip else if ltb p threshold then from else back

module _ {S : Type 0} where
  unfoldable pub init : SegmenterConfig → S → ℕ → ContinuousSegmenter S
  init config new start_sample = record {
    config = config;
    vad_session = new;
    buffer = [];
    buffer_start = start_sample;
    cursor = start_sample;
    next_sample = start_sample;
    state = State.silence;
    candidate_start = none;
    pending_speech_samples = 0;
    segment_start = none;
    last_speech_end = start_sample;
    trailing_silence = 0;
    committed_end = start_sample;
    recent = [];
  }

  -- (sample - self._buffer_start) * 2
  abbrev pub offset : ContinuousSegmenter S → ℕ → ℤ
  offset s sample = sub_ℕ (sample * 2) (s.buffer_start * 2)

  -- The audio of the segment that is being spoken, up to the last analysed window.
  unfoldable pub open_audio : ContinuousSegmenter S → State → Option ℕ → Option (ℕ × List ℕ)
  open_audio s State.speech (some start) =
      if leb s.cursor start
      then none
      else some (
        start,
        slice s.buffer (offset s start) (offset s start +ℤ sub_ℕ (s.cursor * 2) (start * 2)),
      )
  open_audio s _ _ = none

  unfoldable pub open_segment_audio : ContinuousSegmenter S → Option (ℕ × List ℕ)
  unfolding open_audio
  open_segment_audio s = open_audio s s.state s.segment_start

  -- Here and below `max` takes the place of a difference that may fall below 0 in Python: its other
  -- argument is never below 0, so the truncated difference gives the same.
  unfoldable pub quiet_split_point : ContinuousSegmenter S → ℕ → ℕ → ℕ
  unfolding split_at quietest samples
  quiet_split_point s segment_start limit =
      let earliest =
        max (segment_start + samples (s.config.max_segment_ms / 2))
          (limit - samples s.config.split_search_ms) in
      split_at s.config.neg_threshold limit (quietest earliest limit s.recent)

  confirm_from :
      ContinuousSegmenter S → ℕ → Option ℕ → Result (ContinuousSegmenter S × SegmenterEvent)
  confirm_from s end none = raised assertion_failed
  confirm_from s end (some candidate) =
      let start =
        max (max s.buffer_start s.committed_end)
          (onset s.config.onset_threshold candidate s.recent - samples s.config.pre_roll_ms) in
      ok (
        record s {
          state = State.speech;
          segment_start = some start;
          last_speech_end = end;
          trailing_silence = 0;
          candidate_start = none;
          pending_speech_samples = 0;
        },
        speech_started start,
      )

  unfoldable pub confirm :
      ContinuousSegmenter S → ℕ → Result (ContinuousSegmenter S × SegmenterEvent)
  unfolding confirm_from samples
  confirm s end = confirm_from s end s.candidate_start

  -- What `_close` does to the fields when the segment is not split.
  unfoldable pub settle : Boundary → ContinuousSegmenter S → ContinuousSegmenter S
  settle Boundary.max_duration s = s
  settle _ s = record s { state = State.silence; segment_start = none; trailing_silence = 0 }

  unfoldable pub close_end : ContinuousSegmenter S → Option ℕ → ℕ
  close_end s none = min s.next_sample (s.last_speech_end + samples s.config.tail_ms)
  close_end s (some end) = end

  close_from :
      ContinuousSegmenter S
      → Boundary
      → Option ℕ
      → Option ℕ
      → Result (ContinuousSegmenter S × SegmentClosed)
  close_from s boundary end none = raised assertion_failed
  close_from s boundary end (some segment_start) =
      let end' = max (close_end s end) segment_start in
      let start = max segment_start s.buffer_start in
      ok (
        settle boundary (record s { committed_end = end' }),
        record {
          start_sample = start;
          end_sample = end';
          pcm = slice s.buffer (offset s start) (offset s start +ℤ sub_ℕ (end' * 2) (start * 2));
          boundary = boundary;
        },
      )

  unfoldable pub close :
      ContinuousSegmenter S → Boundary → Option ℕ → Result (ContinuousSegmenter S × SegmentClosed)
  unfolding close_from close_end settle samples
  close s boundary end = close_from s boundary end s.segment_start
