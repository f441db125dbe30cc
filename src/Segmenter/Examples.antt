-- ===== src/Segmenter/Examples.antt =====
-- The segmenter of segmenter.py on a short stream, and its theorems there.
use tea_asr_service.Prelude.{
  ℕ, ◌+◌, ◌<◌, ◌≡◌, refl, List, [], ◌∷◌, ◌++◌, arith, replicate, slice, some,
}
use mathlib.Core.List.{map}
use tea_asr_service.Segmenter.{
  SegmenterConfig, SegmenterEvent, speech_started, segment_closed, Result, ok, raised,
  ContinuousSegmenter, State, init, onset, confirm, close, open_segment_audio,
}
use tea_asr_service.Segmenter.Machine.{
  push, flush, step, windows, analyse, scored, trim, step_silence, step_pending, step_speech,
  limit_length, window_at,
}
use tea_asr_service.Segmenter.Invariant.{Returns, Follows, IsValid, span}
use tea_asr_service.Segmenter.Stream.{push-Kept}
use tea_asr_service.Segmenter.Session.{
  session, joined, session-Follows, window_at-span, open_segment_audio-span,
}

abbrev config : SegmenterConfig
config = record {
  min_speech_ms = 32;
  end_silence_ms = 64;
  pre_roll_ms = 8;
  tail_ms = 16;
  max_segment_ms = 320;
  threshold = 50;
  neg_threshold = 35;
  onset_threshold = 20;
  split_search_ms = 64;
  split_grace_ms = 96;
}

-- A window's score is its first byte.
abbrev first_byte : List ℕ → ℕ → ℕ × ℕ
first_byte [] calls = (0, calls + 1)
first_byte (b ∷ window) calls = (b, calls + 1)

abbrev windows_of : List ℕ → List (List ℕ)
windows_of = map (replicate 1024)

abbrev ranges : List SegmenterEvent → List (ℕ × ℕ)
ranges [] = []
ranges (speech_started a ∷ events) = ranges events
ranges (segment_closed c ∷ events) = (c.start_sample, c.end_sample) ∷ ranges events

abbrev ranges_of :
    {S : Type 0} → Result (ContinuousSegmenter S × List SegmenterEvent) → List (ℕ × ℕ)
ranges_of (ok r) = ranges r.1
ranges_of (raised e) = []

abbrev talk : List ℕ
talk = 10 ∷ 90 ∷ 90 ∷ 5 ∷ 5 ∷ 5 ∷ 80 ∷ []

-- The pre-roll, the tail, and the silence between the two utterances, on the sample clock.
session-talk :
    ranges_of (session first_byte config 0 0 (windows_of talk)) ≡ (384, 1792) ∷ (2944, 3584) ∷ []
unfolding session init push flush windows analyse step scored step_silence step_pending step_speech
    window_at slice trim confirm onset close limit_length
session-talk = refl

session-Follows_example :
    Returns
      (λ r. Follows 0 (joined (windows_of talk)) 0 r.1 r.0.committed_end)
      (session first_byte config 0 0 (windows_of talk))
session-Follows_example = session-Follows first_byte config 0 0 (windows_of talk) (omega arith)

-- In the middle of an utterance, with a full window that waits.
abbrev speaking : ContinuousSegmenter ℕ
speaking = record (init config 0 0) {
  buffer = replicate 4096 7;
  cursor = 1024;
  next_sample = 2048;
  state = State.speech;
  segment_start = some 384;
}

speaking-IsValid : IsValid 0 (replicate 4096 7) speaking
unfolding init
speaking-IsValid = record {
  starts = omega arith;
  buffered = omega arith;
  analysed = omega arith;
  clock = omega arith;
  holds = refl;
  committed = omega arith;
  phase = omega arith;
}

window_at-span_example : window_at speaking ≡ span 0 (replicate 4096 7) 1024 1536
window_at-span_example =
    window_at-span 0 (replicate 4096 7) speaking speaking-IsValid (unfold init in omega arith)

open_segment_audio-span_example :
    (speaking.segment_start ≡ some 384)
    × (384 < speaking.cursor)
    × (replicate 1280 7 ≡ span 0 (replicate 4096 7) 384 1024)
open_segment_audio-span_example =
    open_segment_audio-span 0 (replicate 4096 7) speaking 384 (replicate 1280 7) speaking-IsValid
      (unfold init open_segment_audio slice in refl)

push-Kept_example :
    Returns
      (λ r.
        IsValid 0 (replicate 4096 7 ++ replicate 2048 90) r.0
        × Follows 0 (replicate 4096 7 ++ replicate 2048 90) 0 r.1 r.0.committed_end
        × (r.0.next_sample < r.0.cursor + 512)
        × (r.0.next_sample ≡ 3072))
      (push first_byte speaking (replicate 2048 90))
unfolding init
push-Kept_example =
    push-Kept first_byte 0 (replicate 4096 7) (replicate 2048 90) speaking speaking-IsValid
      (omega arith)
