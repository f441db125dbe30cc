-- ===== src/Singing/Frames.antt =====
-- `SessionSinging` of tea_asr/singing_session.py: PCM in, calls of the model out. The buffer is a list of
-- bytes. A call of the executor is a `Job`; its return, or its exception, is `computed`.
pub mod Windows
pub mod Calls
use tea_asr_service.Prelude.{
  ℕ, zero, suc, ◌+◌, ◌-◌, ◌*◌, ◌/◌, min, Bool, true, false, not, ◌&&◌, ◌||◌, Option, none, some,
  List, [], ◌∷◌, ◌++◌, ltb, leb, ◌==◌, if◌then◌else◌, length, drop, ℤ, sub_ℕ, slice_index, slice,
}
use tea_asr_service.Singing.Tracker.{complete_frames, patch_samples, hop_samples}

abbrev pub max_backlog_samples : ℕ
max_backlog_samples = 480000

abbrev pub max_frames_per_call : ℕ
max_frames_per_call = 16

pub data Failure : Type 0 where
  sample_gap backlog_overflow exception : Failure

pub record Job : Type 0 where
  pub first : ℕ
  pub count : ℕ
  pub waveform : List ℕ

-- `running`: the call that has not returned
pub record SessionSinging : Type 0 where
  pub buffer : List ℕ
  pub buffer_start : ℕ
  pub end_sample : ℕ
  pub next_frame : ℕ
  pub running : Option Job
  pub failed : Option Failure

abbrev pub Acted : Type 0
Acted = SessionSinging × List Job

abbrev pub is_some : {A : Type 0} → Option A → Bool
is_some none = false
is_some (some a) = true

abbrev pub fail : Failure → SessionSinging → SessionSinging
fail reason s = if is_some s.failed then s else record s { failed = some reason; buffer = [] }

abbrev pub pending_frames : SessionSinging → ℕ
pending_frames s = complete_frames s.end_sample - s.next_frame

-- The samples that `count` frames span
abbrev pub length_of : ℕ → ℕ
length_of count = patch_samples + hop_samples * (count - 1)

-- The call for the next `count` frames
unfoldable pub send : ℕ → SessionSinging → Acted
send count s =
    let first = s.next_frame in
    let start = s.buffer_start * 2 in
    let waveform =
      slice s.buffer (sub_ℕ (first * hop_samples * 2) start)
        (sub_ℕ ((first * hop_samples + length_of count) * 2) start) in
    let job : Job = record { first = first; count = count; waveform = waveform } in
    let new_start = (first + count) * hop_samples in
    (
      record s {
        next_frame = first + count;
        buffer = drop (slice_index (length s.buffer) (sub_ℕ (new_start * 2) start)) s.buffer;
        buffer_start = new_start;
        running = some job;
      },
      job ∷ [],
    )

unfoldable pub dispatch : SessionSinging → Acted
unfolding send
dispatch s =
    if is_some s.failed || is_some s.running
    then (s, [])
    else if pending_frames s == 0
    then (s, [])
    else send (min (pending_frames s) max_frames_per_call) s

-- The rest of `push`, once the bytes are in the buffer
unfoldable pub admit : SessionSinging → Acted
admit s =
    if ltb (s.buffer_start + max_backlog_samples) s.end_sample
    then (fail backlog_overflow s, [])
    else dispatch s

unfoldable pub push : ℕ → List ℕ → SessionSinging → Acted
push start_sample pcm s =
    if is_some s.failed
    then (s, [])
    else if not (start_sample == s.end_sample)
    then (fail sample_gap s, [])
    else admit (record s { buffer = s.buffer ++ pcm; end_sample = s.end_sample + length pcm / 2 })

-- The end of `_compute`; `good`: the scores are those of as many frames as were asked for.
unfoldable pub computed : Bool → SessionSinging → Acted
computed good s =
    let s' = record s { running = none } in if good then dispatch s' else (fail exception s', [])
