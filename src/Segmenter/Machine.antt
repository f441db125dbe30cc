-- ===== src/Segmenter/Machine.antt =====
-- The calls of segmenter.py: the state machine of `_step`, and `push`, `flush` and `_trim`.
use tea_asr_service.Prelude.{
  ℕ, zero, suc, ◌+◌, ◌-◌, ◌*◌, ◌/◌, ◌%◌, min, max, ◌&&◌, not, Option, none, some, List, [], ◌∷◌,
  ◌++◌, leb, ltb, ◌==◌, if◌then◌else◌, length, take, drop, pos, ◌+ℤ◌, slice,
}
use tea_asr_service.Segmenter.{
  vad_window_samples, recent_windows, Boundary, State, SegmenterEvent, segment_closed, samples,
  hard_cap_ms, odd_length, assertion_failed, out_of_fuel, Result, ok, raised, ◌>>=◌,
  ContinuousSegmenter, offset, quiet_split_point, confirm, close,
}

-- What a call that emits events gives.
abbrev pub Stepped : Type 0 → Type 0
Stepped S = Result (ContinuousSegmenter S × List SegmenterEvent)

module _ {S : Type 0} where
  -- if self._pending_speech_samples >= min_speech: events.append(self._confirm(end))
  unfoldable pub confirm_if_long : ContinuousSegmenter S → ℕ → Stepped S
  confirm_if_long s end =
      if leb (samples s.config.min_speech_ms) s.pending_speech_samples
      then (do (s', event) ← confirm s end; ok (s', event ∷ []))
      else ok (s, [])

  unfoldable pub step_silence : ContinuousSegmenter S → ℕ → ℕ → ℕ → Stepped S
  unfolding confirm_if_long samples
  step_silence s probability start end =
      if leb s.config.threshold probability
      then confirm_if_long
          (record s {
            state = State.pending;
            candidate_start = some start;
            pending_speech_samples = vad_window_samples;
          })
          end
      else ok (s, [])

  unfoldable pub step_pending : ContinuousSegmenter S → ℕ → ℕ → Stepped S
  unfolding confirm_if_long samples
  step_pending s probability end =
      if leb s.config.threshold probability
      then confirm_if_long
          (record s { pending_speech_samples = s.pending_speech_samples + vad_window_samples }) end
      else ok (
        record s { state = State.silence; candidate_start = none; pending_speech_samples = 0 },
        [],
      )

  -- The segment is cut at the quiet point, and the next one starts there.
  unfoldable pub split : ContinuousSegmenter S → ℕ → ℕ → Stepped S
  split s point end = do
    (s', closed) ← close s Boundary.max_duration (some point)
    ok (
      record s' {
        state = State.speech;
        segment_start = some closed.end_sample;
        last_speech_end = max closed.end_sample end;
        trailing_silence = 0;
      },
      segment_closed closed ∷ [],
    )

  -- The tests of the length; `end - segment_start` may be below 0 in Python, so they are sums here.
  unfoldable pub limit_length : ContinuousSegmenter S → ℕ → Option ℕ → Stepped S
  unfolding split samples hard_cap_ms
  limit_length s end none = raised assertion_failed
  limit_length s end (some segment_start) =
      if leb (segment_start + samples s.config.max_segment_ms) end
      then (let point = quiet_split_point s segment_start end in
          let forced = leb (segment_start + samples (hard_cap_ms s.config)) end in
          if leb end point && not forced then ok (s, []) else split s point end)
      else ok (s, [])

  unfoldable pub close_silence : ContinuousSegmenter S → Stepped S
  close_silence s = do
    (s', closed) ← close s Boundary.silence none
    ok (s', segment_closed closed ∷ [])

  unfoldable pub step_speech : ContinuousSegmenter S → ℕ → ℕ → Stepped S
  unfolding limit_length close_silence samples
  step_speech s probability end =
      if leb s.config.neg_threshold probability
      then limit_length (record s { last_speech_end = end; trailing_silence = 0 }) end
          s.segment_start
      else (let s' = record s { trailing_silence = s.trailing_silence + vad_window_samples } in
          if leb (samples s.config.end_silence_ms) s'.trailing_silence
          then close_silence s'
          else limit_length s' end s.segment_start)

  unfoldable pub step_in : State → ContinuousSegmenter S → ℕ → ℕ → ℕ → Stepped S
  step_in State.silence s probability start end = step_silence s probability start end
  step_in State.pending s probability start end = step_pending s probability end
  step_in State.speech s probability start end = step_speech s probability end

  unfoldable pub step : ContinuousSegmenter S → ℕ → ℕ → ℕ → Stepped S
  unfolding step_in
  step s probability start end = step_in s.state s probability start end

  unfoldable pub flush_in : ContinuousSegmenter S → State → Stepped S
  flush_in s State.speech = do
    (s', closed) ← close s Boundary.stop none
    ok (s', segment_closed closed ∷ [])
  flush_in s _ = ok (record s { state = State.silence; candidate_start = none }, [])

  unfoldable pub flush : ContinuousSegmenter S → Stepped S
  unfolding flush_in
  flush s = flush_in s s.state

  unfoldable pub keep_from : ContinuousSegmenter S → State → Option ℕ → Option ℕ → ℕ
  keep_from s State.speech candidate (some segment_start) = segment_start
  keep_from s State.pending (some candidate) segment_start =
      candidate - samples s.config.pre_roll_ms
  keep_from s _ _ _ =
      s.next_sample
      - samples (s.config.pre_roll_ms + s.config.min_speech_ms + s.config.split_search_ms / 6)

  -- `_trim`; its `drop > 0` is the test that `kept` lies past `buffer_start`
  unfoldable pub trim : ContinuousSegmenter S → ContinuousSegmenter S
  unfolding keep_from samples
  trim s =
      let kept =
        max s.buffer_start (min (keep_from s s.state s.candidate_start s.segment_start) s.cursor) in
      if ltb s.buffer_start kept
      then record s { buffer = drop ((kept - s.buffer_start) * 2) s.buffer; buffer_start = kept }
      else s

-- self._buffer[offset : offset + VAD_WINDOW_SAMPLES * 2], the bytes of the window at the cursor
unfoldable pub window_at : {S : Type 0} → ContinuousSegmenter S → List ℕ
window_at s = slice s.buffer (offset s s.cursor) (offset s s.cursor +ℤ pos (vad_window_samples * 2))

-- self._recent.append((self._cursor, probability)), with the VAD's next state
unfoldable pub scored : {S : Type 0} → ContinuousSegmenter S → ℕ × S → ContinuousSegmenter S
scored s (p, vad_session) = record s {
  vad_session = vad_session;
  recent = take recent_windows ((s.cursor, p) ∷ s.recent);
}

module _ {S : Type 0} (probability : List ℕ → S → ℕ × S) where
  -- The body of the loop of `push`: one window.
  unfoldable pub analyse : ContinuousSegmenter S → Stepped S
  analyse s =
      let result = probability (window_at s) s.vad_session in
      do
        (s', events) ← step (scored s result) result.0 s.cursor (s.cursor + vad_window_samples)
        ok (record s' { cursor = s'.cursor + vad_window_samples }, events)

  -- while self._cursor + VAD_WINDOW_SAMPLES <= self._next_sample, with fuel
  unfoldable pub windows : ℕ → ContinuousSegmenter S → Stepped S
  windows zero s = raised out_of_fuel
  windows (suc fuel) s =
      let more = (do
        (s', events) ← analyse s
        (s'', later) ← windows fuel s'
        ok (s'', events ++ later)) in
      if leb (s.cursor + vad_window_samples) s.next_sample then more else ok (s, [])

  unfoldable pub push : ContinuousSegmenter S → List ℕ → Stepped S
  push s pcm =
      if length pcm % 2 == 0
      then (let s' = record s {
        buffer = s.buffer ++ pcm;
        next_sample = s.next_sample + length pcm / 2;
      } in
          do (s'', events) ← windows (suc (s'.next_sample - s'.cursor)) s'; ok (trim s'', events))
      else raised odd_length
