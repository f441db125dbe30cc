-- ===== src/Stream/History.antt =====
-- The bounded history of recent audio of api/stream.py (tea_asr/api/stream.py), from which a segment
-- takes the audio before its start.
use tea_asr_service.Prelude.{
  ℕ, ◌+◌, ◌-◌, ◌*◌, ◌/◌, ◌%◌, min, max, ◌||◌, List, [], ◌∷◌, ◌++◌, ltb, leb, ◌==◌, if◌then◌else◌,
  length, take, drop,
}
use tea_asr_service.Stream.{StreamSession}

module _ {S : Type 0} where
  -- The part of the history that is kept: `remove_bytes` is a whole number of samples.
  unfoldable pub trim_history : ℕ → StreamSession S → StreamSession S
  trim_history max_bytes s =
      let excess = length s.audio_history - max_bytes in
      let remove_bytes = excess - excess % 2 in
      if ltb max_bytes (length s.audio_history)
      then record s {
        audio_history = drop remove_bytes s.audio_history;
        audio_history_start_sample = s.audio_history_start_sample + remove_bytes / 2;
      }
      else s

  unfoldable pub history_end : StreamSession S → ℕ
  history_end s = s.audio_history_start_sample + length s.audio_history / 2

  -- The history starts afresh when it is empty or does not go on at `start_sample`.
  unfoldable pub history_for : List ℕ → ℕ → StreamSession S → StreamSession S
  unfolding history_end
  history_for [] start_sample s = record s { audio_history_start_sample = start_sample }
  history_for (b ∷ history) start_sample s =
      if start_sample == history_end s
      then s
      else record s { audio_history = []; audio_history_start_sample = start_sample }

  unfoldable pub remember_audio : ℕ → List ℕ → StreamSession S → StreamSession S
  unfolding trim_history history_for
  remember_audio start_sample pcm s =
      let s' = history_for s.audio_history start_sample s in
      if leb s.config.audio_history_max_samples 0 || leb (length pcm) 0
      then s
      else trim_history (s.config.audio_history_max_samples * 2)
          (record s' { audio_history = s'.audio_history ++ pcm })

  -- `end_sample - carry` may be below 0 in Python, where the history's start is the larger.
  unfoldable pub audio_before : StreamSession S → ℕ → List ℕ
  unfolding history_end
  audio_before s end_sample =
      let end = min end_sample (history_end s) in
      let start = max s.audio_history_start_sample (end - s.config.carry_context_samples) in
      let from = (start - s.audio_history_start_sample) * 2 in
      let to = (end - s.audio_history_start_sample) * 2 in
      if leb (length s.audio_history) 0 || leb s.config.carry_context_samples 0 || leb end start
      then []
      else take (to - from) (drop from s.audio_history)
