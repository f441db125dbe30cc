-- ===== src/TokenBudget.antt =====
-- tea_asr/worker/token_budget.py: the tokens that a request may generate. The source computes the ceiling
-- in floats; here it is exact. The two agree, since below the cap the product is a whole number, where
-- the division was exact, or at least 1/16000 from one.
mod Examples
use tea_asr_service.Prelude.{
  ℕ, ◌+◌, ◌-◌, ◌*◌, ◌/◌, ◌≤◌, ◌<◌, min, ◌≡◌, ◌⊎◌, inl, inr, Bool-cases, List, leb, length, tests,
  arith,
}

abbrev pub sample_rate : ℕ
sample_rate = 16000

abbrev pub max_generation_tokens : ℕ
max_generation_tokens = 512

abbrev pub tokens_per_audio_second : ℕ
tokens_per_audio_second = 11

abbrev pub token_buffer : ℕ
token_buffer = 8

-- A count of samples is not negative here, so there is no ValueError.
unfoldable pub max_tokens_for_samples : ℕ → ℕ
max_tokens_for_samples sample_count =
    min max_generation_tokens
      ((sample_count * tokens_per_audio_second + (sample_rate - 1)) / sample_rate + token_buffer)

unfoldable pub max_tokens_for_pcm : List ℕ → ℕ
unfolding max_tokens_for_samples
max_tokens_for_pcm pcm = max_tokens_for_samples (length pcm / 2)

-- The budget is the buffer of 8 and the least number of tokens that is 11 for each second of the audio
-- or more, where these come to less than the cap of 512; it is the cap exactly for audio so long that
-- they come to it.
pub max_tokens_for_pcm-covers :
    (pcm : List ℕ)
    → let budget = max_tokens_for_pcm pcm in
      let needed = length pcm / 2 * tokens_per_audio_second in
      ((budget ≡ max_generation_tokens)
        × ((max_generation_tokens - token_buffer - 1) * sample_rate < needed))
      ⊎ ((budget < max_generation_tokens)
          × (token_buffer ≤ budget)
          × (needed ≤ (budget - token_buffer) * sample_rate)
          × ((budget - token_buffer) * sample_rate < needed + sample_rate))
unfolding max_tokens_for_pcm
max_tokens_for_pcm-covers pcm =
    elim (Bool-cases (leb max_generation_tokens (max_tokens_for_pcm pcm))) [
      | inl capped ↦ inl (ground (arith, capped), ground (arith, capped))
      | inr below ↦
          inr (ground (arith, below), omega arith, ground (arith, below), ground (arith, below))
    ]
