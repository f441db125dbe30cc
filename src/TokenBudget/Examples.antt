-- ===== src/TokenBudget/Examples.antt =====
-- The budget of tea_asr/worker/token_budget.py for short audio, and its theorem there.
use tea_asr_service.Prelude.{
  ℕ, ◌+◌, ◌-◌, ◌*◌, ◌/◌, ◌≤◌, ◌<◌, ◌≡◌, refl, ◌⊎◌, List, length, replicate,
}
use tea_asr_service.TokenBudget.{
  sample_rate, max_generation_tokens, tokens_per_audio_second, token_buffer, max_tokens_for_samples,
  max_tokens_for_pcm, max_tokens_for_pcm-covers,
}

budgets :
    (max_tokens_for_samples 0 ≡ 8)
    × (max_tokens_for_samples 16000 ≡ 19)
    × (max_tokens_for_samples 16001 ≡ 20)
    × (max_tokens_for_samples 800000 ≡ 512)
unfolding max_tokens_for_samples
budgets = (refl, refl, refl, refl)

abbrev pcm : List ℕ
pcm = replicate 3200 0

max_tokens_for_pcm-covers_example :
    let budget = max_tokens_for_pcm pcm in
    let needed = length pcm / 2 * tokens_per_audio_second in
    ((budget ≡ max_generation_tokens)
      × ((max_generation_tokens - token_buffer - 1) * sample_rate < needed))
    ⊎ ((budget < max_generation_tokens)
        × (token_buffer ≤ budget)
        × (needed ≤ (budget - token_buffer) * sample_rate)
        × ((budget - token_buffer) * sample_rate < needed + sample_rate))
max_tokens_for_pcm-covers_example = max_tokens_for_pcm-covers pcm
