-- ===== src/Repetition/Examples.antt =====
-- The trimming of tea_asr/repetition.py on short texts, and its theorem there.
use mathlib.Core.List.{Sublist}
use tea_asr_service.Prelude.{
  ℕ, ◌+◌, ◌≡◌, refl, Bool, ◌&&◌, none, some, List, [], ◌∷◌, leb, ◌==◌, length, replicate, arith,
}
use tea_asr_service.Translation.Response.{is_space}
use tea_asr_service.Repetition.{
  Limits, TrimmedRepetition, trim_repetitions, trim_from, match_at, find, try_unit, repeat_ends,
  can_trim_repeat_run,
}
use tea_asr_service.Repetition.Runs.{IsPositive}
use tea_asr_service.Repetition.Trimming.{removed, Trims, trim_repetitions-Trims}

-- The full-width comma is the only punctuation here, and the digits are the ASCII ones.
abbrev punctuation : ℕ → Bool
punctuation c = c == 65292

abbrev decimal : ℕ → Bool
decimal c = leb 48 c && leb c 57

abbrev limits : Limits
limits = record { single_char_limit = 3; multi_char_limit = 3; numeral_loop_limit = 6 }

-- 哈哈，哈哈哈好 loses two of its 哈, and the number 10000000 nothing.
trims :
    (trim_repetitions punctuation decimal limits
        (21704 ∷ 21704 ∷ 65292 ∷ 21704 ∷ 21704 ∷ 21704 ∷ 22909 ∷ [])
      ≡ some (
        21704 ∷ 21704 ∷ 65292 ∷ 21704 ∷ 22909 ∷ [],
        record { unit = 21704 ∷ []; unit_length = 1; removed_chars = 2 } ∷ [],
      ))
    × (trim_repetitions punctuation decimal limits (49 ∷ replicate 7 48)
        ≡ some (49 ∷ replicate 7 48, []))
    × (trim_repetitions punctuation decimal (record limits { multi_char_limit = 0 }) [] ≡ none)
unfolding trim_repetitions trim_from match_at find try_unit repeat_ends can_trim_repeat_run is_space
trims = (refl, refl, refl)

limits-IsPositive : IsPositive limits
limits-IsPositive = record { single = omega arith; multi = omega arith; numeral = omega arith }

trim_repetitions-Trims_example :
    (out : List ℕ) × (trims : List TrimmedRepetition) × (trim_repetitions punctuation decimal limits
        (replicate 9 21704)
      ≡ some (out, trims))
    × Sublist out (replicate 9 21704)
    × (length out + removed trims ≡ length (replicate {A = ℕ} 9 21704))
    × Trims punctuation decimal limits none (replicate 9 21704) out trims
trim_repetitions-Trims_example =
    trim_repetitions-Trims punctuation decimal limits (replicate 9 21704) limits-IsPositive
