-- ===== src/Translation/Engine/Examples.antt =====
-- The engine of tea_asr/translation/simt.py on a short session, and its theorems there.
use tea_asr_service.Prelude.{
  ◌==◌, All, ℕ, ◌≡◌, refl, Bool, true, false, Option, none, some, List, [], ◌∷◌, ◌++◌, map, length,
  ltb, if◌then◌else◌, arith,
}
use tea_asr_service.Translation.Response.{
  is_space, strip, skip_spaces, trim_end, wait, trans, parse_model_response, read_stripped,
  only_word, after_word, without_prefix, sanitize_history,
}
use tea_asr_service.Translation.Engine.{
  Pair, Direction, zh2en, SimtEngine, translate, settle, history_text, text_of,
}
use tea_asr_service.Translation.Engine.Framing.{
  IsFramed, FramedPair, read_pairs, read_pairs-text_of,
}
use tea_asr_service.Translation.Engine.Runs.{run, committed, joined, run-source, run-IsFramed}

-- "<trans> ¦A " is the translation "｜A"; "WAIT" and "< wait >" are none.
answers :
    (parse_model_response (60 ∷ 116 ∷ 114 ∷ 97 ∷ 110 ∷ 115 ∷ 62 ∷ 32 ∷ 166 ∷ 65 ∷ 32 ∷ [])
      ≡ (trans, 65372 ∷ 65 ∷ []))
    × (parse_model_response (87 ∷ 65 ∷ 73 ∷ 84 ∷ []) ≡ (wait, []))
    × (parse_model_response (60 ∷ 32 ∷ 119 ∷ 97 ∷ 105 ∷ 116 ∷ 32 ∷ 62 ∷ []) ≡ (wait, []))
unfolding parse_model_response read_stripped is_space strip skip_spaces trim_end only_word
    after_word without_prefix sanitize_history
answers = (refl, refl, refl)

-- A model that writes "OK" when it must, fails on a long history, and waits otherwise.
abbrev complete : Direction → List ℕ → List ℕ → Bool → Option (List ℕ)
complete direction history source force =
    if ltb 20 (length history) then none else if force then some (79 ∷ 75 ∷ []) else some []

abbrev engine : SimtEngine
engine = record {
  direction = zh2en;
  history_window = 3;
  history_keep = 1;
  max_buffer_chars = 4;
  buffer = [];
  history = [];
}

abbrev increments : List (List ℕ × Bool)
increments =
    (32 ∷ 20320 ∷ [], false)
    ∷ (22909 ∷ 32 ∷ [], true)
    ∷ (166 ∷ [], false)
    ∷ (1 ∷ 2 ∷ 3 ∷ 4 ∷ [], false)
    ∷ []

run-increments :
    (committed (run complete engine increments).1 ≡ 20320 ∷ 22909 ∷ 166 ∷ 1 ∷ 2 ∷ 3 ∷ 4 ∷ [])
    × (length (run complete engine increments).0.history ≡ 2)
unfolding run translate settle history_text parse_model_response read_stripped is_space strip
    skip_spaces trim_end only_word after_word without_prefix sanitize_history
run-increments = (refl, refl)

engine-IsFramed : IsFramed engine
engine-IsFramed = record { bounded = omega arith; framed = tt }

run-source_example :
    committed (run complete engine increments).1 ++ (run complete engine increments).0.buffer
    ≡ [] ++ joined (map strip (run complete engine increments).2)
run-source_example = run-source complete engine increments refl

run-IsFramed_example : IsFramed (run complete engine increments).0
run-IsFramed_example = run-IsFramed complete engine increments (omega arith) engine-IsFramed

abbrev second : List Pair
second = ([], 68 ∷ []) ∷ []

second-framed : All FramedPair second
second-framed = (((tt, tt), ((refl, tt), (refl, tt))), tt)

two_letters :
    All (λ c. (c == 166) ≡ false) (66 ∷ 67 ∷ []) × All (λ c. (c == 167) ≡ false) (66 ∷ 67 ∷ [])
two_letters = ((refl, (refl, tt)), (refl, (refl, tt)))

both-framed : All FramedPair ((65 ∷ [], 66 ∷ 67 ∷ []) ∷ second)
both-framed = ((((refl, tt), (refl, tt)), two_letters), second-framed)

read_pairs-text_of_example :
    read_pairs (text_of ((65 ∷ [], 66 ∷ 67 ∷ []) ∷ ([], 68 ∷ []) ∷ []))
    ≡ ((65 ∷ []) ∷ (66 ∷ 67 ∷ []) ∷ []) ∷ ([] ∷ (68 ∷ []) ∷ []) ∷ ([] ∷ []) ∷ []
read_pairs-text_of_example = read_pairs-text_of ((65 ∷ [], 66 ∷ 67 ∷ []) ∷ second) both-framed
