-- ===== src/Context/Examples.antt =====
-- The replacement rules of tea_asr/context.py on short texts, and their theorem there.
use tea_asr_service.Prelude.{ℕ, ◌≡◌, refl, some, List, [], ◌∷◌, arith}
use tea_asr_service.Context.{
  ReplacementRule, apply_replacements, ordered, place, replace_from, first_match,
}
use tea_asr_service.Context.Replacements.{Replaced, apply_replacements_Replaces}

-- "ab" to "x" and "abc" to "ab"
abbrev rules : List ReplacementRule
rules =
    record { source = 97 ∷ 98 ∷ []; target = 120 ∷ [] }
    ∷ record { source = 97 ∷ 98 ∷ 99 ∷ []; target = 97 ∷ 98 ∷ [] }
    ∷ []

-- "zabcab" becomes "zabx": the longer rule goes first, and what is written is not read again.
replaces :
    apply_replacements (122 ∷ 97 ∷ 98 ∷ 99 ∷ 97 ∷ 98 ∷ []) rules
    ≡ some (122 ∷ 97 ∷ 98 ∷ 120 ∷ [], 2)
unfolding apply_replacements ordered place replace_from first_match
replaces = refl

apply_replacements_Replaces_example :
    (output : List ℕ) × (matches : ℕ) × (apply_replacements
        (122 ∷ 97 ∷ 98 ∷ 99 ∷ 97 ∷ 98 ∷ [])
        rules
      ≡ some (output, matches))
    × Replaced rules (122 ∷ 97 ∷ 98 ∷ 99 ∷ 97 ∷ 98 ∷ []) output matches
apply_replacements_Replaces_example =
    apply_replacements_Replaces (122 ∷ 97 ∷ 98 ∷ 99 ∷ 97 ∷ 98 ∷ []) rules
      (omega arith, (omega arith, tt))
