-- ===== src/Context/Replacements.antt =====
-- `apply_replacements` of context.py (tea_asr/context.py), and a description of its matches.
use tea_asr_service.Prelude.{
  ℕ, zero, suc, ◌<◌, ◌≡◌, refl, ap, inl, inr, true, Option, none, some, Option-cases, List, [], ◌∷◌,
  ◌++◌, arith, length, drop, length-drop, All,
}
use tea_asr_service.Translation.Response.{starts_with}
use tea_asr_service.Context.{ReplacementRule, ordered, replace_from, apply_replacements}
use tea_asr_service.Context.Longest.{
  NoMatch, IsLongest, best, first_match-ordered, best-NoMatch, best-IsLongest,
}

-- The text is cut from the left into characters at which no rule matches, which stay, and sources of
-- longest matches, which their targets replace. The number counts the matches.
pub data Replaced (rules : List ReplacementRule) : List ℕ → List ℕ → ℕ → Type 0 where
  done : Replaced rules [] [] 0
  copied :
      {c : ℕ} {cs output : List ℕ} {n : ℕ}
      → NoMatch rules (c ∷ cs)
      → Replaced rules cs output n
      → Replaced rules (c ∷ cs) (c ∷ output) n
  replaced :
      {text rest output : List ℕ} {n : ℕ} (rule : ReplacementRule)
      → IsLongest rules text rule
      → text ≡ rule.source ++ rest
      → Replaced rules rest output n
      → Replaced rules text (rule.target ++ output) (suc n)

pub starts_with-drop :
    (source text : List ℕ)
    → starts_with source text ≡ true
    → text ≡ source ++ drop (length source) text
starts_with-drop [] text h = refl
starts_with-drop (p ∷ ps) [] h = cc
starts_with-drop (p ∷ ps) (c ∷ cs) h =
    let e : p ≡ c = ground arith in rw e (ap (λ t. c ∷ t) (starts_with-drop ps cs (ground arith)))

-- The rules have sources that are not empty.
abbrev pub HasSources : List ReplacementRule → Type 0
HasSources rules = All (λ r. 0 < length r.source) rules

source_of-longest :
    (before after : List ReplacementRule) (rule : ReplacementRule)
    → HasSources (before ++ rule ∷ after)
    → 0 < length rule.source
source_of-longest [] after rule h = h.0
source_of-longest (r ∷ before) after rule h = source_of-longest before after rule h.1

abbrev Replaces : List ReplacementRule → List ℕ → Option (List ℕ × ℕ) → Type 0
Replaces rules text none = ⊥
Replaces rules text (some (output, matches)) = Replaced rules text output matches

Replaces-copied :
    (rules : List ReplacementRule) (c : ℕ) (cs : List ℕ) (later : Option (List ℕ × ℕ))
    → NoMatch rules (c ∷ cs)
    → Replaces rules cs later
    → Replaces rules
        (c ∷ cs)
        (elim later [ none ↦ none | some (output, matches) ↦ some (c ∷ output, matches) ])
Replaces-copied rules c cs none h k = k
Replaces-copied rules c cs (some (output, matches)) h k = copied h k

Replaces-replaced :
    (rules : List ReplacementRule) (text rest : List ℕ) (rule : ReplacementRule)
    (later : Option (List ℕ × ℕ))
    → IsLongest rules text rule
    → text ≡ rule.source ++ rest
    → Replaces rules rest later
    → Replaces rules text (elim later [
      | none ↦ none
      | some (output, matches) ↦ some (rule.target ++ output, suc matches)
    ])
Replaces-replaced rules text rest rule none l e k = k
Replaces-replaced rules text rest rule (some (output, matches)) l e k = replaced rule l e k

replace_from-Replaces :
    (fuel : ℕ) (rules : List ReplacementRule) (text : List ℕ)
    → HasSources rules
    → length text < fuel
    → Replaces rules text (replace_from fuel (ordered rules) text)
unfolding replace_from
replace_from-Replaces zero rules text h lt = absurd (omega arith)
replace_from-Replaces (suc fuel) rules [] h lt = done
replace_from-Replaces (suc fuel) rules (c ∷ cs) h lt =
    let found = first_match-ordered rules (c ∷ cs) in
    elim (Option-cases (best rules (c ∷ cs))) [
      | inl nothing ↦
          rw (replace_from, found, nothing)
            (Replaces-copied rules c cs (replace_from fuel (ordered rules) cs)
              (best-NoMatch rules (c ∷ cs) nothing)
              (replace_from-Replaces fuel rules cs h (omega arith)))
      | inr (rule, e) ↦
          let l = best-IsLongest rules (c ∷ cs) rule e in
          let pos = source_of-longest l.before l.after rule (rw l.member at h) in
          let rest = drop (length rule.source) (c ∷ cs) in
          rw (replace_from, found, e)
            (Replaces-replaced rules (c ∷ cs) rest rule (replace_from fuel (ordered rules) rest) l
              (starts_with-drop rule.source (c ∷ cs) l.begins)
              (replace_from-Replaces fuel rules rest h
                (omega (arith, length-drop {0} (length rule.source) (c ∷ cs)))))
    ]

untouched : (text : List ℕ) → Replaced [] text text 0
untouched [] = done
untouched (c ∷ cs) = copied tt (untouched cs)

-- When no rule has an empty source, `apply_replacements` returns, and its output is the text with
-- the longest match at each place, from the left, replaced, the first rule of that length first;
-- what it puts in is not read again. The number it returns counts the matches.
pub apply_replacements_Replaces :
    (text : List ℕ) (rules : List ReplacementRule)
    → HasSources rules
    → (output : List ℕ) × (matches : ℕ) × (apply_replacements text rules ≡ some (output, matches))
      × Replaced rules text output matches
unfolding apply_replacements
apply_replacements_Replaces text [] h = (text, 0, refl, untouched text)
apply_replacements_Replaces text (r ∷ rs) h =
    let k = replace_from-Replaces (suc (length text)) (r ∷ rs) text h (omega arith) in
    elim (Option-cases (replace_from (suc (length text)) (ordered (r ∷ rs)) text)) [
      | inl e ↦ absurd (rw e at k)
      | inr ((output, matches), e) ↦ (output, matches, e, rw e at k)
    ]
