-- ===== src/Context.antt =====
-- context.py (tea_asr/context.py): the recognition plan of a session and the replacement rules.
-- A text is the list of its code points. A dictionary profile is given as it was loaded.
pub mod Longest
pub mod Replacements
mod Examples
use tea_asr_service.Prelude.{
  ℕ, zero, suc, ◌+◌, ◌-◌, Bool, true, false, ◌&&◌, ◌||◌, Option, none, some, List, [], ◌∷◌, ◌++◌,
  ltb, leb, if◌then◌else◌, length, take, drop,
}
use tea_asr_service.Translation.Response.{starts_with}
use tea_asr_service.Stable.View.{eq_text}

abbrev pub max_context_hotwords : ℕ
max_context_hotwords = 200

abbrev pub context_echo_min_chars : ℕ
context_echo_min_chars = 12

pub record ReplacementRule : Type 0 where
  pub source : List ℕ
  pub target : List ℕ

pub record Dictionary : Type 0 where
  pub name : List ℕ
  pub domain : List ℕ
  pub hotwords : List (List ℕ)
  pub replacements : List ReplacementRule

pub record ContextOptions : Type 0 where
  pub profile : Option (List ℕ)
  pub domain : Option (List ℕ)
  pub hotwords : List (List ℕ)
  pub replacements : List ReplacementRule

pub record ContextPlan : Type 0 where
  pub profile : Option (List ℕ)
  pub domain : Option (List ℕ)
  pub hotwords : List (List ℕ)
  pub replacements : List ReplacementRule
  pub hotwords_truncated : ℕ

-- `sorted` is stable: a rule goes before those that came after it with a source no longer.
unfoldable pub place : ReplacementRule → List ReplacementRule → List ReplacementRule
place rule [] = rule ∷ []
place rule (r ∷ rs) =
    if leb (length r.source) (length rule.source) then rule ∷ r ∷ rs else r ∷ place rule rs

-- sorted(rules, key=lambda rule: -len(rule.source))
unfoldable pub ordered : List ReplacementRule → List ReplacementRule
unfolding place
ordered [] = []
ordered (rule ∷ rules) = place rule (ordered rules)

-- The inner loop: the first rule whose source the text starts with
unfoldable pub first_match : List ReplacementRule → List ℕ → Option ReplacementRule
first_match [] text = none
first_match (rule ∷ rules) text =
    let rest = first_match rules text in if starts_with rule.source text then some rule else rest

-- The outer loop, on the text from `index` on; `none` means that the fuel ran out.
unfoldable pub replace_from : ℕ → List ReplacementRule → List ℕ → Option (List ℕ × ℕ)
replace_from zero rules text = none
replace_from (suc fuel) rules [] = some ([], 0)
replace_from (suc fuel) rules (c ∷ cs) = elim (first_match rules (c ∷ cs)) [
  | none ↦ elim (replace_from fuel rules cs) [
    | none ↦ none
    | some (output, matches) ↦ some (c ∷ output, matches)
  ]
  | some rule ↦ elim (replace_from fuel rules (drop (length rule.source) (c ∷ cs))) [
    | none ↦ none
    | some (output, matches) ↦ some (rule.target ++ output, suc matches)
  ]
]

-- `apply_replacements` without `counts`
unfoldable pub apply_replacements : List ℕ → List ReplacementRule → Option (List ℕ × ℕ)
unfolding replace_from ordered
apply_replacements text [] = some (text, 0)
apply_replacements text (rule ∷ rules) =
    replace_from (suc (length text)) (ordered (rule ∷ rules)) text

-- `window in text`
unfoldable pub occurs : List ℕ → List ℕ → Bool
occurs window [] = starts_with window []
occurs window (c ∷ cs) = starts_with window (c ∷ cs) || occurs window cs

-- any(window in text for window in windows), over the places of the domain where one begins
unfoldable pub echoes : List ℕ → List ℕ → Bool
unfolding occurs
echoes text [] = false
echoes text (d ∷ domain) =
    if ltb (length (d ∷ domain)) context_echo_min_chars
    then false
    else occurs (take context_echo_min_chars (d ∷ domain)) text || echoes text domain

unfoldable pub contains_context_echo : List ℕ → Option (List ℕ) → Bool
unfolding echoes
contains_context_echo text none = false
contains_context_echo text (some domain) = echoes text domain

unfoldable pub is_seen : List ℕ → List (List ℕ) → Bool
is_seen word [] = false
is_seen word (w ∷ seen) = eq_text word w || is_seen word seen

-- The loop over the hot words; `kept` is `ordered_hotwords`.
unfoldable pub add_hotwords : List (List ℕ) → List (List ℕ) → List (List ℕ)
unfolding is_seen
add_hotwords kept [] = kept
add_hotwords kept (word ∷ words) =
    add_hotwords (if is_seen word kept then kept else kept ++ word ∷ []) words

-- merged[rule.from_] = rule: the place of a key that is there stays.
unfoldable pub merge_rule : List ReplacementRule → ReplacementRule → List ReplacementRule
merge_rule [] rule = rule ∷ []
merge_rule (r ∷ merged) rule =
    if eq_text r.source rule.source then rule ∷ merged else r ∷ merge_rule merged rule

unfoldable pub merge_rules : List ReplacementRule → List ReplacementRule → List ReplacementRule
unfolding merge_rule
merge_rules merged [] = merged
merge_rules merged (rule ∷ rules) = merge_rules (merge_rule merged rule) rules

domain_of : Option (List ℕ) → Option Dictionary → Option (List ℕ)
domain_of (some domain) profile = some domain
domain_of none (some profile) = some profile.domain
domain_of none none = none

hotwords_of : Option Dictionary → List (List ℕ)
hotwords_of none = []
hotwords_of (some profile) = profile.hotwords

replacements_of : Option Dictionary → List ReplacementRule
replacements_of none = []
replacements_of (some profile) = profile.replacements

-- `resolve_context`, when the profile that is asked for was loaded
unfoldable pub resolve_context : ContextOptions → Option Dictionary → ContextPlan
unfolding add_hotwords merge_rules domain_of hotwords_of replacements_of
resolve_context request profile =
    let hotwords = add_hotwords [] (hotwords_of profile ++ request.hotwords) in
    record {
      profile = request.profile;
      domain = domain_of request.domain profile;
      hotwords = take max_context_hotwords hotwords;
      replacements = merge_rules (merge_rules [] (replacements_of profile)) request.replacements;
      hotwords_truncated = length hotwords - max_context_hotwords;
    }
