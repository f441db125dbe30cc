-- ===== src/Stable/Cuts.antt =====
-- Where tea_asr/stable.py may cut the text that its hypotheses share.
use tea_asr_service.Prelude.{
  ℕ, zero, suc, ◌-◌, max, Bool, true, false, not, ◌&&◌, ◌||◌, List, [], ◌∷◌, ltb, ◌==◌,
  if◌then◌else◌, length, get_or,
}
use tea_asr_service.Stable.Chars.{
  Unicode, is_grapheme_boundary, splits_word, is_soft, is_narrow_word_char,
}

abbrev pub is_blank : List ℕ → Bool
is_blank [] = true
is_blank (c ∷ cs) = false

-- Every text goes on with the character.
abbrev pub share : ℕ → List (List ℕ) → Bool
share c [] = true
share c ([] ∷ texts) = false
share c ((d ∷ ds) ∷ texts) = d == c && share c texts

abbrev pub tail : List ℕ → List ℕ
tail [] = []
tail (c ∷ cs) = cs

abbrev pub tails : List (List ℕ) → List (List ℕ)
tails [] = []
tails (text ∷ texts) = tail text ∷ tails texts

-- The loop over the indexes goes down the first text, and the others with it.
unfoldable pub shared : List ℕ → List (List ℕ) → ℕ
shared [] texts = 0
shared (c ∷ cs) texts = let rest = shared cs (tails texts) in if share c texts then suc rest else 0

unfoldable pub common_prefix_length : List (List ℕ) → ℕ
unfolding shared
common_prefix_length [] = 0
common_prefix_length (first ∷ texts) = shared first texts

module _ (u : Unicode) where
  -- The test of the loop of `is_safe_cut`
  abbrev pub refuses : ℕ → List ℕ → Bool
  refuses index text =
      ltb index (length text)
      && (not (is_grapheme_boundary u text index) || splits_word u text index)

  abbrev pub any_refuses : ℕ → List (List ℕ) → Bool
  any_refuses index [] = false
  any_refuses index (text ∷ texts) = refuses index text || any_refuses index texts

  abbrev pub continued : ℕ → List (List ℕ) → Bool
  continued index [] = false
  continued index (text ∷ texts) = ltb index (length text) || continued index texts

  abbrev pub reference : List (List ℕ) → List ℕ
  reference [] = []
  reference (text ∷ texts) = text

  unfoldable pub is_safe_cut : List (List ℕ) → ℕ → Bool
  unfolding is_grapheme_boundary splits_word is_soft
  is_safe_cut hypotheses index =
      let last = get_or (reference hypotheses) (index - 1) 0 in
      if index == 0
      then true
      else if is_soft u last
      then false
      else if any_refuses index hypotheses
      then false
      else continued index hypotheses || not (is_narrow_word_char u last)

  -- The loop of `stable_cut`, from the index down
  unfoldable pub cut_from : List (List ℕ) → ℕ → ℕ → ℕ
  unfolding is_safe_cut
  cut_from hypotheses floor zero = zero
  cut_from hypotheses floor (suc index) =
      let lower = cut_from hypotheses floor index in
      if ltb floor (suc index) && not (is_safe_cut hypotheses (suc index)) then lower else suc index

  unfoldable pub stable_cut : List (List ℕ) → ℕ → ℕ
  unfolding cut_from
  stable_cut hypotheses floor =
      max (cut_from hypotheses floor (common_prefix_length hypotheses)) floor
