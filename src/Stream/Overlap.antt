-- ===== src/Stream/Overlap.antt =====
-- The carried audio of api/stream.py (tea_asr/api/stream.py): how the text that the previous segment's
-- final already has is found at the head of a decode, and removed. The loops of the edit distance are
-- those of `_alignment_end` of stable.py, and share their definition.
pub mod Matching
pub mod Covering
pub mod Stripping
use tea_asr_service.Prelude.{
  ℕ, zero, suc, ◌+◌, ◌-◌, ◌*◌, min, max, Bool, true, false, ◌||◌, ◌&&◌, Option, none, some, List,
  [], ◌∷◌, ◌++◌, map, ltb, leb, ◌==◌, if◌then◌else◌, length, take, drop, get_or,
}
use tea_asr_service.Translation.Response.{is_space}
use tea_asr_service.Stable.View.{eq_text}
use tea_asr_service.Stable.Alignment.{costs}
use tea_asr_service.Stream.Text.{Tables}

abbrev pub carry_overlap_min_chars : ℕ
carry_overlap_min_chars = 4

abbrev pub carry_overlap_max_chars : ℕ
carry_overlap_max_chars = 256

abbrev pub carry_overlap_fuzzy_max_chars : ℕ
carry_overlap_fuzzy_max_chars = 64

-- The order of the tuples in the source; its negated parts are here without the sign.
pub record Score : Type 0 where
  pub matched : ℕ
  pub distance : ℕ
  pub size_gap : ℕ
  pub shorter : ℕ
  pub prefix_size : ℕ

unfoldable pub exceeds : Score → Score → Bool
exceeds a b =
    ltb b.matched a.matched
    || a.matched == b.matched
      && (ltb a.distance b.distance
          || a.distance == b.distance
            && (ltb a.size_gap b.size_gap
                || a.size_gap == b.size_gap
                  && (ltb b.shorter a.shorter
                      || a.shorter == b.shorter && ltb a.prefix_size b.prefix_size)))

unfoldable pub improve : Score → Option Score → Option Score
unfolding exceeds
improve score none = some score
improve score (some best) = if exceeds score best then some score else some best

-- text[-n:], for n above 0
abbrev pub last : ℕ → List ℕ → List ℕ
last n text = drop (length text - n) text

-- The loop over the exact sizes, from `size` down
unfoldable pub exact : ℕ → List ℕ → List ℕ → Option Score
exact zero previous current = none
exact (suc k) previous current =
    let shorter = exact k previous current in
    if ltb (suc k) carry_overlap_min_chars
    then none
    else if eq_text (last (suc k) previous) (take (suc k) current)
    then some (record {
      matched = suc k;
      distance = 0;
      size_gap = 0;
      shorter = suc k;
      prefix_size = suc k;
    })
    else shorter

unfoldable pub score_of : ℕ → ℕ → ℕ → Score
score_of suffix_size prefix_size distance = record {
  matched = max suffix_size prefix_size - distance;
  distance = distance;
  size_gap = max suffix_size prefix_size - min suffix_size prefix_size;
  shorter = min suffix_size prefix_size;
  prefix_size = prefix_size;
}

-- The loop over the sizes of the prefix, along the last row of the table
unfoldable pub prefixes : ℕ → ℕ → List ℕ → Option Score → Option Score
unfolding improve score_of
prefixes suffix_size prefix_size [] best = best
prefixes suffix_size prefix_size (distance ∷ row) best =
    prefixes suffix_size (suc prefix_size) row (
      if ltb prefix_size carry_overlap_min_chars
        || ltb (max suffix_size prefix_size) (distance * 4)
        || ltb (min suffix_size prefix_size) carry_overlap_min_chars
      then best
      else improve (score_of suffix_size prefix_size distance) best)

-- The loop over the sizes of the suffix: `count` more from `suffix_size` on
unfoldable pub suffixes : ℕ → ℕ → List ℕ → List ℕ → Option Score → Option Score
unfolding prefixes
suffixes zero suffix_size previous current best = best
suffixes (suc count) suffix_size previous current best =
    suffixes count (suc suffix_size) previous current
      (prefixes suffix_size 0 (costs (last suffix_size previous) current) best)

unfoldable pub best_overlap : List ℕ → List ℕ → Option Score
unfolding exact suffixes
best_overlap previous current =
    let fuzzy_previous = last carry_overlap_fuzzy_max_chars previous in
    let fuzzy_current = take carry_overlap_fuzzy_max_chars current in
    suffixes (suc (length fuzzy_previous) - carry_overlap_min_chars) carry_overlap_min_chars
      fuzzy_previous fuzzy_current (exact (min (length previous) (length current)) previous current)

module _ (t : Tables) where
  -- A character that the comparison leaves out
  abbrev pub is_separator : ℕ → Bool
  is_separator c = is_space c || t.unicode.punctuation c

  -- The inner loop: each character with the end of its source
  unfoldable pub kept_of : ℕ → List ℕ → List (ℕ × ℕ)
  kept_of end [] = []
  kept_of end (c ∷ folded) =
      let rest = kept_of end folded in if is_separator c then rest else (c, end) ∷ rest

  unfoldable pub normalize_from : ℕ → List ℕ → List (ℕ × ℕ)
  unfolding kept_of
  normalize_from index [] = []
  normalize_from index (c ∷ text) =
      kept_of (suc index) (t.folded c) ++ normalize_from (suc index) text

  abbrev pub chars_of : List (ℕ × ℕ) → List ℕ
  chars_of pairs = map (λ (p : ℕ × ℕ). p.0) pairs

  abbrev pub ends_of : List (ℕ × ℕ) → List ℕ
  ends_of pairs = map (λ (p : ℕ × ℕ). p.1) pairs

  unfoldable pub normalize_carry_text : List ℕ → List ℕ × List ℕ
  unfolding normalize_from
  normalize_carry_text text = (chars_of (normalize_from 0 text), ends_of (normalize_from 0 text))

  -- The separators at the head of a text
  unfoldable pub separators : List ℕ → ℕ
  separators [] = 0
  separators (c ∷ text) = let more = suc (separators text) in if is_separator c then more else 0

  cut_after : List ℕ → List ℕ → Option Score → Option (List ℕ × ℕ)
  unfolding separators
  cut_after current_text source_ends none = none
  cut_after current_text source_ends (some best) =
      let end = get_or source_ends (best.prefix_size - 1) 0 in
      some (drop (end + separators (drop end current_text)) current_text, best.prefix_size)

  unfoldable pub strip_carried_overlap : List ℕ → List ℕ → Option (List ℕ × ℕ)
  unfolding cut_after
  strip_carried_overlap previous_text current_text =
      let previous = (normalize_carry_text previous_text).0 in
      let (current, source_ends) = normalize_carry_text current_text in
      if ltb (length previous) carry_overlap_min_chars
        || ltb (length current) carry_overlap_min_chars
      then none
      else cut_after current_text (take carry_overlap_max_chars source_ends) (
          best_overlap (last carry_overlap_max_chars previous)
            (take carry_overlap_max_chars current))
