-- ===== src/Stable/Examples.antt =====
-- The stable text of tea_asr/stable.py on short hypotheses, and its theorems there.
use mathlib.Core.List.{map}
use tea_asr_service.Prelude.{
  ℕ, ◌+◌, ◌≤◌, ◌<◌, ◌≡◌, refl, ◌⊎◌, Bool, true, false, ◌&&◌, ◌||◌, List, [], ◌∷◌, ◌++◌, leb, ◌==◌,
  if◌then◌else◌, length, arith,
}
use tea_asr_service.Translation.Response.{is_space}
use tea_asr_service.Stable.Chars.{
  Unicode, is_extend, is_prepend, hangul_kind, is_grapheme_boundary, splits_word, is_soft,
}
use tea_asr_service.Stable.Cuts.{is_safe_cut, common_prefix_length, shared, stable_cut, cut_from}
use tea_asr_service.Stable.Agreement.{AgreeOn, stable_cut-agrees}
use tea_asr_service.Stable.View.{
  comparison_view, comparison_key, clusters_from, add_cluster, add_clusters, fold_digit, boundary,
  passes_over, project_surface,
}
use tea_asr_service.Stable.Alignment.{alignment_end, costs, rows_from, row_from}
use tea_asr_service.Stable.Alignment.Least.{cost, alignment_end-least}
use tea_asr_service.Stable.Tracker.{
  StablePrefixTracker, StableUpdate, observe, addition, addition_from, finalize, finalizes, close,
  updates, Growing, updates-Growing,
}

abbrev upper : ℕ → Bool
upper c = leb 65 c && leb c 90

-- Of ASCII, with the full-width comma
abbrev ascii : Unicode
ascii = record {
  mark = λ c. false;
  letter_other = λ c. leb 19968 c;
  punctuation = λ c. c == 44 || c == 65292;
  separator = λ c. c == 32;
  combining = λ c. 0;
  alnum =
      λ c. leb 48 c && leb c 57 || upper c || leb 97 c && leb c 122 || leb 19968 c && leb c 40959;
  wide = λ c. leb 12288 c;
  comparison_form = map (λ c. if upper c then c + 32 else c);
}

-- "Hi 你，" and "hi 你好"
abbrev one : List ℕ
one = 72 ∷ 105 ∷ 32 ∷ 20320 ∷ 65292 ∷ []

abbrev two : List ℕ
two = 104 ∷ 105 ∷ 32 ∷ 20320 ∷ 22909 ∷ []

abbrev tracker : StablePrefixTracker
tracker = record { agreement = 2; history = []; text = []; closed = false }

-- "hi 你" is committed, and the final "Hi 你好。" goes on from there.
updates_twice :
    map
      (λ (up : StableUpdate). up.text)
      (updates ascii tracker (one ∷ two ∷ []) (finalizes (one ++ 22909 ∷ [])))
    ≡ (104 ∷ 105 ∷ 32 ∷ 20320 ∷ []) ∷ (104 ∷ 105 ∷ 32 ∷ 20320 ∷ 65292 ∷ 22909 ∷ []) ∷ []
unfolding updates observe addition addition_from finalize close comparison_view comparison_key
    clusters_from add_cluster add_clusters fold_digit boundary passes_over project_surface
    common_prefix_length shared is_safe_cut is_grapheme_boundary is_extend is_prepend hangul_kind
    splits_word is_soft is_space
updates_twice = refl

updates-Growing_example : Growing [] (updates ascii tracker (one ∷ two ∷ []) (finalizes two))
updates-Growing_example = updates-Growing ascii tracker (one ∷ two ∷ []) (finalizes two)

-- "abX" ends where "abc" of "abcd" does.
abbrev written : List ℕ
written = 97 ∷ 98 ∷ 88 ∷ []

abbrev last : List ℕ
last = 97 ∷ 98 ∷ 99 ∷ 100 ∷ []

alignment_end-least_example :
    let end = alignment_end written last in
    (end ≤ length last)
    × ((j : ℕ) → j ≤ length last → cost written last end ≤ cost written last j)
    × ((j : ℕ) → end < j → j ≤ length last → cost written last end < cost written last j)
alignment_end-least_example = alignment_end-least written last (omega arith)

aligns : alignment_end written last ≡ 3
unfolding alignment_end costs rows_from row_from
aligns = refl

stable_cut-agrees_example :
    let hypotheses = two ∷ (104 ∷ 105 ∷ 32 ∷ 20320 ∷ 65292 ∷ []) ∷ [] in
    let cut = stable_cut ascii hypotheses 0 in
    (0 ≤ cut)
    × ((cut ≡ 0)
        ⊎ (AgreeOn cut two ((104 ∷ 105 ∷ 32 ∷ 20320 ∷ 65292 ∷ []) ∷ [])
            × (is_safe_cut ascii hypotheses cut ≡ true)))
    × ((k : ℕ)
        → cut < k
        → k ≤ length two
        → AgreeOn k two ((104 ∷ 105 ∷ 32 ∷ 20320 ∷ 65292 ∷ []) ∷ [])
        → is_safe_cut ascii hypotheses k ≡ false)
stable_cut-agrees_example =
    stable_cut-agrees ascii two ((104 ∷ 105 ∷ 32 ∷ 20320 ∷ 65292 ∷ []) ∷ []) 0

cuts : stable_cut ascii (two ∷ (104 ∷ 105 ∷ 32 ∷ 20320 ∷ 65292 ∷ []) ∷ []) 0 ≡ 4
unfolding stable_cut cut_from common_prefix_length shared is_safe_cut is_grapheme_boundary is_extend
    is_prepend hangul_kind splits_word is_soft is_space
cuts = refl
