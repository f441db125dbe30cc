-- ===== src/Stable/View.antt =====
-- `_comparison_view` and `_project_surface` of tea_asr/stable.py: a text without case, width, spaces and
-- punctuation, with the offsets of its characters in the text.
use tea_asr_service.Prelude.{
  ℕ, zero, suc, ◌-◌, Bool, true, false, not, ◌&&◌, ◌||◌, Option, none, some, List, [], ◌∷◌, ◌++◌,
  map, ltb, leb, ◌==◌, if◌then◌else◌, length, take, drop, get_elem?, get_or, set, replicate, keep,
}
use tea_asr_service.Stable.Chars.{Unicode, is_grapheme_boundary, is_space_char}
use tea_asr_service.Stable.Cuts.{is_blank}

pub data Kind : Type 0 where
  content punctuation_mark space : Kind

pub record SurfacePart : Type 0 where
  pub start : ℕ
  pub end : ℕ
  pub text : List ℕ
  pub kind : Kind
  pub key_position : ℕ

pub record ComparisonView : Type 0 where
  pub key : List ℕ
  pub parts : List SurfacePart
  pub boundaries : List (Option ℕ)
  pub punctuation : List (List ℕ)

pub record Cluster : Type 0 where
  pub start : ℕ
  pub end : ℕ
  pub surface : List ℕ
  pub normalized : List ℕ

abbrev pub every : (ℕ → Bool) → List ℕ → Bool
every test [] = true
every test (c ∷ cs) = test c && every test cs

-- _CJK_DIGITS.get(char, char), with 〇零一二三四五六七八九
unfoldable pub fold_digit : ℕ → ℕ
fold_digit c =
    if c == 12295 || c == 38646
    then 48
    else if c == 19968
    then 49
    else if c == 20108
    then 50
    else if c == 19977
    then 51
    else if c == 22235
    then 52
    else if c == 20116
    then 53
    else if c == 20845
    then 54
    else if c == 19971
    then 55
    else if c == 20843
    then 56
    else if c == 20061
    then 57
    else c

abbrev pub eq_text : List ℕ → List ℕ → Bool
eq_text [] [] = true
eq_text [] (d ∷ ds) = false
eq_text (c ∷ cs) [] = false
eq_text (c ∷ cs) (d ∷ ds) = c == d && eq_text cs ds

abbrev pub is_punctuation_kind : Kind → Bool
is_punctuation_kind punctuation_mark = true
is_punctuation_kind _ = false

module _ (u : Unicode) where
  -- The clusters from `start` on, when `end` characters are read and `k` are to come
  unfoldable pub clusters_from : List ℕ → ℕ → ℕ → ℕ → List Cluster
  unfolding is_grapheme_boundary
  clusters_from text start end zero = []
  clusters_from text start end (suc k) =
      let cuts = is_grapheme_boundary u text (suc end) in
      let rest = clusters_from text (if cuts then suc end else start) (suc end) k in
      let surface = take (suc end - start) (drop start text) in
      if cuts
      then record {
        start = start;
        end = suc end;
        surface = surface;
        normalized = u.comparison_form surface;
      }
        ∷ rest
      else rest

  abbrev pub part : Cluster → Kind → ComparisonView → ComparisonView
  part c kind v = record v {
    parts =
        v.parts
        ++ record {
          start = c.start;
          end = c.end;
          text = c.surface;
          kind = kind;
          key_position = length v.key;
        }
          ∷ [];
  }

  abbrev pub fragment_of : List ℕ → List ℕ
  fragment_of normalized =
      map fold_digit (keep (λ c. not (is_space_char u c) && not (u.punctuation c)) normalized)

  -- A round of the loop over the clusters
  unfoldable pub add_cluster : ComparisonView → Cluster → ComparisonView
  unfolding fold_digit
  add_cluster v c =
      let position = length v.key in
      let fragment = fragment_of c.normalized in
      if not (is_blank c.normalized) && every (is_space_char u) c.normalized
      then part c space v
      else if not (is_blank c.normalized) && every u.punctuation c.normalized
      then record (part c punctuation_mark v) {
        punctuation = set v.punctuation position (get_or v.punctuation position [] ++ c.normalized);
      }
      else if is_blank fragment
      then part c content v
      else record (part c content v) {
        key = v.key ++ fragment;
        boundaries = v.boundaries ++ replicate (length fragment - 1) none ++ some c.end ∷ [];
        punctuation = v.punctuation ++ replicate (length fragment) [];
      }

  unfoldable pub add_clusters : ComparisonView → List Cluster → ComparisonView
  add_clusters v [] = v
  add_clusters v (c ∷ cs) = add_clusters (add_cluster v c) cs

  unfoldable pub comparison_view : List ℕ → ComparisonView
  unfolding clusters_from add_clusters
  comparison_view text =
      add_clusters
        (record { key = []; parts = []; boundaries = some 0 ∷ []; punctuation = [] ∷ [] })
        (clusters_from text 0 0 (length text))

  unfoldable pub comparison_key : List ℕ → List ℕ
  comparison_key text = (comparison_view text).key

-- view.boundaries[i]
unfoldable pub boundary : ComparisonView → ℕ → Option ℕ
boundary v i = elim (get_elem? v.boundaries i) [ none ↦ none | some o ↦ o ]

abbrev pub disagrees : List ℕ → ℕ → List ComparisonView → Bool
disagrees signature position [] = false
disagrees signature position (vote ∷ votes) =
    not (eq_text (get_or vote.punctuation position []) signature)
    || disagrees signature position votes

-- Whether the loop over the parts passes over the part
unfoldable pub passes_over :
    ComparisonView → List ComparisonView → ℕ → ℕ → ℕ → ℕ → SurfacePart → Bool
passes_over view votes start_key end_key start end p =
    if leb p.end start || leb end p.start
    then true
    else is_punctuation_kind p.kind
      && (not (leb start_key p.key_position && ltb p.key_position end_key)
          || disagrees (get_or view.punctuation p.key_position []) p.key_position votes)

abbrev pub texts_of : List SurfacePart → List ℕ
texts_of [] = []
texts_of (p ∷ ps) = p.text ++ texts_of ps

project_between : ComparisonView → List ComparisonView → ℕ → ℕ → Option ℕ → Option ℕ → List ℕ
project_between view votes start_key end_key (some start) (some end) =
    texts_of (keep (λ p. not (passes_over view votes start_key end_key start end p)) view.parts)
project_between view votes start_key end_key _ _ = []

unfoldable pub project_surface : ComparisonView → List ComparisonView → ℕ → ℕ → List ℕ
unfolding project_between passes_over boundary
project_surface view votes start_key end_key =
    project_between view votes start_key end_key (boundary view start_key) (boundary view end_key)
