-- ===== src/Stable/Chars.antt =====
-- The characters of tea_asr/stable.py: which of them stay together.
use tea_asr_service.Prelude.{
  ℕ, suc, ◌-◌, ◌%◌, Bool, true, false, not, ◌&&◌, ◌||◌, List, [], ◌∷◌, ◌++◌, leb, ◌==◌,
  if◌then◌else◌, length, take, get_or,
}
use tea_asr_service.Translation.Response.{is_space}

-- The tables: the categories M*, Lo, P* and Z*, the combining class, `isalnum`, the widths W and F, and
-- `comparison_form` (NFKC, case folded)
pub record Unicode : Type 0 where
  pub mark : ℕ → Bool
  pub letter_other : ℕ → Bool
  pub punctuation : ℕ → Bool
  pub separator : ℕ → Bool
  pub combining : ℕ → ℕ
  pub alnum : ℕ → Bool
  pub wide : ℕ → Bool
  pub comparison_form : List ℕ → List ℕ

abbrev pub between : ℕ → ℕ → ℕ → Bool
between a b c = leb a c && leb c b

abbrev pub zwj : ℕ
zwj = 8205

-- _PREPEND
unfoldable pub is_prepend : ℕ → Bool
is_prepend c =
    between 1536 1541 c
    || c == 1757
    || c == 1807
    || between 2192 2193 c
    || c == 2274
    || c == 3406
    || c == 69821
    || c == 69837
    || between 70082 70083 c
    || c == 71999
    || c == 72001
    || c == 72250
    || between 72324 72329 c
    || c == 73030
    || c == 73474

abbrev pub is_regional_indicator : ℕ → Bool
is_regional_indicator c = between 127462 127487 c

pub data HangulKind : Type 0 where
  no_hangul leading vowel trailing syllable : HangulKind

unfoldable pub hangul_kind : ℕ → HangulKind
hangul_kind c =
    if between 4352 4447 c || between 43360 43388 c
    then leading
    else if between 4448 4519 c || between 55216 55238 c
    then vowel
    else if between 4520 4607 c || between 55243 55291 c
    then trailing
    else if between 44032 55203 c
    then syllable
    else no_hangul

abbrev pub is_vowel_or_trailing : HangulKind → Bool
is_vowel_or_trailing vowel = true
is_vowel_or_trailing trailing = true
is_vowel_or_trailing _ = false

abbrev pub is_leading : HangulKind → Bool
is_leading leading = true
is_leading _ = false

abbrev pub is_leading_or_syllable : HangulKind → Bool
is_leading_or_syllable leading = true
is_leading_or_syllable syllable = true
is_leading_or_syllable _ = false

abbrev pub reverse : List ℕ → List ℕ
reverse [] = []
reverse (c ∷ cs) = reverse cs ++ c ∷ []

-- How many characters at the head pass the test
abbrev pub run_length : (ℕ → Bool) → List ℕ → ℕ
run_length test [] = 0
run_length test (c ∷ cs) = let rest = run_length test cs in if test c then suc rest else 0

module _ (u : Unicode) where
  unfoldable pub is_extend : ℕ → Bool
  is_extend c =
      u.mark c
      || between 8204 8205 c
      || between 65024 65039 c
      || between 917760 917999 c
      || between 127995 127999 c
      || between 917536 917631 c
      || between 65438 65439 c
      || c == 3635
      || c == 3763

  unfoldable pub is_grapheme_boundary : List ℕ → ℕ → Bool
  unfolding is_extend is_prepend hangul_kind
  is_grapheme_boundary text index =
      let before = get_or text (index - 1) 0 in
      let after = get_or text index 0 in
      if index == 0 || leb (length text) index
      then true
      else if before == 13 && after == 10
      then false
      else if is_extend after || before == zwj
      then false
      else if is_prepend before
      then false
      else if u.combining before == 9 && u.letter_other after
      then false
      else if is_vowel_or_trailing (hangul_kind after)
      then false
      else if is_leading (hangul_kind before) && is_leading_or_syllable (hangul_kind after)
      then false
      else if is_regional_indicator after && is_regional_indicator before
      then not (run_length is_regional_indicator (reverse (take index text)) % 2 == 1)
      else true

  abbrev pub is_narrow_word_char : ℕ → Bool
  is_narrow_word_char c = u.alnum c && not (u.wide c)

  -- ' and ’
  abbrev pub is_word_joiner : ℕ → Bool
  is_word_joiner c = c == 39 || c == 8217

  unfoldable pub splits_word : List ℕ → ℕ → Bool
  splits_word text index =
      let before = get_or text (index - 1) 0 in
      let after = get_or text index 0 in
      if is_narrow_word_char before && is_narrow_word_char after
      then true
      else if is_word_joiner after && is_narrow_word_char before
      then true
      else is_word_joiner before
        && is_narrow_word_char after
        && leb 2 index
        && is_narrow_word_char (get_or text (index - 2) 0)

  unfoldable pub is_soft : ℕ → Bool
  is_soft c = is_space c || u.punctuation c || u.separator c

  abbrev pub is_space_char : ℕ → Bool
  is_space_char c = is_space c || u.separator c
