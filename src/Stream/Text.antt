-- ===== src/Stream/Text.antt =====
-- The text filters of api/stream.py (tea_asr/api/stream.py), and `hold_back_tail` of punctuation.py.
use tea_asr_service.Prelude.{
  ℕ, zero, suc, ◌+◌, ◌-◌, Bool, not, ◌&&◌, ◌||◌, Option, none, some, List, [], ◌∷◌, keep, leb,
  if◌then◌else◌, length, take, drop, get_or,
}
use tea_asr_service.Translation.Response.{is_space}
use tea_asr_service.Stable.Chars.{Unicode, between}
use tea_asr_service.Repetition.{TrimmedRepetition, any, trim_repetitions}
use tea_asr_service.Stream.{SessionConfig, Warning, private_use_characters}

-- What Python's tables say of a character: those of `stable.py`, the categories Nd and S*, and its
-- NFKC form with the case folded.
pub record Tables : Type 0 where
  pub unicode : Unicode
  pub decimal : ℕ → Bool
  pub symbol : ℕ → Bool
  pub folded : ℕ → List ℕ

unfoldable pub is_private_use_codepoint : ℕ → Bool
is_private_use_codepoint c =
    between 0xE000 0xF8FF c || between 0xF0000 0xFFFFD c || between 0x100000 0x10FFFD c

unfoldable pub private_use_warnings : List ℕ → List Warning
private_use_warnings text =
    if any is_private_use_codepoint text then private_use_characters ∷ [] else []

unfoldable pub filter_private_use_characters : List ℕ → List ℕ
unfolding is_private_use_codepoint
filter_private_use_characters text = keep (λ c. not (is_private_use_codepoint c)) text

module _ (t : Tables) where
  -- `none` is the ValueError of `trim_repetitions`.
  unfoldable pub apply_pua_filter :
      SessionConfig → List ℕ → Option (List ℕ × List TrimmedRepetition)
  unfolding filter_private_use_characters
  apply_pua_filter config text =
      trim_repetitions t.unicode.punctuation t.decimal config.limits
        (if config.filter_pua then filter_private_use_characters text else text)

  -- `_is_soft` of punctuation.py
  unfoldable pub is_mark : ℕ → Bool
  is_mark c = is_space c || t.unicode.punctuation c || t.symbol c

  -- [index for index, char in enumerate(text) if not _is_soft(char)]
  unfoldable pub plain : ℕ → List ℕ → List ℕ
  unfolding is_mark
  plain index [] = []
  plain index (c ∷ text) =
      let rest = plain (suc index) text in if is_mark c then rest else index ∷ rest

  -- The loop over the marks after the cut: how many of them are kept
  unfoldable pub marks_kept : List ℕ → ℕ
  unfolding is_mark
  marks_kept [] = 0
  marks_kept (c ∷ text) =
      let more = suc (marks_kept text) in if is_mark c && not (is_space c) then more else 0

  unfoldable pub hold_back_tail : List ℕ → ℕ → List ℕ
  unfolding plain marks_kept
  hold_back_tail text zero = text
  hold_back_tail text (suc count) =
      let indexes = plain 0 text in
      let cut = suc (get_or indexes (length indexes - suc count - 1) 0) in
      if leb (length indexes) (suc count) then [] else take (cut + marks_kept (drop cut text)) text

  abbrev pub held_back : Option ℕ → List ℕ → List ℕ
  held_back none text = text
  held_back (some margin) text = hold_back_tail text margin
