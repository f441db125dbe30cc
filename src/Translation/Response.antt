-- ===== src/Translation/Response.antt =====
-- The text of the model's answers (tea_asr/translation/simt.py): `sanitize_history` and
-- `parse_model_response`. A text is the list of its characters' codes.
use tea_asr_service.Prelude.{
  ℕ, zero, suc, ◌+◌, ◌-◌, Bool, true, false, ◌&&◌, ◌||◌, List, [], ◌∷◌, map, leb, ◌==◌,
  if◌then◌else◌, length, Option, none, some,
}

-- str.isspace, and `\s` in a pattern
unfoldable pub is_space : ℕ → Bool
is_space c =
    leb 9 c && leb c 13
    || leb 28 c && leb c 32
    || c == 133
    || c == 160
    || c == 5760
    || leb 8192 c && leb c 8202
    || c == 8232
    || c == 8233
    || c == 8239
    || c == 8287
    || c == 12288

abbrev pub is_blank : List ℕ → Bool
is_blank [] = true
is_blank (c ∷ cs) = false

unfoldable pub skip_spaces : List ℕ → List ℕ
skip_spaces [] = []
skip_spaces (c ∷ cs) = let rest = skip_spaces cs in if is_space c then rest else c ∷ cs

unfoldable pub trim_end : List ℕ → List ℕ
trim_end [] = []
trim_end (c ∷ cs) = let rest = trim_end cs in if is_blank rest && is_space c then [] else c ∷ rest

unfoldable pub strip : List ℕ → List ℕ
strip text = skip_spaces (trim_end text)

-- `¦` and `§` give way to `｜` and `；`.
abbrev pub source_end : ℕ
source_end = 166

abbrev pub pair_end : ℕ
pair_end = 167

abbrev pub plain : ℕ → ℕ
plain c = if c == source_end then 65372 else if c == pair_end then 65307 else c

unfoldable pub sanitize_history : List ℕ → List ℕ
sanitize_history text = strip (map plain text)

abbrev pub starts_with : List ℕ → List ℕ → Bool
starts_with [] text = true
starts_with (p ∷ ps) [] = false
starts_with (p ∷ ps) (c ∷ cs) = p == c && starts_with ps cs

-- text.replace(pattern, ""), for a pattern that is not empty; `skip` characters are still to go.
remove_from : List ℕ → ℕ → List ℕ → List ℕ
remove_from pattern skip [] = []
remove_from pattern (suc skip) (c ∷ cs) = remove_from pattern skip cs
remove_from pattern zero (c ∷ cs) =
    let here = remove_from pattern (length pattern - 1) cs in
    let on = remove_from pattern 0 cs in if starts_with pattern (c ∷ cs) then here else c ∷ on

-- <|im_end|>
abbrev im_end : List ℕ
im_end = 60 ∷ 124 ∷ 105 ∷ 109 ∷ 95 ∷ 101 ∷ 110 ∷ 100 ∷ 124 ∷ 62 ∷ []

-- A letter of a pattern under re.IGNORECASE. `p` is its upper case; the other letters that match it
-- are its lower case, and the dotted `İ` and the dotless `ı` for an I, the long `ſ` for an S.
abbrev same_letter : ℕ → ℕ → Bool
same_letter p c = c == p || c == p + 32 || p == 73 && (c == 304 || c == 305) || p == 83 && c == 383

-- What follows the word, if the text starts with it
unfoldable pub after_word : List ℕ → List ℕ → Option (List ℕ)
after_word [] text = some text
after_word (p ∷ ps) [] = none
after_word (p ∷ ps) (c ∷ cs) = let rest = after_word ps cs in if same_letter p c then rest else none

-- WAIT and TRANS
abbrev pub wait_word : List ℕ
wait_word = 87 ∷ 65 ∷ 73 ∷ 84 ∷ []

abbrev pub trans_word : List ℕ
trans_word = 84 ∷ 82 ∷ 65 ∷ 78 ∷ 83 ∷ []

abbrev after_optional : ℕ → List ℕ → List ℕ
after_optional p [] = []
after_optional p (c ∷ cs) = if c == p then cs else c ∷ cs

-- `^<?\s*WORD\s*>?$` on the whole text
unfoldable pub only_word : List ℕ → List ℕ → Bool
unfolding skip_spaces after_word
only_word word text = elim (after_word word (skip_spaces (after_optional 60 text))) [
  | none ↦ false
  | some rest ↦ is_blank (after_optional 62 (skip_spaces rest))
]

-- `<\s*TRANS\s*>\s*`, from the `<` on
tag_close : List ℕ → Option (List ℕ)
tag_close [] = none
tag_close (c ∷ cs) = if c == 62 then some (skip_spaces cs) else none

-- `\s*[:：]\s*|\s+` after TRANS
separator : List ℕ → Option (List ℕ)
separator [] = none
separator (c ∷ cs) =
    let spaced : Option (List ℕ) = if is_space c then some (skip_spaces cs) else none in
    elim (skip_spaces (c ∷ cs)) [
      | [] ↦ spaced
      | d ∷ ds ↦ if d == 58 || d == 65306 then some (skip_spaces ds) else spaced
    ]

tagged : List ℕ → Option (List ℕ)
unfolding tag_close
tagged [] = none
tagged (c ∷ cs) =
    if c == 60
    then elim (after_word trans_word (skip_spaces cs)) [
      | none ↦ none
      | some rest ↦ tag_close (skip_spaces rest)
    ]
    else none

-- _TRANS_PREFIX.sub("", text, count=1)
unfoldable pub without_prefix : List ℕ → List ℕ
unfolding tagged separator
without_prefix text = elim (tagged text) [
  | some rest ↦ rest
  | none ↦ elim (after_word trans_word text) [
    | none ↦ text
    | some rest ↦ elim (separator rest) [ none ↦ text | some rest' ↦ rest' ]
  ]
]

pub data Action : Type 0 where
  wait trans : Action

abbrev pub answer : List ℕ → Action × List ℕ
answer [] = (wait, [])
answer (c ∷ cs) = (trans, c ∷ cs)

unfoldable pub read_stripped : List ℕ → Action × List ℕ
unfolding only_word without_prefix
read_stripped text =
    if is_blank text || only_word wait_word text || only_word trans_word text
    then (wait, [])
    else answer (sanitize_history (without_prefix text))

unfoldable pub parse_model_response : List ℕ → Action × List ℕ
unfolding remove_from
parse_model_response raw = read_stripped (strip (remove_from im_end 0 raw))
