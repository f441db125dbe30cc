-- ===== src/Repetition.antt =====
-- tea_asr/repetition.py: the trimming of repeated units. A text is the list of its characters' codes. Two
-- of Unicode's categories are parameters: `punctuation` for the categories P*, `decimal` for Nd. The loop
-- over the text goes down the text: after a match the next `copy` characters are kept and the `skip`
-- ones behind them left out, which is the jump of the index. Offsets count from the place of the match.
pub mod Runs
pub mod Copies
pub mod Matches
pub mod Search
pub mod Trimming
mod Examples
use tea_asr_service.Prelude.{
  ℕ, zero, suc, ◌+◌, ◌-◌, min, max, Bool, true, false, not, ◌&&◌, ◌||◌, Option, none, some, List,
  [], ◌∷◌, ◌++◌, ltb, leb, ◌==◌, if◌then◌else◌, length, take, get_elem?, get_or,
}
use tea_asr_service.Translation.Response.{is_space, starts_with}

abbrev pub mem : ℕ → List ℕ → Bool
mem c [] = false
mem c (d ∷ ds) = c == d || mem c ds

abbrev pub any : (ℕ → Bool) → List ℕ → Bool
any test [] = false
any test (c ∷ cs) = test c || any test cs

abbrev pub every : (ℕ → Bool) → List ℕ → Bool
every test [] = true
every test (c ∷ cs) = test c && every test cs

abbrev pub holds : (ℕ → Bool) → Option ℕ → Bool
holds test none = false
holds test (some c) = test c

-- 〇零一二三四五六七八九十百千萬億兩
abbrev pub cjk_numerals : List ℕ
cjk_numerals =
    12295 ∷ 38646 ∷ 19968 ∷ 20108 ∷ 19977 ∷ 22235 ∷ 20116 ∷ 20845 ∷ 19971 ∷ 20843 ∷ 20061 ∷ 21313
    ∷ 30334 ∷ 21315 ∷ 33836 ∷ 20740 ∷ 20841 ∷ []

-- _.-@/:#
abbrev pub token_joiners : List ℕ
token_joiners = 95 ∷ 46 ∷ 45 ∷ 64 ∷ 47 ∷ 58 ∷ 35 ∷ []

abbrev pub is_ascii_letter : ℕ → Bool
is_ascii_letter c = leb 65 c && leb c 90 || leb 97 c && leb c 122

pub record TrimmedRepetition : Type 0 where
  pub unit : List ℕ
  pub unit_length : ℕ
  pub removed_chars : ℕ

pub record Limits : Type 0 where
  pub single_char_limit : ℕ
  pub multi_char_limit : ℕ
  pub numeral_loop_limit : ℕ

-- What the loop over the unit lengths finds: `match`, `preserved_end`, or neither
pub data Found : Type 0 where
  nothing : Found
  preserved : (end : ℕ) → Found
  matched : (unit_length : ℕ) (retained_end run_end : ℕ) → Found

abbrev pub last_or : ℕ → List ℕ → ℕ
last_or d [] = d
last_or d (x ∷ xs) = last_or x xs

abbrev pub upto : ℕ → ℕ → List ℕ
upto n zero = []
upto n (suc k) = n ∷ upto (suc n) k

-- What is kept behind the first character of the match, and then left out
abbrev pub copy_of : Found → ℕ
copy_of nothing = 0
copy_of (preserved end) = end - 1
copy_of (matched unit_length retained_end run_end) = retained_end - 1

abbrev pub skip_of : Found → ℕ
skip_of nothing = 0
skip_of (preserved end) = 0
skip_of (matched unit_length retained_end run_end) = run_end - retained_end

abbrev pub trims_of : List ℕ → Found → List TrimmedRepetition
trims_of text nothing = []
trims_of text (preserved end) = []
trims_of text (matched unit_length retained_end run_end) =
    record {
      unit = take unit_length text;
      unit_length = unit_length;
      removed_chars = run_end - retained_end;
    }
    ∷ []

module _ (punctuation decimal : ℕ → Bool) where
  abbrev pub is_repeat_separator : ℕ → Bool
  is_repeat_separator c = is_space c || punctuation c

  abbrev pub is_numeral : ℕ → Bool
  is_numeral c = decimal c || mem c cjk_numerals

  -- The loop of `_repeat_ends`, from `cursor` on; `inside` characters of the copy are still to go.
  ends_from : List ℕ → ℕ → ℕ → List ℕ → List ℕ
  ends_from unit cursor inside [] = []
  ends_from unit cursor (suc inside) (c ∷ cs) = ends_from unit (suc cursor) inside cs
  ends_from unit cursor zero (c ∷ cs) =
      let on = ends_from unit (suc cursor) 0 cs in
      let copy = ends_from unit (suc cursor) (length unit - 1) cs in
      if is_repeat_separator c
      then on
      else if starts_with unit (c ∷ cs)
      then (cursor + length unit) ∷ copy
      else []

  -- `_repeat_ends`, for a unit that the text starts with
  unfoldable pub repeat_ends : List ℕ → List ℕ → List ℕ
  unfolding ends_from
  repeat_ends unit text = length unit ∷ ends_from unit 0 (length unit) text

  -- `before` is the character before the run, and `after` the one behind it.
  unfoldable pub can_trim_repeat_run : Option ℕ → Option ℕ → List ℕ → Bool
  can_trim_repeat_run before after unit =
      if holds is_numeral before
      then false
      else if holds is_numeral after
      then false
      else if every is_ascii_letter unit
      then not (holds (λ c. is_ascii_letter c || mem c token_joiners) before)
        && not (holds (λ c. is_ascii_letter c || mem c token_joiners) after)
      else true

  abbrev pub numeral_threshold : Limits → List ℕ → ℕ
  numeral_threshold l unit =
      if length unit == 1 && every decimal unit
      then max l.numeral_loop_limit 9
      else l.numeral_loop_limit

  abbrev pub threshold : Limits → List ℕ → ℕ
  threshold l unit =
      if any is_numeral unit
      then numeral_threshold l unit
      else if length unit == 1
      then l.single_char_limit
      else l.multi_char_limit

  abbrev pub limit : Limits → List ℕ → ℕ
  limit l unit = if any is_numeral unit then 3 else threshold l unit

  -- One unit length; `rest` is what the longer ones give.
  unfoldable pub try_unit : Limits → Option ℕ → List ℕ → List ℕ → Found → Found
  unfolding repeat_ends can_trim_repeat_run
  try_unit l before text unit rest =
      let ends = repeat_ends unit text in
      let end = last_or 0 ends in
      if any is_repeat_separator unit
      then rest
      else if ltb (max (threshold l unit) (limit l unit)) (length ends)
      then (if can_trim_repeat_run before (get_elem? text end) unit
          then matched (length unit) (get_or ends (limit l unit - 1) 0) end
          else preserved end)
      else rest

  unfoldable pub find : Limits → Option ℕ → List ℕ → List ℕ → Found
  unfolding try_unit
  find l before text [] = nothing
  find l before text (k ∷ ks) =
      let rest = find l before text ks in try_unit l before text (take k text) rest

  -- The match at the head of the text
  unfoldable pub match_at : Limits → Option ℕ → List ℕ → Found
  unfolding find
  match_at l before text = find l before text (upto 1 (min 6 (length text)))

  -- The characters of the text that are kept, and what was trimmed
  unfoldable pub trim_from : Limits → Option ℕ → ℕ → ℕ → List ℕ → List ℕ × List TrimmedRepetition
  trim_from l before copy skip [] = ([], [])
  trim_from l before (suc copy) skip (c ∷ cs) =
      let (out, trims) = trim_from l (some c) copy skip cs in (c ∷ out, trims)
  trim_from l before zero (suc skip) (c ∷ cs) = trim_from l (some c) zero skip cs
  trim_from l before zero zero (c ∷ cs) =
      let found = match_at l before (c ∷ cs) in
      let (out, trims) = trim_from l (some c) (copy_of found) (skip_of found) cs in
      (c ∷ out, trims_of (c ∷ cs) found ++ trims)

  -- `none` is the ValueError.
  unfoldable pub trim_repetitions : Limits → List ℕ → Option (List ℕ × List TrimmedRepetition)
  trim_repetitions l text =
      if ltb (min (min l.single_char_limit l.multi_char_limit) l.numeral_loop_limit) 1
      then none
      else some (trim_from l none 0 0 text)
