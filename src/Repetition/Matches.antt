-- ===== src/Repetition/Matches.antt =====
-- What tea_asr/repetition.py finds at one place of a text: a run to trim, one to leave alone, or nothing.
use tea_asr_service.Prelude.{
  ℕ, ◌+◌, ◌-◌, ◌≤◌, ◌<◌, max, ◌≡◌, ◌⊎◌, Bool, true, false, Option, List, length, take, get_elem?,
  ◌↔◌, ◌||◌, arith,
}
use tea_asr_service.Repetition.{
  any, every, holds, mem, token_joiners, is_ascii_letter, is_repeat_separator, is_numeral, Limits,
  TrimmedRepetition, Found, nothing, preserved, matched, threshold, limit, can_trim_repeat_run,
}
use tea_asr_service.Repetition.Runs.{IsPositive}
use tea_asr_service.Repetition.Copies.{Copies}

module _ (punctuation decimal : ℕ → Bool) (l : Limits) where
  -- `n` copies are too many: of a unit with a numeral, more than 3 and than the numeral limit, and more
  -- than 9 of a single decimal digit; of another character or unit, more than its limit.
  abbrev pub Passes : List ℕ → ℕ → Type 0
  Passes unit n =
      ((any (is_numeral punctuation decimal) unit ≡ true)
        × (3 < n)
        × (l.numeral_loop_limit < n)
        × (length unit ≡ 1 → every decimal unit ≡ true → 9 < n))
      ⊎ ((any (is_numeral punctuation decimal) unit ≡ false)
          × (length unit ≡ 1 → l.single_char_limit < n)
          × (1 < length unit → l.multi_char_limit < n))

  -- Of too many copies, `n` stay.
  abbrev pub Keeps : List ℕ → ℕ → Type 0
  Keeps unit n =
      ((any (is_numeral punctuation decimal) unit ≡ true) × (n ≡ 3))
      ⊎ ((any (is_numeral punctuation decimal) unit ≡ false)
          × (length unit ≡ 1 → n ≡ l.single_char_limit)
          × (1 < length unit → n ≡ l.multi_char_limit))

  -- A letter or a joiner of tokens like the underscore
  abbrev pub is_token : ℕ → Bool
  is_token c = is_ascii_letter c || mem c token_joiners

  -- Neither neighbour of the run is a numeral, nor part of a token with it, when the unit is of letters.
  abbrev pub IsFree : Option ℕ → Option ℕ → List ℕ → Type 0
  IsFree before after unit =
      (holds (is_numeral punctuation decimal) before ≡ false)
      × (holds (is_numeral punctuation decimal) after ≡ false)
      × (every is_ascii_letter unit ≡ true
          → (holds is_token before ≡ false) × (holds is_token after ≡ false))

  -- Up to `e`, the text is `n` copies, too many, of a unit that it starts with and that has 1 to 6
  -- characters, none of them a separator.
  pub record IsRun (text unit : List ℕ) (e n : ℕ) : Type 0 where
    pub some_unit : 0 < length unit
    pub short : length unit ≤ 6
    pub solid : any (is_repeat_separator punctuation decimal) unit ≡ false
    pub first : take (length unit) text ≡ unit
    pub inside : e ≤ length text
    pub run : Copies punctuation decimal unit n (take e text)
    pub many : Passes unit n

  -- The text does not start with more than `n` copies.
  abbrev pub IsWhole : List ℕ → List ℕ → ℕ → Type 0
  IsWhole text unit n = (m e : ℕ) → Copies punctuation decimal unit m (take e text) → m ≤ n

  -- A run that ends at `e` is trimmed to the copies that end at `r`.
  pub record IsTrim (before : Option ℕ) (text : List ℕ) (r e : ℕ) (t : TrimmedRepetition)
      : Type 0 where
    pub copies : ℕ
    pub run : IsRun text t.unit e copies
    pub whole : IsWhole text t.unit copies
    pub free : IsFree before (get_elem? text e) t.unit
    pub left : ℕ
    pub keeps : Keeps t.unit left
    pub kept : Copies punctuation decimal t.unit left (take r text)
    pub some_kept : 0 < r
    pub some_removed : 0 < t.removed_chars
    pub removed : r + t.removed_chars ≡ e
    pub unit_length : t.unit_length ≡ length t.unit

  -- A run that ends at `e` is left alone for its neighbours.
  pub record IsLeft (before : Option ℕ) (text : List ℕ) (e : ℕ) : Type 0 where
    pub unit : List ℕ
    pub copies : ℕ
    pub run : IsRun text unit e copies
    pub whole : IsWhole text unit copies
    pub bound : ¬ IsFree before (get_elem? text e) unit
    pub some_left : 0 < e

  -- No run starts the text whose unit has `k` characters or more.
  abbrev pub Quiet : ℕ → List ℕ → Type 0
  Quiet k text = (unit : List ℕ) (e n : ℕ) → k ≤ length unit → ¬ IsRun text unit e n

  abbrev pub Sound : ℕ → Option ℕ → List ℕ → Found → Type 0
  Sound k before text nothing = Quiet k text
  Sound k before text (preserved e) = IsLeft before text e
  Sound k before text (matched m r e) =
      IsTrim before text r e (record { unit = take m text; unit_length = m; removed_chars = e - r })

  pub Passes-iff :
      (unit : List ℕ) (n : ℕ)
      → 0 < length unit
      → Passes unit n
        ↔ (max (threshold punctuation decimal l unit) (limit punctuation decimal l unit) < n)
  Passes-iff unit n some' = (λ p. ground arith, λ h. ground arith)

  pub limit-Keeps :
      (unit : List ℕ) → 0 < length unit → Keeps unit (limit punctuation decimal l unit)
  limit-Keeps unit some' = ground arith

  pub limit-positive : (unit : List ℕ) → IsPositive l → 0 < limit punctuation decimal l unit
  limit-positive unit p = ground (arith, p.single, p.multi, p.numeral)

  pub IsFree-iff :
      (before after : Option ℕ) (unit : List ℕ)
      → (can_trim_repeat_run punctuation decimal before after unit ≡ true)
        ↔ IsFree before after unit
  unfolding can_trim_repeat_run
  IsFree-iff before after unit = (λ e. ground arith, λ f. ground arith)
