-- ===== src/Translation/Engine.antt =====
-- `SimtEngine` of tea_asr/translation/simt.py: the READ/WRITE engine of one session. The model is the
-- parameter `complete`, given the direction, the history's text, the source and `force`; `none` is a
-- call that raises. The prompt's fixed text around these is not modelled.
pub mod Framing
pub mod Runs
mod Examples
use tea_asr_service.Prelude.{
  ℕ, ◌+◌, ◌-◌, Bool, true, false, not, ◌&&◌, ◌||◌, List, [], ◌∷◌, ◌++◌, ltb, leb, ◌==◌,
  if◌then◌else◌, length, Option, none, some, drop,
}
use tea_asr_service.Translation.Response.{
  is_blank, strip, source_end, pair_end, sanitize_history, Action, wait, trans,
  parse_model_response,
}

pub data Direction : Type 0 where
  zh2en en2zh : Direction

pub record Decision : Type 0 where
  pub action : Action
  pub source : List ℕ
  pub text : List ℕ
  pub forced : Bool

abbrev pub Pair : Type 0
Pair = List ℕ × List ℕ

pub record SimtEngine : Type 0 where
  pub direction : Direction
  pub history_window : ℕ
  pub history_keep : ℕ
  pub max_buffer_chars : ℕ
  pub buffer : List ℕ
  pub history : List Pair

-- A text of the history: {src}¦{tgt}§, one after the other
abbrev pub text_of : List Pair → List ℕ
text_of [] = []
text_of ((src, tgt) ∷ pairs) = src ++ source_end ∷ tgt ++ pair_end ∷ text_of pairs

unfoldable pub history_text : SimtEngine → List ℕ
history_text e = text_of e.history

abbrev pub is_en2zh : Direction → Bool
is_en2zh zh2en = false
is_en2zh en2zh = true

abbrev pub joiner : SimtEngine → List ℕ → List ℕ
joiner e text =
    if is_en2zh e.direction && (not (is_blank e.buffer) && not (is_blank (strip text)))
    then 32 ∷ []
    else []

-- self.history[-keep:] if keep else []
abbrev pub last_pairs : ℕ → List Pair → List Pair
last_pairs n pairs = if n == 0 then [] else drop (length pairs - n) pairs

abbrev pub trim_history : SimtEngine → List Pair → List Pair
trim_history e pairs =
    if ltb e.history_window (length pairs) then last_pairs e.history_keep pairs else pairs

unfoldable pub settle : List ℕ → Bool → SimtEngine → Action × List ℕ → SimtEngine × Decision
settle source force e (wait, target) = (
  record e { buffer = source },
  record { action = wait; source = source; text = []; forced = force },
)
settle source force e (trans, target) = (
  record e {
    history = trim_history e (e.history ++ (sanitize_history source, target) ∷ []);
    buffer = [];
  },
  record { action = trans; source = source; text = target; forced = force },
)

module _ (complete : Direction → List ℕ → List ℕ → Bool → Option (List ℕ)) where
  unfoldable pub translate : List ℕ → Bool → SimtEngine → Option (SimtEngine × Decision)
  unfolding settle history_text
  translate text force e =
      let source = e.buffer ++ joiner e text ++ strip text in
      let force' = force || ltb e.max_buffer_chars (length source) in
      if is_blank (strip source)
      then some (e, record { action = wait; source = []; text = []; forced = force' })
      else elim (complete e.direction (history_text e) source force') [
        | none ↦ none
        | some raw ↦ some (settle source force' e (parse_model_response raw))
      ]

unfoldable pub drop_history : SimtEngine → SimtEngine
drop_history e = record e { history = [] }
