-- ===== src/Translation/Engine/Framing.antt =====
-- The framing of the history in tea_asr/translation/simt.py, and a reader of it.
use tea_asr_service.Prelude.{
  ℕ, zero, suc, ◌-◌, ◌≤◌, ◌≡◌, refl, inl, inr, Bool, false, ◌&&◌, ◌||◌, Bool-cases, List, [], ◌∷◌,
  ◌++◌, map, ltb, ◌==◌, ==_iff, if◌then◌else◌, length, length-drop, drop, All, All-append, arith,
}
use tea_asr_service.Translation.Response.{
  is_space, is_blank, skip_spaces, trim_end, strip, source_end, pair_end, plain, sanitize_history,
  Action, wait, trans, read_stripped, wait_word, trans_word, only_word, parse_model_response,
  without_prefix, answer,
}
use tea_asr_service.Translation.Engine.{Pair, SimtEngine, text_of, trim_history, settle}

-- A reader of the framing, written on its own: the pieces of a text between the separators.
abbrev onto : ℕ → List (List ℕ) → List (List ℕ)
onto c [] = (c ∷ []) ∷ []
onto c (piece ∷ pieces) = (c ∷ piece) ∷ pieces

abbrev pub split_at : ℕ → List ℕ → List (List ℕ)
split_at sep [] = [] ∷ []
split_at sep (c ∷ cs) = if c == sep then [] ∷ split_at sep cs else onto c (split_at sep cs)

abbrev pub Lacks : ℕ → List ℕ → Type 0
Lacks sep = All (λ c. (c == sep) ≡ false)

split_at-append :
    (sep : ℕ) (xs ys : List ℕ) → Lacks sep xs → split_at sep (xs ++ sep ∷ ys) ≡ xs ∷ split_at sep ys
split_at-append sep [] ys h = rw ((==_iff sep sep).1 refl) refl
split_at-append sep (x ∷ xs) ys h = rw (h.0, split_at-append sep xs ys h.1) refl

split_at-alone : (sep : ℕ) (xs : List ℕ) → Lacks sep xs → split_at sep xs ≡ xs ∷ []
split_at-alone sep [] h = refl
split_at-alone sep (x ∷ xs) h = rw (h.0, split_at-alone sep xs h.1) refl

-- A text without separators, which the framing can hold
abbrev pub Framed : List ℕ → Type 0
Framed text = Lacks source_end text × Lacks pair_end text

abbrev pub FramedPair : Pair → Type 0
FramedPair (src, tgt) = Framed src × Framed tgt

abbrev pub pieces : Pair → List (List ℕ)
pieces (src, tgt) = src ∷ tgt ∷ []

abbrev pub read_pairs : List ℕ → List (List (List ℕ))
read_pairs text = map (split_at source_end) (split_at pair_end text)

line : (src tgt : List ℕ) → Framed src → Framed tgt → Lacks pair_end (src ++ source_end ∷ tgt)
line src tgt hs ht =
    All-append (λ c. (c == pair_end) ≡ false) src (source_end ∷ tgt) hs.1 (refl, ht.1)

-- Read back, the text of a history gives its pairs, whatever their texts: if none holds a separator,
-- nothing else is needed to tell them apart.
pub read_pairs-text_of :
    (pairs : List Pair)
    → All FramedPair pairs
    → read_pairs (text_of pairs) ≡ map pieces pairs ++ ([] ∷ []) ∷ []
read_pairs-text_of [] h = refl
read_pairs-text_of ((src, tgt) ∷ pairs) h =
    rw
      (
        split_at-append pair_end (src ++ source_end ∷ tgt) (text_of pairs)
            (line src tgt h.0.0 h.0.1),
        split_at-append source_end src tgt h.0.0.0,
        split_at-alone source_end tgt h.0.1.0,
        read_pairs-text_of pairs h.1,
      )
      refl

skip_spaces-All : (P : ℕ → Type 0) (text : List ℕ) → All P text → All P (skip_spaces text)
unfolding skip_spaces
skip_spaces-All P [] h = tt
skip_spaces-All P (c ∷ cs) h = elim (Bool-cases (is_space c)) [
  | inl space ↦ simp space (skip_spaces-All P cs h.1)
  | inr mark ↦ simp mark h
]

trim_end-All : (P : ℕ → Type 0) (text : List ℕ) → All P text → All P (trim_end text)
unfolding trim_end
trim_end-All P [] h = tt
trim_end-All P (c ∷ cs) h = elim (Bool-cases (is_blank (trim_end cs) && is_space c)) [
  | inl gone ↦ simp gone tt
  | inr stays ↦ simp stays (h.0, trim_end-All P cs h.1)
]

plain-Framed : (text : List ℕ) → Framed (map plain text)
plain-Framed [] = (tt, tt)
plain-Framed (c ∷ cs) =
    let rest = plain-Framed cs in ((ground arith, rest.0), (ground arith, rest.1))

pub sanitize_history-Framed : (text : List ℕ) → Framed (sanitize_history text)
unfolding sanitize_history strip
sanitize_history-Framed text =
    let h = plain-Framed text in
    (
      skip_spaces-All (λ c. (c == source_end) ≡ false) (trim_end (map plain text))
          (trim_end-All (λ c. (c == source_end) ≡ false) (map plain text) h.0),
      skip_spaces-All (λ c. (c == pair_end) ≡ false) (trim_end (map plain text))
          (trim_end-All (λ c. (c == pair_end) ≡ false) (map plain text) h.1),
    )

-- What an answer is worth: a translation has a text, without separators, and a WAIT has none.
abbrev pub Answer : Action × List ℕ → Type 0
Answer (wait, target) = target ≡ []
Answer (trans, target) = (is_blank target ≡ false) × Framed target

answer-Answer : (text : List ℕ) → Framed text → Answer (answer text)
answer-Answer [] h = refl
answer-Answer (c ∷ cs) h = (refl, h)

read_stripped-Answer : (text : List ℕ) → Answer (read_stripped text)
unfolding read_stripped
read_stripped-Answer text =
    elim (Bool-cases (is_blank text || only_word wait_word text || only_word trans_word text)) [
      | inl bare ↦ simp bare refl
      | inr full ↦ simp full (
          answer-Answer (sanitize_history (without_prefix text))
            (sanitize_history-Framed (without_prefix text)))
    ]

-- Whatever the model writes, it is read as a translation with a text that the framing can hold, or
-- as a WAIT without one.
pub parse_model_response-Answer : (raw : List ℕ) → Answer (parse_model_response raw)
unfolding parse_model_response
parse_model_response-Answer raw = read_stripped-Answer _

-- What the engine keeps true of its history
pub record IsFramed (e : SimtEngine) : Type 0 where
  pub bounded : length e.history ≤ e.history_window
  pub framed : All FramedPair e.history

last_pairs-framed :
    (n : ℕ) (pairs : List Pair) → All FramedPair pairs → All FramedPair (drop n pairs)
last_pairs-framed zero pairs h = h
last_pairs-framed (suc n) [] h = tt
last_pairs-framed (suc n) (p ∷ pairs) h = last_pairs-framed n pairs h.1

trim_history-length :
    (e : SimtEngine) (pairs : List Pair)
    → e.history_keep ≤ e.history_window
    → length (trim_history e pairs) ≤ e.history_window
trim_history-length e pairs le = ground (arith, length-drop (length pairs - e.history_keep) pairs)

trim_history-framed :
    (e : SimtEngine) (pairs : List Pair)
    → All FramedPair pairs
    → All FramedPair (trim_history e pairs)
trim_history-framed e pairs h = elim (Bool-cases (ltb e.history_window (length pairs))) [
  | inl over ↦ elim (Bool-cases (e.history_keep == 0)) [
    | inl none' ↦ simp (over, none') tt
    | inr some' ↦ simp (over, some') (last_pairs-framed (length pairs - e.history_keep) pairs h)
  ]
  | inr fits ↦ simp fits h
]

pub settle-IsFramed :
    (source : List ℕ) (force : Bool) (e : SimtEngine) (a : Action × List ℕ)
    → e.history_keep ≤ e.history_window
    → Answer a
    → IsFramed e
    → IsFramed (settle source force e a).0
unfolding settle
settle-IsFramed source force e (wait, target) le h v = record {
  bounded = v.bounded;
  framed = v.framed;
}
settle-IsFramed source force e (trans, target) le h v =
    let pairs = e.history ++ (sanitize_history source, target) ∷ [] in
    record {
      bounded = trim_history-length e pairs le;
      framed = trim_history-framed e pairs (
          All-append FramedPair e.history ((sanitize_history source, target) ∷ []) v.framed
            ((sanitize_history-Framed source, h.1), tt));
    }
