-- ===== src/Translation/Engine/Runs.antt =====
-- The engine of tea_asr/translation/simt.py over a session: any increments, answered in any way.
use tea_asr_service.Prelude.{
  ℕ, ◌≤◌, ◌≡◌, refl, sym, ap, subst, ◌∙◌, inl, inr, Bool, true, ◌&&◌, ◌||◌, Bool-cases,
  Option-cases, List, [], ◌∷◌, ◌++◌, append-nil, append_assoc, map, ltb, if◌then◌else◌, length,
  Option, none, some, All, arith,
}
use tea_asr_service.Translation.Response.{
  is_space, is_blank, skip_spaces, trim_end, strip, Action, wait, trans, parse_model_response,
}
use tea_asr_service.Translation.Engine.{
  Direction, zh2en, Decision, SimtEngine, settle, translate, joiner, history_text,
}
use tea_asr_service.Translation.Engine.Framing.{
  IsFramed, settle-IsFramed, parse_model_response-Answer,
}

-- The source that a decision takes out of the buffer.
abbrev source_of : Action → List ℕ → List ℕ
source_of wait source = []
source_of trans source = source

abbrev pub committed : List Decision → List ℕ
committed [] = []
committed (d ∷ ds) = source_of d.action d.source ++ committed ds

abbrev pub joined : List (List ℕ) → List ℕ
joined [] = []
joined (text ∷ texts) = text ++ joined texts

abbrev Spaces : List ℕ → Type 0
Spaces = All (λ c. is_space c ≡ true)

skip_spaces-Spaces : (text : List ℕ) → is_blank (skip_spaces text) ≡ true → Spaces text
unfolding skip_spaces
skip_spaces-Spaces [] h = tt
skip_spaces-Spaces (c ∷ cs) h = elim (Bool-cases (is_space c)) [
  | inl space ↦ (space, skip_spaces-Spaces cs (ground (arith, space, h)))
  | inr mark ↦ ground (arith, mark, h)
]

is_blank-Spaces : (text : List ℕ) → is_blank text ≡ true → Spaces text
is_blank-Spaces [] h = tt
is_blank-Spaces (c ∷ cs) h = cc

trim_end-Spaces : (text : List ℕ) → Spaces (trim_end text) → Spaces text
unfolding trim_end
trim_end-Spaces [] h = tt
trim_end-Spaces (c ∷ cs) h = elim (Bool-cases (is_blank (trim_end cs) && is_space c)) [
  | inl gone ↦ (
    ground (arith, gone),
    trim_end-Spaces cs (is_blank-Spaces (trim_end cs) (ground (arith, gone))),
  )
  | inr stays ↦
      let (space, rest) = subst (λ b. Spaces (if b then [] else c ∷ trim_end cs)) stays h in
      (space, trim_end-Spaces cs rest)
]

-- Nothing but spaces is left of no text.
skip_spaces-nil : (text : List ℕ) → Spaces (skip_spaces text) → skip_spaces text ≡ []
unfolding skip_spaces
skip_spaces-nil [] h = refl
skip_spaces-nil (c ∷ cs) h = elim (Bool-cases (is_space c)) [
  | inl space ↦
      simp space
        (skip_spaces-nil cs (subst (λ b. Spaces (if b then skip_spaces cs else c ∷ cs)) space h))
  | inr mark ↦
      let first = (subst (λ b. Spaces (if b then skip_spaces cs else c ∷ cs)) mark h).0 in cc
]

All-right : (P : ℕ → Type 0) (xs ys : List ℕ) → All P (xs ++ ys) → All P ys
All-right P [] ys h = h
All-right P (x ∷ xs) ys h = All-right P xs ys h.1

strip-last : (xs text : List ℕ) → is_blank (strip (xs ++ strip text)) ≡ true → strip text ≡ []
unfolding strip
strip-last xs text h = skip_spaces-nil (trim_end text) (
    All-right (λ c. is_space c ≡ true) xs (strip text)
      (trim_end-Spaces (xs ++ strip text) (skip_spaces-Spaces (trim_end (xs ++ strip text)) h)))

settle-source :
    (source : List ℕ) (force : Bool) (e : SimtEngine) (a : Action × List ℕ)
    → let (e', d) = settle source force e a in source_of d.action d.source ++ e'.buffer ≡ source
unfolding settle
settle-source source force e (wait, target) = refl
settle-source source force e (trans, target) = append-nil source

abbrev Called : Type 0
Called = Option (SimtEngine × Decision)

abbrev next : Called → SimtEngine → SimtEngine
next none e = e
next (some (e', d)) e = e'

abbrev heard : Called → List Decision
heard none = []
heard (some (e', d)) = d ∷ []

abbrev taken : List ℕ → Called → List (List ℕ)
taken text none = []
taken text (some (e', d)) = text ∷ []

committed-append : (xs ys : List Decision) → committed (xs ++ ys) ≡ committed xs ++ committed ys
committed-append [] ys = refl
committed-append (d ∷ xs) ys =
    ap (λ t. source_of d.action d.source ++ t) (committed-append xs ys)
    ∙ sym (append_assoc (source_of d.action d.source) (committed xs) (committed ys))

joined-append : (xs ys : List (List ℕ)) → joined (xs ++ ys) ≡ joined xs ++ joined ys
joined-append [] ys = refl
joined-append (x ∷ xs) ys =
    ap (λ t. x ++ t) (joined-append xs ys) ∙ sym (append_assoc x (joined xs) (joined ys))

map-append : (f : List ℕ → List ℕ) (xs ys : List (List ℕ)) → map f (xs ++ ys) ≡ map f xs ++ map f ys
map-append f [] ys = refl
map-append f (x ∷ xs) ys = ap (λ t. f x ∷ t) (map-append f xs ys)

settle-direction :
    (source : List ℕ) (force : Bool) (e : SimtEngine) (a : Action × List ℕ)
    → (settle source force e a).0.direction ≡ e.direction
unfolding settle
settle-direction source force e (wait, target) = refl
settle-direction source force e (trans, target) = refl

settle-bounds :
    (source : List ℕ) (force : Bool) (e : SimtEngine) (a : Action × List ℕ)
    → let e' = (settle source force e a).0 in
      (e'.history_keep ≡ e.history_keep) × (e'.history_window ≡ e.history_window)
unfolding settle
settle-bounds source force e (wait, target) = (refl, refl)
settle-bounds source force e (trans, target) = (refl, refl)

module _ (complete : Direction → List ℕ → List ℕ → Bool → Option (List ℕ)) where
  -- The increments of a session: the engine then, the decisions, and the texts of the calls that did
  -- not raise.
  unfoldable pub run :
      SimtEngine → List (List ℕ × Bool) → SimtEngine × List Decision × List (List ℕ)
  run e [] = (e, [], [])
  run e ((text, force) ∷ increments) =
      let r = translate complete text force e in
      let (e', decisions, texts) = run (next r e) increments in
      (e', heard r ++ decisions, taken text r ++ texts)

  -- The rule for a call: it leaves a blank source be, raises, or settles what the model answers.
  translate_ind :
      (P : Called → Type 0) (text : List ℕ) (force : Bool) (e : SimtEngine)
      → let source = e.buffer ++ joiner e text ++ strip text in
        (is_blank (strip source) ≡ true → (d : Decision) → d.action ≡ wait → P (some (e, d)))
        → P none
        → ((raw : List ℕ) (forced : Bool)
            → P (some (settle source forced e (parse_model_response raw))))
        → P (translate complete text force e)
  unfolding translate
  translate_ind P text force e left raised answered =
      let source = e.buffer ++ joiner e text ++ strip text in
      elim (Bool-cases (is_blank (strip source))) [
        | inl blank ↦ simp blank (left blank _ refl)
        | inr full ↦
            elim (Option-cases (
              complete e.direction (history_text e) source
                (force || ltb e.max_buffer_chars (length source)))) [
                  | inl raises ↦ simp (full, raises) raised
                  | inr (raw, answers) ↦ simp (full, answers) (answered raw _)
                ]
      ]

  translate-source :
      (text : List ℕ) (force : Bool) (e : SimtEngine)
      → e.direction ≡ zh2en
      → let r = translate complete text force e in
        committed (heard r) ++ (next r e).buffer ≡ e.buffer ++ joined (map strip (taken text r))
  translate-source text force e zh =
      let source = e.buffer ++ joiner e text ++ strip text in
      let plain : source ≡ e.buffer ++ strip text = simp (zh, append-nil e.buffer) refl in
      translate_ind
        (λ r.
          committed (heard r) ++ (next r e).buffer ≡ e.buffer ++ joined (map strip (taken text r)))
        text force e
        (λ blank d waits.
          rw (waits, strip-last (e.buffer ++ joiner e text) text blank, append-nil e.buffer) refl)
        (sym (append-nil e.buffer))
        (λ raw forced.
          let (e', d) = settle source forced e (parse_model_response raw) in
          ap (λ t. t ++ e'.buffer) (append-nil (source_of d.action d.source))
          ∙ settle-source source forced e (parse_model_response raw)
          ∙ plain
          ∙ ap (λ t. e.buffer ++ t) (sym (append-nil (strip text))))

  translate-direction :
      (text : List ℕ) (force : Bool) (e : SimtEngine)
      → (next (translate complete text force e) e).direction ≡ e.direction
  translate-direction text force e =
      translate_ind (λ r. (next r e).direction ≡ e.direction) text force e (λ _ d _. refl) refl
        (λ raw forced. settle-direction _ forced e (parse_model_response raw))

  -- From Chinese, nothing of the source is lost, doubled or reordered, whatever the model answers: the
  -- sources of the translations and then the buffer are the buffer at first and then the texts of the
  -- calls that did not raise, each without the spaces around it.
  pub run-source :
      (e : SimtEngine) (increments : List (List ℕ × Bool))
      → e.direction ≡ zh2en
      → let (e', decisions, texts) = run e increments in
        committed decisions ++ e'.buffer ≡ e.buffer ++ joined (map strip texts)
  unfolding run
  run-source e [] zh = sym (append-nil e.buffer)
  run-source e ((text, force) ∷ increments) zh =
      let r = translate complete text force e in
      let q = run (next r e) increments in
      ap (λ t. t ++ q.0.buffer) (committed-append (heard r) q.1)
      ∙ append_assoc (committed (heard r)) (committed q.1) q.0.buffer
      ∙ ap (λ t. committed (heard r) ++ t)
          (run-source (next r e) increments (translate-direction text force e ∙ zh))
      ∙ sym (append_assoc (committed (heard r)) (next r e).buffer (joined (map strip q.2)))
      ∙ ap (λ t. t ++ joined (map strip q.2)) (translate-source text force e zh)
      ∙ append_assoc e.buffer (joined (map strip (taken text r))) (joined (map strip q.2))
      ∙ ap (λ t. e.buffer ++ t)
          (sym (
            ap joined (map-append strip (taken text r) q.2)
            ∙ joined-append (map strip (taken text r)) (map strip q.2)))

  translate-IsFramed :
      (text : List ℕ) (force : Bool) (e : SimtEngine)
      → e.history_keep ≤ e.history_window
      → IsFramed e
      → IsFramed (next (translate complete text force e) e)
  translate-IsFramed text force e le v =
      translate_ind (λ r. IsFramed (next r e)) text force e (λ _ d _. v) v
        (λ raw forced.
          settle-IsFramed _ forced e (parse_model_response raw) le (parse_model_response-Answer raw)
            v)

  translate-bounds :
      (text : List ℕ) (force : Bool) (e : SimtEngine)
      → let e' = next (translate complete text force e) e in
        (e'.history_keep ≡ e.history_keep) × (e'.history_window ≡ e.history_window)
  translate-bounds text force e =
      translate_ind
        (λ r.
          ((next r e).history_keep ≡ e.history_keep)
          × ((next r e).history_window ≡ e.history_window))
        text force e (λ _ d _. (refl, refl)) (refl, refl)
        (λ raw forced. settle-bounds _ forced e (parse_model_response raw))

  -- Whatever the model answers, the history stays within its window, and no text in it holds one of the
  -- separators of its framing; the history that is kept on a trim must fit the window.
  pub run-IsFramed :
      (e : SimtEngine) (increments : List (List ℕ × Bool))
      → e.history_keep ≤ e.history_window
      → IsFramed e
      → IsFramed (run e increments).0
  unfolding run
  run-IsFramed e [] le v = v
  run-IsFramed e ((text, force) ∷ increments) le v =
      let same = translate-bounds text force e in
      run-IsFramed (next (translate complete text force e) e) increments
        (omega (arith, le, same.0, same.1)) (translate-IsFramed text force e le v)
