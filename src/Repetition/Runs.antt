-- ===== src/Repetition/Runs.antt =====
-- The runs that tea_asr/repetition.py finds: where their copies end.
use tea_asr_service.Prelude.{
  ℕ, zero, suc, ◌+◌, ◌-◌, ◌≤◌, ◌<◌, ◌≡◌, refl, subst, inl, inr, Bool, true, Bool-cases, List, [],
  ◌∷◌, length, get_or, arith,
}
use tea_asr_service.Translation.Response.{starts_with}
use tea_asr_service.Repetition.{is_repeat_separator, ends_from, repeat_ends, last_or, Limits}

-- The offsets go up from `a`, and none is past `n`.
abbrev pub Ascends : ℕ → ℕ → List ℕ → Type 0
Ascends a n [] = a ≤ n
Ascends a n (e ∷ es) = (a < e) × Ascends e n es

Ascends-le : (a n : ℕ) (es : List ℕ) → Ascends a n es → a ≤ n
Ascends-le a n [] h = h
Ascends-le a n (e ∷ es) h = omega (arith, h.0, Ascends-le e n es h.1)

pub Ascends-last :
    (a n d : ℕ) (es : List ℕ)
    → d ≤ a
    → Ascends a n es
    → 0 < length es
    → (a < last_or d es) × (last_or d es ≤ n)
Ascends-last a n d [] le h some' = absurd (omega (arith, some'))
Ascends-last a n d (e ∷ []) le h some' = (h.0, h.1)
Ascends-last a n d (e ∷ f ∷ es) le h some' =
    let rest = Ascends-last e n e (f ∷ es) (omega arith) h.1 (omega arith) in
    (omega (arith, h.0, rest.0), rest.1)

-- The offset at the place `i`, which is not the last one
pub Ascends-get :
    (a n d i : ℕ) (es : List ℕ)
    → Ascends a n es
    → suc i < length es
    → (a < get_or es i 0) × (get_or es i 0 < last_or d es)
Ascends-get a n d i [] h le = absurd (omega (arith, le))
Ascends-get a n d zero (e ∷ es) h le =
    (h.0, (Ascends-last e n e es (omega arith) h.1 (omega (arith, le))).0)
Ascends-get a n d (suc i) (e ∷ es) h le =
    let rest = Ascends-get e n e i es h.1 (omega (arith, le)) in
    (omega (arith, h.0, rest.0), rest.1)

-- The last offset stands at the last place.
pub get-last : (d : ℕ) (es : List ℕ) → 0 < length es → get_or es (length es - 1) 0 ≡ last_or d es
get-last d [] h = absurd (omega (arith, h))
get-last d (e ∷ []) h = refl
get-last d (e ∷ f ∷ es) h =
    let n : length (e ∷ f ∷ es) - 1 ≡ suc (length (f ∷ es) - 1) = omega arith in
    rw n (get-last e (f ∷ es) (omega arith))

starts_with-length : (ps text : List ℕ) → starts_with ps text ≡ true → length ps ≤ length text
starts_with-length [] text h = omega arith
starts_with-length (p ∷ ps) [] h = cc
starts_with-length (p ∷ ps) (c ∷ cs) h = omega (arith, starts_with-length ps cs (ground (arith, h)))

pub record IsPositive (l : Limits) : Type 0 where
  pub single : 0 < l.single_char_limit
  pub multi : 0 < l.multi_char_limit
  pub numeral : 0 < l.numeral_loop_limit

module _ (punctuation decimal : ℕ → Bool) where
  -- `last` is the end of the copy before.
  ends_from-Ascends :
      (unit : List ℕ) (last cursor inside : ℕ) (text : List ℕ)
      → 0 < length unit
      → inside ≤ length text
      → last ≤ cursor + inside
      → Ascends last (cursor + length text) (ends_from punctuation decimal unit cursor inside text)
  unfolding ends_from
  ends_from-Ascends unit last cursor inside [] u le h = omega (arith, le, h)
  ends_from-Ascends unit last cursor (suc inside) (c ∷ cs) u le h =
      subst (λ n. Ascends last n (ends_from punctuation decimal unit (suc cursor) inside cs))
        (omega arith)
        (ends_from-Ascends unit last (suc cursor) inside cs u (omega (arith, le))
          (omega (arith, h)))
  ends_from-Ascends unit last cursor zero (c ∷ cs) u le h =
      let n : suc cursor + length cs ≡ cursor + suc (length cs) = omega arith in
      elim (Bool-cases (is_repeat_separator punctuation decimal c)) [
        | inl between ↦ simp between (
            subst (λ n. Ascends last n (ends_from punctuation decimal unit (suc cursor) 0 cs)) n
              (ends_from-Ascends unit last (suc cursor) 0 cs u (omega arith) (omega (arith, h))))
        | inr mark ↦ elim (Bool-cases (starts_with unit (c ∷ cs))) [
          | inr over ↦ simp (mark, over) (omega (arith, h))
          | inl again ↦
              let fits = starts_with-length unit (c ∷ cs) again in
              simp (mark, again)
                (
                  omega (arith, h, u),
                  subst
                      (λ n.
                        Ascends (cursor + length unit) n
                          (ends_from punctuation decimal unit (suc cursor) (length unit - 1) cs))
                      n
                      (ends_from-Ascends unit (cursor + length unit) (suc cursor) (length unit - 1)
                        cs u (omega (arith, fits)) (omega (arith, u))),
                )
        ]
      ]

  pub repeat_ends-Ascends :
      (unit text : List ℕ)
      → 0 < length unit
      → length unit ≤ length text
      → Ascends 0 (length text) (repeat_ends punctuation decimal unit text)
  unfolding repeat_ends
  repeat_ends-Ascends unit text u le = (
    u,
    subst (λ n. Ascends (length unit) n (ends_from punctuation decimal unit 0 (length unit) text))
        (omega arith)
        (ends_from-Ascends unit (length unit) 0 (length unit) text u le (omega arith)),
  )
