-- ===== src/Stream/Overlap/Covering.antt =====
-- How a cut of the text stands to the characters that are compared, in `normalize_carry_text` of
-- api/stream.py (tea_asr/api/stream.py).
use tea_asr_service.Prelude.{
  ℕ, zero, suc, ◌-◌, ◌≤◌, ◌<◌, ◌≡◌, refl, sym, ap, subst, ◌∙◌, inl, inr, Bool-cases, List, [], ◌∷◌,
  ◌++◌, append_assoc, arith, ltb, length, take, drop, get_or, length-append, take-take, take-append,
  take-append-drop,
}
use tea_asr_service.Stream.Text.{Tables}
use tea_asr_service.Stream.Overlap.{kept_of, normalize_from, chars_of, ends_of, is_separator}

pub get_or-take : (n : ℕ) (xs : List ℕ) (j : ℕ) → j < n → get_or (take n xs) j 0 ≡ get_or xs j 0
get_or-take zero xs j lt = absurd (omega arith)
get_or-take (suc n) [] j lt = refl
get_or-take (suc n) (x ∷ xs) zero lt = refl
get_or-take (suc n) (x ∷ xs) (suc j) lt = get_or-take n xs j (omega arith)

abbrev Prefix : List (ℕ × ℕ) → List (ℕ × ℕ) → Type 0
Prefix xs ys = (more : List (ℕ × ℕ)) × (ys ≡ xs ++ more)

module _ (t : Tables) where
  kept_of-ends :
      (end : ℕ) (folded : List ℕ) (j : ℕ)
      → j < length (kept_of t end folded)
      → get_or (ends_of t (kept_of t end folded)) j 0 ≡ end
  unfolding kept_of
  kept_of-ends end [] j lt = absurd (omega arith)
  kept_of-ends end (c ∷ folded) zero lt = elim (Bool-cases (is_separator t c)) [
    | inl skipped ↦ rw skipped (kept_of-ends end folded zero (rw skipped at lt))
    | inr kept ↦ rw kept refl
  ]
  kept_of-ends end (c ∷ folded) (suc j) lt = elim (Bool-cases (is_separator t c)) [
    | inl skipped ↦ rw skipped (kept_of-ends end folded (suc j) (rw skipped at lt))
    | inr kept ↦
        let shorter : suc j < suc (length (kept_of t end folded)) = rw kept at lt in
        rw kept (kept_of-ends end folded j (omega (arith, shorter)))
  ]

  -- Of a longer part of the text, at least as much is kept.
  normalize-Prefix :
      (i k : ℕ) (text : List ℕ)
      → Prefix (normalize_from t i (take k text)) (normalize_from t i text)
  unfolding normalize_from
  normalize-Prefix i zero text = (normalize_from t i text, refl)
  normalize-Prefix i (suc k) [] = ([], refl)
  normalize-Prefix i (suc k) (c ∷ text) =
      let (more, e) = normalize-Prefix (suc i) k text in
      (
        more,
        ap (λ xs. kept_of t (suc i) (t.folded c) ++ xs) e
            ∙ sym (append_assoc (kept_of t (suc i) (t.folded c)) _ more),
      )

  get_or-append_left :
      (xs ys : List (ℕ × ℕ)) (j : ℕ)
      → j < length xs
      → get_or (ends_of t (xs ++ ys)) j 0 ≡ get_or (ends_of t xs) j 0
  get_or-append_left [] ys j lt = absurd (omega arith)
  get_or-append_left (x ∷ xs) ys zero lt = refl
  get_or-append_left (x ∷ xs) ys (suc j) lt = get_or-append_left xs ys j (omega arith)

  get_or-append_right :
      (xs ys : List (ℕ × ℕ)) (j : ℕ)
      → length xs ≤ j
      → get_or (ends_of t (xs ++ ys)) j 0 ≡ get_or (ends_of t ys) (j - length xs) 0
  get_or-append_right [] ys j le = ap (λ k. get_or (ends_of t ys) k 0) (omega arith)
  get_or-append_right (x ∷ xs) ys zero le = absurd (omega arith)
  get_or-append_right (x ∷ xs) ys (suc j) le =
      get_or-append_right xs ys j (omega arith) ∙ ap (λ k. get_or (ends_of t ys) k 0) (omega arith)

  -- The characters up to the end of the one that the `j`-th was made of give more than `j`.
  pub normalize-covers :
      (i j : ℕ) (text : List ℕ)
      → j < length (normalize_from t i text)
      → let end = get_or (ends_of t (normalize_from t i text)) j 0 in
        (i < end) × (j < length (normalize_from t i (take (end - i) text)))
  unfolding normalize_from
  normalize-covers i j [] lt = absurd (omega arith)
  normalize-covers i j (c ∷ text) lt =
      let kept = kept_of t (suc i) (t.folded c) in
      let later = normalize_from t (suc i) text in
      let size = length-append {0} kept later in
      elim (Bool-cases (ltb j (length kept))) [
        | inl here ↦
            let inside : j < length kept = ground arith in
            let one : suc i - i ≡ 1 = omega arith in
            subst (λ e. (i < e) × (j < length (normalize_from t i (take (e - i) (c ∷ text)))))
              (sym (
                get_or-append_left kept later j inside
                ∙ kept_of-ends (suc i) (t.folded c) j inside))
              (
                omega arith,
                subst (λ n. j < length (normalize_from t i (take n (c ∷ text)))) (sym one)
                    (omega (arith, inside, length-append {0} kept [])),
              )
        | inr there ↦
            let past : length kept ≤ j = ground arith in
            let rest : j - length kept < length later = omega (arith, lt, size, past) in
            let (above, covered) = normalize-covers (suc i) (j - length kept) text rest in
            let end = get_or (ends_of t later) (j - length kept) 0 in
            let next : end - i ≡ suc (end - suc i) = omega (arith, above) in
            subst (λ e. (i < e) × (j < length (normalize_from t i (take (e - i) (c ∷ text)))))
              (sym (get_or-append_right kept later j past))
              (
                omega (arith, above),
                subst (λ n. j < length (normalize_from t i (take n (c ∷ text)))) (sym next)
                    (omega (
                      arith,
                      covered,
                      past,
                      length-append {0} kept (normalize_from t (suc i) (take (end - suc i) text)),
                    )),
              )
      ]

  chars_of-append : (xs ys : List (ℕ × ℕ)) → chars_of t (xs ++ ys) ≡ chars_of t xs ++ chars_of t ys
  chars_of-append [] ys = refl
  chars_of-append (x ∷ xs) ys = ap (λ zs. x.0 ∷ zs) (chars_of-append xs ys)

  pub length-chars_of : (xs : List (ℕ × ℕ)) → length (chars_of t xs) ≡ length xs
  length-chars_of [] = refl
  length-chars_of (x ∷ xs) = ap suc (length-chars_of xs)

  -- A text that reaches beyond the `p`-th kept character
  pub covered_chars :
      (p end cut : ℕ) (text : List ℕ)
      → end ≤ cut
      → p ≤ length (normalize_from t 0 (take end text))
      → (more : List ℕ) × (chars_of t (normalize_from t 0 (take cut text))
          ≡ take p (chars_of t (normalize_from t 0 text)) ++ more)
  covered_chars p end cut text le enough =
      let a = normalize_from t 0 (take end text) in
      let (more, whole) = normalize-Prefix 0 end text in
      let (more', part) = normalize-Prefix 0 end (take cut text) in
      let within : p ≤ length (chars_of t a) = omega (arith, enough, length-chars_of a) in
      let split : chars_of t (normalize_from t 0 (take cut text))
          ≡ chars_of t a ++ chars_of t more' =
        ap (chars_of t)
          (part ∙ ap (λ xs. normalize_from t 0 xs ++ more') (take-take end cut text le))
        ∙ chars_of-append a more' in
      let head : take p (chars_of t (normalize_from t 0 text)) ≡ take p (chars_of t a) =
        ap (take p) (ap (chars_of t) whole ∙ chars_of-append a more)
        ∙ take-append p (chars_of t a) (chars_of t more) within in
      (
        drop p (chars_of t a) ++ chars_of t more',
        split
            ∙ ap (λ xs. xs ++ chars_of t more') (sym (take-append-drop p (chars_of t a)))
            ∙ append_assoc (take p (chars_of t a)) (drop p (chars_of t a)) (chars_of t more')
            ∙ ap (λ xs. xs ++ (drop p (chars_of t a) ++ chars_of t more')) (sym head),
      )
