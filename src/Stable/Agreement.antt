-- ===== src/Stable/Agreement.antt =====
-- What the hypotheses of tea_asr/stable.py agree on at the place where their text is cut.
use tea_asr_service.Prelude.{
  ℕ, zero, suc, ◌≤◌, ◌<◌, max, ◌≡◌, refl, sym, ap, ◌∙◌, ◌⊎◌, inl, inr, true, false, not, ◌&&◌,
  Bool-cases, List, [], ◌∷◌, ltb, leb, ◌==◌, ==_iff, length, take, take-take, All, arith,
}
use tea_asr_service.Stable.Chars.{Unicode}
use tea_asr_service.Stable.Cuts.{
  share, tails, shared, common_prefix_length, is_safe_cut, cut_from, stable_cut,
}

-- Every one of the texts begins with the first `n` characters of the first one.
abbrev pub AgreeOn : ℕ → List ℕ → List (List ℕ) → Type 0
AgreeOn n first = All (λ text. take n text ≡ take n first)

AgreeOn-zero : (first : List ℕ) (texts : List (List ℕ)) → AgreeOn 0 first texts
AgreeOn-zero first [] = tt
AgreeOn-zero first (text ∷ texts) = (refl, AgreeOn-zero first texts)

share-AgreeOn :
    (n c : ℕ) (cs : List ℕ) (texts : List (List ℕ))
    → share c texts ≡ true
    → AgreeOn n cs (tails texts)
    → AgreeOn (suc n) (c ∷ cs) texts
share-AgreeOn n c cs [] h agree = tt
share-AgreeOn n c cs ([] ∷ texts) h agree = cc
share-AgreeOn n c cs ((d ∷ ds) ∷ texts) h agree =
    let same : d ≡ c = ground (arith, h) in
    (
      ap (λ e. e ∷ take n ds) same ∙ ap (λ t. c ∷ t) agree.0,
      share-AgreeOn n c cs texts (ground (arith, h)) agree.1,
    )

shared-AgreeOn : (first : List ℕ) (texts : List (List ℕ)) → AgreeOn (shared first texts) first texts
unfolding shared
shared-AgreeOn [] texts = AgreeOn-zero [] texts
shared-AgreeOn (c ∷ cs) texts = elim (Bool-cases (share c texts)) [
  | inl all ↦
      simp all
        (share-AgreeOn (shared cs (tails texts)) c cs texts all (shared-AgreeOn cs (tails texts)))
  | inr some' ↦ simp some' (AgreeOn-zero (c ∷ cs) texts)
]

-- The texts share no more than they are counted to share.
share_complete :
    (k c : ℕ) (cs : List ℕ) (texts : List (List ℕ))
    → AgreeOn (suc k) (c ∷ cs) texts
    → (share c texts ≡ true) × AgreeOn k cs (tails texts)
share_complete k c cs [] agree = (refl, tt)
share_complete k c cs ([] ∷ texts) (h, agree) = cc
share_complete k c cs ((d ∷ ds) ∷ texts) (h, agree) =
    let (same, rest) = share_complete k c cs texts agree in
    let head : d ≡ c = ground (arith, h) in (ground (arith, head, same), (ground (arith, h), rest))

shared-longest :
    (k : ℕ) (first : List ℕ) (texts : List (List ℕ))
    → k ≤ length first
    → AgreeOn k first texts
    → k ≤ shared first texts
unfolding shared
shared-longest zero first texts le agree = omega arith
shared-longest (suc k) [] texts le agree = absurd (omega (arith, le))
shared-longest (suc k) (c ∷ cs) texts le agree =
    let (all, rest) = share_complete k c cs texts agree in
    rw all (omega (arith, shared-longest k cs (tails texts) (omega (arith, le)) rest))

AgreeOn-le :
    (m n : ℕ) (first : List ℕ) (texts : List (List ℕ))
    → m ≤ n
    → AgreeOn n first texts
    → AgreeOn m first texts
AgreeOn-le m n first [] le h = tt
AgreeOn-le m n first (text ∷ texts) le h = (
  sym (take-take m n text le) ∙ ap (take m) h.0 ∙ take-take m n first le,
  AgreeOn-le m n first texts le h.1,
)

module _ (u : Unicode) (hypotheses : List (List ℕ)) (floor : ℕ) where
  -- Where the loop stops: safe or no more than the floor, and nothing longer is safe.
  cut_from-stops :
      (n : ℕ)
      → let cut = cut_from u hypotheses floor n in
        (cut ≤ n)
        × ((cut ≤ floor) ⊎ (is_safe_cut u hypotheses cut ≡ true))
        × ((k : ℕ) → cut < k → k ≤ n → is_safe_cut u hypotheses k ≡ false)
  unfolding cut_from
  cut_from-stops zero = (omega arith, inl (omega arith), λ k lt le. absurd (omega (arith, lt, le)))
  cut_from-stops (suc n) =
      elim (Bool-cases (ltb floor (suc n) && not (is_safe_cut u hypotheses (suc n)))) [
        | inr stops ↦ simp stops (
          omega arith,
          elim (Bool-cases (ltb floor (suc n))) [
            | inl above ↦ inr (ground (arith, above, stops))
            | inr below ↦ inl (ground (arith, below))
          ],
          λ k lt le. absurd (omega (arith, lt, le)),
        )
        | inl goes_on ↦
            let (le, safe, longer) = cut_from-stops n in
            simp goes_on (
              omega (arith, le),
              safe,
              λ k lt le'. elim (Bool-cases (k == suc n)) [
                | inl last ↦
                    ap (is_safe_cut u hypotheses) ((==_iff _ _).0 last) ∙ ground (arith, goes_on)
                | inr before ↦ longer k lt (ground (arith, before, le'))
              ],
            )
      ]

module _ (u : Unicode) (first : List ℕ) (texts : List (List ℕ)) (floor : ℕ) where
  -- The cut is not before the floor. It is the floor, or a place behind it on which all hypotheses agree
  -- and which is safe in all of them. A longer text with which all hypotheses begin has no safe end.
  pub stable_cut-agrees :
      let hypotheses = first ∷ texts in
      let cut = stable_cut u hypotheses floor in
      (floor ≤ cut)
      × ((cut ≡ floor) ⊎ (AgreeOn cut first texts × (is_safe_cut u hypotheses cut ≡ true)))
      × ((k : ℕ)
          → cut < k
          → k ≤ length first
          → AgreeOn k first texts
          → is_safe_cut u hypotheses k ≡ false)
  unfolding stable_cut common_prefix_length
  stable_cut-agrees =
      let hypotheses = first ∷ texts in
      let n = shared first texts in
      let cut = cut_from u hypotheses floor n in
      let (le, stops, longer) = cut_from-stops u hypotheses floor n in
      (
        omega arith,
        elim (Bool-cases (leb cut floor)) [
          | inl low ↦ inl (ground (arith, low))
          | inr high ↦
              let here : max cut floor ≡ cut = ground (arith, high) in
              inr (
                AgreeOn-le (max cut floor) n first texts (omega (arith, le, here))
                    (shared-AgreeOn first texts),
                ap (is_safe_cut u hypotheses) here
                    ∙ elim stops [ inl low ↦ absurd (ground (arith, high, low)) | inr safe ↦ safe ],
              )
        ],
        λ k lt le' agree. longer k (omega (arith, lt)) (shared-longest k first texts le' agree),
      )
