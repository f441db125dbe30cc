-- ===== src/Context/Longest.antt =====
-- The rule that matches at a place of the text, by the order of context.py (tea_asr/context.py).
use tea_asr_service.Prelude.{
  ℕ, ◌≤◌, ◌<◌, ◌≡◌, refl, ap, ◌∙◌, inl, inr, true, false, Bool-cases, Option, none, some,
  Option-cases, List, [], ◌∷◌, ◌++◌, arith, leb, leb→le, if◌then◌else◌, length, All,
}
use tea_asr_service.Translation.Response.{starts_with}
use tea_asr_service.Context.{ReplacementRule, place, ordered, first_match}

-- No rule's source begins the text.
abbrev pub NoMatch : List ReplacementRule → List ℕ → Type 0
NoMatch rules text = All (λ r. starts_with r.source text ≡ false) rules

-- Of the rules whose source begins the text, `rule` has the longest, and is the first such.
pub record IsLongest (rules : List ReplacementRule) (text : List ℕ) (rule : ReplacementRule)
    : Type 0 where
  pub before : List ReplacementRule
  pub after : List ReplacementRule
  pub member : rules ≡ before ++ rule ∷ after
  pub begins : starts_with rule.source text ≡ true
  pub earlier :
      All (λ r. starts_with r.source text ≡ true → length r.source < length rule.source) before
  pub later :
      All (λ r. starts_with r.source text ≡ true → length r.source ≤ length rule.source) after

longer : ReplacementRule → Option ReplacementRule → Option ReplacementRule
longer rule none = some rule
longer rule (some r) = if leb (length r.source) (length rule.source) then some rule else some r

-- The longest match of the rules in the order given
pub best : List ReplacementRule → List ℕ → Option ReplacementRule
unfolding longer
best [] text = none
best (rule ∷ rules) text =
    let rest = best rules text in if starts_with rule.source text then longer rule rest else rest

abbrev Descends : List ReplacementRule → Type 0
Descends [] = Unit
Descends (r ∷ rs) = All (λ q. length q.source ≤ length r.source) rs × Descends rs

place-All :
    (b : ℕ) (rule : ReplacementRule) (rs : List ReplacementRule)
    → length rule.source ≤ b
    → All (λ q. length q.source ≤ b) rs
    → All (λ q. length q.source ≤ b) (place rule rs)
unfolding place
place-All b rule [] le h = (le, tt)
place-All b rule (r ∷ rs) le h =
    let rest = place-All b rule rs le h.1 in
    elim (Bool-cases (leb (length r.source) (length rule.source))) [
      | inl here ↦ rw here (le, h)
      | inr on ↦ rw on (h.0, rest)
    ]

All-weaken :
    (a b : ℕ) (rs : List ReplacementRule)
    → a ≤ b
    → All (λ q. length q.source ≤ a) rs
    → All (λ q. length q.source ≤ b) rs
All-weaken a b [] le h = tt
All-weaken a b (r ∷ rs) le h = (omega (arith, h.0), All-weaken a b rs le h.1)

place-Descends :
    (rule : ReplacementRule) (rs : List ReplacementRule) → Descends rs → Descends (place rule rs)
unfolding place
place-Descends rule [] h = (tt, tt)
place-Descends rule (r ∷ rs) h = elim (Bool-cases (leb (length r.source) (length rule.source))) [
  | inl here ↦
      let le : length r.source ≤ length rule.source = leb→le _ _ here in
      let all = All-weaken (length r.source) (length rule.source) rs le h.0 in
      rw here ((le, all), h)
  | inr on ↦
      let lt : length rule.source ≤ length r.source = ground arith in
      let rest = place-Descends rule rs h.1 in
      rw on (place-All (length r.source) rule rs lt h.0, rest)
]

ordered-Descends : (rules : List ReplacementRule) → Descends (ordered rules)
unfolding ordered
ordered-Descends [] = tt
ordered-Descends (r ∷ rs) = place-Descends r (ordered rs) (ordered-Descends rs)

first_match_bound :
    (b : ℕ) (rs : List ReplacementRule) (text : List ℕ) {r : ReplacementRule}
    → All (λ q. length q.source ≤ b) rs
    → first_match rs text ≡ some r
    → length r.source ≤ b
unfolding first_match
first_match_bound b [] text h e = cc
first_match_bound b (q ∷ qs) text {r} h e = elim (Bool-cases (starts_with q.source text)) [
  | inl m ↦ ground (arith, h.0)
  | inr m ↦ first_match_bound b qs text {r = r} h.1 (ground arith)
]

-- A rule that is placed competes with the first match of the others.
first_match-place :
    (rule : ReplacementRule) (rs : List ReplacementRule) (text : List ℕ)
    → Descends rs
    → first_match (place rule rs) text ≡ (
        if starts_with rule.source text
        then longer rule (first_match rs text)
        else first_match rs text)
unfolding place first_match longer
first_match-place rule [] text h = refl
first_match-place rule (q ∷ qs) text h =
    elim (Bool-cases (leb (length q.source) (length rule.source))) [
      | inl here ↦ elim (Option-cases (first_match qs text)) [
        | inl e ↦ ground (arith, here, e)
        | inr (p, e) ↦
            let le = first_match_bound (length q.source) qs text {r = p} h.0 e in
            ground (arith, here, e, le)
      ]
      | inr on ↦ ground (arith, on, first_match-place rule qs text h.1)
    ]

pub first_match-ordered :
    (rules : List ReplacementRule) (text : List ℕ)
    → first_match (ordered rules) text ≡ best rules text
unfolding ordered best first_match
first_match-ordered [] text = refl
first_match-ordered (r ∷ rs) text =
    first_match-place r (ordered rs) text (ordered-Descends rs) ∙ rw (first_match-ordered rs text)

pub best-NoMatch :
    (rules : List ReplacementRule) (text : List ℕ) → best rules text ≡ none → NoMatch rules text
unfolding best longer
best-NoMatch [] text e = tt
best-NoMatch (r ∷ rs) text e = elim (Option-cases (best rs text)) [
  | inl none' ↦
      let off : starts_with r.source text ≡ false = ground arith in
      (off, best-NoMatch rs text none')
  | inr (p, some') ↦ ground (arith, some')
]

abbrev AtMost : List ℕ → ℕ → ReplacementRule → Type 0
AtMost text b r = starts_with r.source text ≡ true → length r.source ≤ b

NoMatch-AtMost :
    (rules : List ReplacementRule) (text : List ℕ) (b : ℕ)
    → NoMatch rules text
    → All (AtMost text b) rules
NoMatch-AtMost [] text b h = tt
NoMatch-AtMost (r ∷ rs) text b h = (λ m. cc, NoMatch-AtMost rs text b h.1)

after-AtMost :
    (after : List ReplacementRule) (n : ℕ) (text : List ℕ) (b : ℕ)
    → n ≤ b
    → All (AtMost text n) after
    → All (AtMost text b) after
after-AtMost [] n text b le k = tt
after-AtMost (r ∷ after) n text b le k =
    (λ m. omega (arith, k.0 m), after-AtMost after n text b le k.1)

joined_AtMost :
    (before after : List ReplacementRule) (rule : ReplacementRule) (text : List ℕ) (b : ℕ)
    → length rule.source ≤ b
    → All (λ r. starts_with r.source text ≡ true → length r.source < length rule.source) before
    → All (λ r. starts_with r.source text ≡ true → length r.source ≤ length rule.source) after
    → All (AtMost text b) (before ++ rule ∷ after)
joined_AtMost [] after rule text b le h k =
    (λ m. le, after-AtMost after (length rule.source) text b le k)
joined_AtMost (r ∷ before) after rule text b le h k =
    (λ m. omega (arith, h.0 m), joined_AtMost before after rule text b le h.1 k)

IsLongest-AtMost :
    (rules : List ReplacementRule) (text : List ℕ) (rule : ReplacementRule) (b : ℕ)
    → IsLongest rules text rule
    → length rule.source ≤ b
    → All (AtMost text b) rules
IsLongest-AtMost rules text rule b l le =
    rw l.member (joined_AtMost l.before l.after rule text b le l.earlier l.later)

module _ (r : ReplacementRule) (rs : List ReplacementRule) (text : List ℕ) where
  IsLongest-first :
      starts_with r.source text ≡ true
      → All (AtMost text (length r.source)) rs
      → IsLongest (r ∷ rs) text r
  IsLongest-first m h = record {
    before = [];
    after = rs;
    member = refl;
    begins = m;
    earlier = tt;
    later = h;
  }

  IsLongest-later :
      (p : ReplacementRule)
      → (starts_with r.source text ≡ true → length r.source < length p.source)
      → IsLongest rs text p
      → IsLongest (r ∷ rs) text p
  IsLongest-later p h l = record {
    before = r ∷ l.before;
    after = l.after;
    member = ap (λ t. r ∷ t) l.member;
    begins = l.begins;
    earlier = (h, l.earlier);
    later = l.later;
  }

pub best-IsLongest :
    (rules : List ReplacementRule) (text : List ℕ) (p : ReplacementRule)
    → best rules text ≡ some p
    → IsLongest rules text p
unfolding best longer
best-IsLongest [] text p e = cc
best-IsLongest (r ∷ rs) text p e = elim (Bool-cases (starts_with r.source text)) [
  | inr off ↦ IsLongest-later r rs text p (λ m. cc) (best-IsLongest rs text p (ground arith))
  | inl on ↦ elim (Option-cases (best rs text)) [
    | inl nothing ↦
        let same : r ≡ p = ground (arith, on, nothing) in
        rw (← same) (
          IsLongest-first r rs text on
            (NoMatch-AtMost rs text (length r.source) (best-NoMatch rs text nothing)))
    | inr (q, found) ↦
        let l = best-IsLongest rs text q found in
        elim (Bool-cases (leb (length q.source) (length r.source))) [
          | inl mine ↦
              let same : r ≡ p = ground (arith, on, found, mine) in
              rw (← same) (
                IsLongest-first r rs text on
                  (IsLongest-AtMost rs text q (length r.source) l (leb→le _ _ mine)))
          | inr other ↦
              let same : q ≡ p = ground (arith, on, found, other) in
              let lt : length r.source < length q.source = ground arith in
              rw (← same) (IsLongest-later r rs text q (λ m. lt) l)
        ]
  ]
]
