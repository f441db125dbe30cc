-- ===== src/Stream/Overlap/Matching.antt =====
-- What `strip_carried_overlap` of api/stream.py takes for a repetition: a suffix of the previous text and
-- a prefix of the current one, alike up to a quarter of the longer one.
use tea_asr_service.Prelude.{
  ℕ, zero, suc, ◌+◌, ◌-◌, ◌*◌, ◌≤◌, ◌<◌, ◌≡◌, refl, sym, ap, ap₂, ◌∙◌, inl, inr, min, max, true,
  false, Bool-cases, ◌||◌, Option, none, some, List, [], ◌∷◌, arith, ltb, ==_iff, length, take,
  drop, get_elem?, length-drop, length-take, drop-drop, take-take,
}
use tea_asr_service.Stable.Chars.{reverse}
use tea_asr_service.Stable.View.{eq_text}
use tea_asr_service.Stable.Alignment.{costs, distance}
use tea_asr_service.Stable.Alignment.Least.{
  cost, costs-get, costs-row_of, length-cells, get_elem?-length, some_injective,
}
use tea_asr_service.Stream.Overlap.{
  carry_overlap_min_chars, carry_overlap_fuzzy_max_chars, Score, exceeds, improve, last, exact,
  score_of, prefixes, suffixes, best_overlap,
}

-- The last `suffix_size` characters of the one text and the first `prefix_size` of the other: neither
-- is short, and their edit distance is at most a quarter of the longer.
pub record IsOverlap (previous current : List ℕ) (suffix_size prefix_size : ℕ) : Type 0 where
  pub suffix_long : carry_overlap_min_chars ≤ suffix_size
  pub suffix_within : suffix_size ≤ length previous
  pub prefix_long : carry_overlap_min_chars ≤ prefix_size
  pub prefix_within : prefix_size ≤ length current
  pub alike : cost (last suffix_size previous) current prefix_size * 4 ≤ max suffix_size prefix_size

abbrev pub Overlaps : List ℕ → List ℕ → Option Score → Type 0
Overlaps previous current none = Unit
Overlaps previous current (some best) =
    (suffix_size : ℕ) × IsOverlap previous current suffix_size best.prefix_size

eq_text→≡ : (xs ys : List ℕ) → eq_text xs ys ≡ true → xs ≡ ys
eq_text→≡ [] [] e = refl
eq_text→≡ [] (y ∷ ys) e = cc
eq_text→≡ (x ∷ xs) [] e = cc
eq_text→≡ (x ∷ xs) (y ∷ ys) e =
    let head : x ≡ y = ground arith in
    let tail = eq_text→≡ xs ys (ground arith) in ap₂ (λ z zs. z ∷ zs) head tail

distance_self : (xs : List ℕ) → distance xs xs ≡ 0
distance_self [] = refl
distance_self (x ∷ xs) = ground (arith, distance_self xs, ==_iff x x)

-- A cell that is not passed over
admitted :
    (m p d : ℕ)
    → (ltb p carry_overlap_min_chars
        || ltb (max m p) (d * 4)
        || ltb (min m p) carry_overlap_min_chars)
      ≡ false
    → (carry_overlap_min_chars ≤ p) × (d * 4 ≤ max m p) × (carry_overlap_min_chars ≤ m)
admitted m p d e = ground arith

module _ (previous current : List ℕ) where
  improve-Overlaps :
      (score : Score) (best : Option Score)
      → Overlaps previous current (some score)
      → Overlaps previous current best
      → Overlaps previous current (improve score best)
  unfolding improve
  improve-Overlaps score none h k = h
  improve-Overlaps score (some best) h k = elim (Bool-cases (exceeds score best)) [
    | inl e ↦ rw e h
    | inr e ↦ rw e k
  ]

  exact-Overlaps :
      (k : ℕ)
      → k ≤ length previous
      → k ≤ length current
      → Overlaps previous current (exact k previous current)
  unfolding exact
  exact-Overlaps zero a b = tt
  exact-Overlaps (suc k) a b = elim (Bool-cases (ltb (suc k) carry_overlap_min_chars)) [
    | inl short ↦ rw short tt
    | inr long ↦ elim (Bool-cases (eq_text (last (suc k) previous) (take (suc k) current))) [
      | inl same ↦
          let e = eq_text→≡ (last (suc k) previous) (take (suc k) current) same in
          let none' : cost (last (suc k) previous) current (suc k) ≡ 0 =
            ap (λ xs. distance (reverse xs) (reverse (take (suc k) current))) e
            ∙ distance_self (reverse (take (suc k) current)) in
          rw (long, same)
            (
              suc k,
              record {
                suffix_long = ground arith;
                suffix_within = a;
                prefix_long = ground arith;
                prefix_within = b;
                alike = omega (arith, none');
              },
            )
      | inr other ↦ rw (long, other) (exact-Overlaps k (omega arith) (omega arith))
    ]
  ]

  -- The rest of a row of the table, from the prefix of `p` characters on
  abbrev Row : List ℕ → ℕ → List ℕ → Type 0
  Row suffix p [] = Unit
  Row suffix p (d ∷ row) =
      (d ≡ cost suffix current p) × (p ≤ length current) × Row suffix (suc p) row

  prefixes-Overlaps :
      (m p : ℕ) (row : List ℕ) (best : Option Score)
      → m ≤ length previous
      → Row (last m previous) p row
      → Overlaps previous current best
      → Overlaps previous current (prefixes m p row best)
  unfolding prefixes score_of
  prefixes-Overlaps m p [] best w r h = h
  prefixes-Overlaps m p (d ∷ row) best w r h =
      prefixes-Overlaps m (suc p) row _ w r.2
        (elim (Bool-cases (
          ltb p carry_overlap_min_chars
          || ltb (max m p) (d * 4)
          || ltb (min m p) carry_overlap_min_chars)) [
            | inl passed ↦ rw passed h
            | inr taken ↦
                let (long, close, both) = admitted m p d taken in
                rw taken (
                  improve-Overlaps (score_of m p d) best
                    (
                      m,
                      record {
                        suffix_long = both;
                        suffix_within = w;
                        prefix_long = long;
                        prefix_within = r.1;
                        alike = omega (arith, close, r.0);
                      },
                    )
                    h)
          ])

  Row-Row :
      (suffix : List ℕ) (p : ℕ) (row : List ℕ)
      → ((j v : ℕ)
          → get_elem? row j ≡ some v
          → (v ≡ cost suffix current (p + j)) × (p + j ≤ length current))
      → Row suffix p row
  Row-Row suffix p [] h = tt
  Row-Row suffix p (d ∷ row) h =
      let here = h 0 d refl in
      let e : p + 0 ≡ p = omega arith in
      let first : d ≡ cost suffix current p = here.0 ∙ ap (cost suffix current) e in
      let inside : p ≤ length current = omega (arith, here.1) in
      let rest = Row-Row suffix (suc p) row (λ j v g.
        let k = h (suc j) v g in
        let next : p + suc j ≡ suc p + j = omega arith in
        (k.0 ∙ ap (cost suffix current) next, omega (arith, k.1))) in
      (first, inside, rest)

-- The fuzzy search looks at the last and first characters only.
module _ (previous current : List ℕ) where
  last-last : (n m : ℕ) → m ≤ length (last n previous) → last m (last n previous) ≡ last m previous
  last-last n m le =
      let size = length-drop {0} (length previous - n) previous in
      drop-drop (length previous - n) (length (last n previous) - m) previous
      ∙ ap (λ k. drop k previous) (omega (arith, size))

  cost-take :
      (suffix : List ℕ) (n p : ℕ) → p ≤ n → cost suffix (take n current) p ≡ cost suffix current p
  cost-take suffix n p le =
      ap (λ xs. distance (reverse suffix) (reverse xs)) (take-take p n current le)

  -- The row that is computed from them is one of the whole texts.
  fuzzy-Row :
      (n m : ℕ)
      → m ≤ length (last n previous)
      → Row previous current (last m previous) 0 (costs (last m (last n previous)) (take n current))
  fuzzy-Row n m le =
      let suffix = last m (last n previous) in
      let short = take n current in
      Row-Row previous current (last m previous) 0 (costs suffix short) λ j v g.
        let size : length (costs suffix short) ≡ suc (length short) =
          ap (λ (xs : List ℕ). length xs) (costs-row_of suffix short)
          ∙ ap suc (length-cells (reverse suffix) [] short) in
        let inside : j ≤ length short =
          omega (arith, get_elem?-length (costs suffix short) j v g, size) in
        let taken = length-take {0} n current in
        let e : 0 + j ≡ j = omega arith in
        (
          some_injective v (cost suffix short j) (sym g ∙ costs-get suffix short j inside)
              ∙ ap (λ xs. cost xs short j) (last-last n m le)
              ∙ cost-take (last m previous) n j (omega (arith, inside, taken))
              ∙ ap (cost (last m previous) current) (sym e),
          omega (arith, inside, taken),
        )

  suffixes-Overlaps :
      (n count m : ℕ) (best : Option Score)
      → (0 < count → m + count ≤ suc (length (last n previous)))
      → Overlaps previous current best
      → Overlaps previous current (suffixes count m (last n previous) (take n current) best)
  unfolding suffixes
  suffixes-Overlaps n zero m best fits h = h
  suffixes-Overlaps n (suc count) m best fits h =
      let size = length-drop {0} (length previous - n) previous in
      let room : m ≤ length (last n previous) = omega (arith, fits (omega arith)) in
      suffixes-Overlaps n count (suc m) _ (λ _. omega (arith, fits (omega arith)))
        (prefixes-Overlaps previous current m 0 _ best (omega (arith, room, size))
          (fuzzy-Row n m room) h)

  -- The best overlap that is found, exact or fuzzy, is one.
  pub best_overlap-Overlaps : Overlaps previous current (best_overlap previous current)
  unfolding best_overlap
  best_overlap-Overlaps =
      let n = carry_overlap_fuzzy_max_chars in
      let start =
        exact-Overlaps previous current (min (length previous) (length current)) (omega arith)
          (omega arith) in
      suffixes-Overlaps n (suc (length (last n previous)) - carry_overlap_min_chars)
        carry_overlap_min_chars (exact (min (length previous) (length current)) previous current)
        (λ some'. omega arith) start
