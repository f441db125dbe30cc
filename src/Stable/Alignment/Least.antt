-- ===== src/Stable/Alignment/Least.antt =====
-- The ends among which `_alignment_end` of tea_asr/stable.py chooses, and their costs.
use tea_asr_service.Prelude.{
  ℕ, zero, suc, ◌+◌, ◌*◌, ◌≤◌, ◌<◌, ◌≡◌, ◌≢◌, refl, sym, ap, subst, ◌∙◌, ◌⊎◌, inl, inr, min, false,
  Bool-cases, some, List, [], ◌∷◌, ◌++◌, append-nil, append_assoc, ltb, leb, ◌==◌, if◌then◌else◌,
  length, take, get_elem?, arith,
}
use tea_asr_service.Stable.Chars.{reverse}
use tea_asr_service.Stable.Alignment.{
  least, best_of, last_place, costs, max_alignment_cells, alignment_end, distance, distance-nil,
  cells, row_of, rows_from, rows_from-row_of, count_up-cells,
}

pub costs-row_of :
    (committed final : List ℕ) → costs committed final ≡ row_of (reverse committed) final
unfolding costs
costs-row_of committed final =
    ap (rows_from 1 committed final) (count_up-cells [] final)
    ∙ rows_from-row_of [] committed final 1 (omega arith)
    ∙ ap (λ xs. row_of xs final) (append-nil (reverse committed))

least-le : (m : ℕ) (xs : List ℕ) → least m xs ≤ m
least-le m [] = omega arith
least-le m (x ∷ xs) = omega (arith, least-le (min m x) xs)

least-get : (m : ℕ) (xs : List ℕ) (k v : ℕ) → get_elem? xs k ≡ some v → least m xs ≤ v
least-get m [] k v e = cc
least-get m (x ∷ xs) zero v e = ground (arith, least-le (min m x) xs, e)
least-get m (x ∷ xs) (suc k) v e = least-get (min m x) xs k v e

least-attained :
    (m : ℕ) (xs : List ℕ) → (least m xs ≡ m) ⊎ ((k : ℕ) × (get_elem? xs k ≡ some (least m xs)))
least-attained m [] = inl refl
least-attained m (x ∷ xs) = elim (least-attained (min m x) xs) [
  | inl e ↦ elim (Bool-cases (leb m x)) [
    | inl le ↦ inl (ground (arith, e, le))
    | inr gt ↦ inr (0, ap some (ground (arith, e, gt)))
  ]
  | inr (k, e) ↦ inr (suc k, e)
]

-- The last place of the cost, counted from `i`
abbrev Last : ℕ → ℕ → List ℕ → ℕ → Type 0
Last best i xs at =
    (k : ℕ) × (at ≡ i + k)
    × (get_elem? xs k ≡ some best)
    × ((k' v : ℕ) → k < k' → get_elem? xs k' ≡ some v → v ≢ best)

abbrev Absent : ℕ → List ℕ → Type 0
Absent best xs = (k v : ℕ) → get_elem? xs k ≡ some v → v ≢ best

Absent-behind :
    (best x : ℕ) (xs : List ℕ)
    → Absent best xs
    → (k v : ℕ) → 0 < k
    → get_elem? (x ∷ xs) k ≡ some v
    → v ≢ best
Absent-behind best x xs h zero v lt e = absurd (omega (arith, lt))
Absent-behind best x xs h (suc k) v lt e = h k v e

Absent-cons : (best x : ℕ) (xs : List ℕ) → x ≢ best → Absent best xs → Absent best (x ∷ xs)
Absent-cons best x xs n h zero v e = λ same. n (ground (arith, e, same))
Absent-cons best x xs n h (suc k) v e = h k v e

later-cons :
    (best x k : ℕ) (xs : List ℕ)
    → ((k' v : ℕ) → k < k' → get_elem? xs k' ≡ some v → v ≢ best)
    → (k' v : ℕ) → suc k < k'
    → get_elem? (x ∷ xs) k' ≡ some v
    → v ≢ best
later-cons best x k xs h zero v lt e = absurd (omega (arith, lt))
later-cons best x k xs h (suc k') v lt e = h k' v (omega (arith, lt)) e

last_place-Last :
    (best j i : ℕ) (xs : List ℕ)
    → (Absent best xs × (last_place best j i xs ≡ j)) ⊎ Last best i xs (last_place best j i xs)
last_place-Last best j i [] = inl (λ k v e. cc, refl)
last_place-Last best j i (x ∷ xs) =
    elim (last_place-Last best (if x == best then i else j) (suc i) xs) [
      | inr (k, at, is, later) ↦ inr (suc k, omega (arith, at), is, later-cons best x k xs later)
      | inl (absent, at) ↦ elim (Bool-cases (x == best)) [
        | inl hit ↦
            inr (0, ground (arith, at, hit), ground (arith, hit), Absent-behind best x xs absent)
        | inr miss ↦
            inl (
              Absent-cons best x xs (λ e. ground (arith, miss, e)) absent,
              ground (arith, at, miss),
            )
      ]
    ]

-- The cost of the end `j`: the edit distance of the committed text and the text up to `j`
abbrev pub cost : List ℕ → List ℕ → ℕ → ℕ
cost committed final j = distance (reverse committed) (reverse (take j final))

cells-get :
    (xs done bs : List ℕ) (j : ℕ)
    → j < length bs
    → get_elem? (cells xs done bs) j ≡ some (distance xs (reverse (take (suc j) bs) ++ done))
cells-get xs done [] j lt = absurd (omega (arith, lt))
cells-get xs done (b ∷ bs) zero lt = refl
cells-get xs done (b ∷ bs) (suc j) lt =
    cells-get xs (b ∷ done) bs j (omega (arith, lt))
    ∙ ap (λ ys. some (distance xs ys))
        (sym (append_assoc (reverse (take (suc j) bs)) (b ∷ []) done))

row_of-get :
    (xs final : List ℕ) (j : ℕ)
    → j ≤ length final
    → get_elem? (row_of xs final) j ≡ some (distance xs (reverse (take j final)))
row_of-get xs final zero le = ap some (sym (distance-nil xs))
row_of-get xs final (suc j) le =
    cells-get xs [] final j (omega (arith, le))
    ∙ ap (λ ys. some (distance xs ys)) (append-nil (reverse (take (suc j) final)))

pub costs-get :
    (committed final : List ℕ) (j : ℕ)
    → j ≤ length final
    → get_elem? (costs committed final) j ≡ some (cost committed final j)
costs-get committed final j le =
    ap (λ xs. get_elem? xs j) (costs-row_of committed final)
    ∙ row_of-get (reverse committed) final j le

pub length-cells : (xs done bs : List ℕ) → length (cells xs done bs) ≡ length bs
length-cells xs done [] = refl
length-cells xs done (b ∷ bs) = ap suc (length-cells xs (b ∷ done) bs)

pub get_elem?-length : (xs : List ℕ) (k v : ℕ) → get_elem? xs k ≡ some v → k < length xs
get_elem?-length [] k v e = cc
get_elem?-length (x ∷ xs) zero v e = omega arith
get_elem?-length (x ∷ xs) (suc k) v e = omega (arith, get_elem?-length xs k v e)

best_of-get : (xs : List ℕ) (k v : ℕ) → get_elem? xs k ≡ some v → best_of xs ≤ v
best_of-get [] k v e = cc
best_of-get (x ∷ xs) zero v e = ground (arith, least-le x xs, e)
best_of-get (x ∷ xs) (suc k) v e = least-get x xs k v e

best_of-attained : (xs : List ℕ) → 0 < length xs → (k : ℕ) × (get_elem? xs k ≡ some (best_of xs))
best_of-attained [] lt = absurd (omega (arith, lt))
best_of-attained (x ∷ xs) lt = elim (least-attained x xs) [
  | inl e ↦ (0, ap some (sym e))
  | inr (k, e) ↦ (suc k, e)
]

-- The last place of the least cost
last_place-best :
    (xs : List ℕ) → 0 < length xs → Last (best_of xs) 0 xs (last_place (best_of xs) 0 0 xs)
last_place-best xs lt = elim (last_place-Last (best_of xs) 0 0 xs) [
  | inr found ↦ found
  | inl (absent, at) ↦ let (k, e) = best_of-attained xs lt in absurd (absent k (best_of xs) e refl)
]

-- Last of the least, over the ends of the final text
abbrev IsLeast : List ℕ → List ℕ → ℕ → Type 0
IsLeast committed final end =
    (end ≤ length final)
    × ((j : ℕ) → j ≤ length final → cost committed final end ≤ cost committed final j)
    × ((j : ℕ) → end < j → j ≤ length final → cost committed final end < cost committed final j)

pub some_injective : (a b : ℕ) → some a ≡ some b → a ≡ b
some_injective a b e = ground (arith, e)

costs-IsLeast :
    (committed final : List ℕ)
    → IsLeast committed final
        (last_place (best_of (costs committed final)) 0 0 (costs committed final))
costs-IsLeast committed final =
    let table = costs committed final in
    let best = best_of table in
    let size : length table ≡ suc (length final) =
      ap (λ (xs : List ℕ). length xs) (costs-row_of committed final)
      ∙ ap suc (length-cells (reverse committed) [] final) in
    let (k, at, is, later) = last_place-best table (omega (arith, size)) in
    let inside : k ≤ length final = omega (arith, get_elem?-length table k best is, size) in
    let worth : cost committed final k ≡ best =
      some_injective (cost committed final k) best
        (sym (costs-get committed final k inside) ∙ is) in
    subst (IsLeast committed final) (sym (at ∙ omega arith)) (
      inside,
      λ j le. omega (
        arith,
        worth,
        best_of-get table j (cost committed final j) (costs-get committed final j le),
      ),
      λ j lt le.
          let other : cost committed final j ≢ best =
            later j (cost committed final j) lt (costs-get committed final j le) in
          omega (
            arith,
            worth,
            other,
            best_of-get table j (cost committed final j) (costs-get committed final j le),
          ),
    )

-- While the table is within its bound: the end lies in the final text, no other end has a smaller edit
-- distance from the committed text, and any end behind it has a greater one.
pub alignment_end-least :
    (committed final : List ℕ)
    → length committed * length final ≤ max_alignment_cells
    → let end = alignment_end committed final in
      (end ≤ length final)
      × ((j : ℕ) → j ≤ length final → cost committed final end ≤ cost committed final j)
      × ((j : ℕ) → end < j → j ≤ length final → cost committed final end < cost committed final j)
unfolding alignment_end
alignment_end-least committed final le =
    let small : ltb max_alignment_cells (length committed * length final) ≡ false =
      ground (arith, le) in
    simp small (costs-IsLeast committed final)
