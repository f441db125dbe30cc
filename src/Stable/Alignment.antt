-- ===== src/Stable/Alignment.antt =====
-- `_alignment_end` of tea_asr/stable.py, and the edit distance of two texts.
pub mod Least
use tea_asr_service.Prelude.{
  ℕ, zero, suc, ◌+◌, ◌-◌, ◌*◌, ◌≤◌, ◌<◌, ◌≡◌, refl, sym, ap, ap₂, subst, ◌∙◌, ◌⊎◌, inl, inr, min,
  Bool, true, false, not, Bool-cases, List, [], ◌∷◌, ◌++◌, append_assoc, ltb, leb, ◌==◌, ==_iff,
  if◌then◌else◌, length, length-append, take, get_elem?, tests, arith,
}
use tea_asr_service.Stable.Chars.{reverse}

-- `current` behind its cell `left`; `diagonal` is the cell of `previous` over `left`.
unfoldable pub row_from : ℕ → ℕ → ℕ → List ℕ → List ℕ → List ℕ
row_from a left diagonal [] previous = []
row_from a left diagonal (b ∷ bs) [] = []
row_from a left diagonal (b ∷ bs) (p ∷ previous) =
    let cell = min (min (p + 1) (left + 1)) (diagonal + (if a == b then 0 else 1)) in
    cell ∷ row_from a cell p bs previous

abbrev pub row : ℕ → ℕ → List ℕ → List ℕ → List ℕ
row a i final [] = []
row a i final (p ∷ previous) = i ∷ row_from a i p final previous

-- The loop over the rows, from the row `i` on
unfoldable pub rows_from : ℕ → List ℕ → List ℕ → List ℕ → List ℕ
unfolding row_from
rows_from i [] final previous = previous
rows_from i (a ∷ committed) final previous =
    rows_from (i + 1) committed final (row a i final previous)

-- list(range(cols + 1)), from `n` on
abbrev pub count_up : ℕ → List ℕ → List ℕ
count_up n [] = n ∷ []
count_up n (c ∷ cs) = n ∷ count_up (suc n) cs

abbrev pub least : ℕ → List ℕ → ℕ
least m [] = m
least m (x ∷ xs) = least (min m x) xs

abbrev pub best_of : List ℕ → ℕ
best_of [] = 0
best_of (x ∷ xs) = least x xs

-- The last place of the cost, and `j` for none
abbrev pub last_place : ℕ → ℕ → ℕ → List ℕ → ℕ
last_place best j i [] = j
last_place best j i (x ∷ xs) = last_place best (if x == best then i else j) (suc i) xs

unfoldable pub costs : List ℕ → List ℕ → List ℕ
unfolding rows_from
costs committed final = rows_from 1 committed final (count_up 0 final)

abbrev pub max_alignment_cells : ℕ
max_alignment_cells = 250000

unfoldable pub alignment_end : List ℕ → List ℕ → ℕ
unfolding costs
alignment_end committed final =
    if ltb max_alignment_cells (length committed * length final)
    then min (length committed) (length final)
    else last_place (best_of (costs committed final)) 0 0 (costs committed final)

-- The edit distance, of two texts read from their ends
abbrev pub distance : List ℕ → List ℕ → ℕ
distance [] ys = length ys
distance (x ∷ xs) [] = length (x ∷ xs)
distance (x ∷ xs) (y ∷ ys) =
    min (min (distance xs (y ∷ ys) + 1) (distance (x ∷ xs) ys + 1))
      (distance xs ys + (if x == y then 0 else 1))

-- The cells behind the first: the distances of `xs` from `done` and ever more of what follows
abbrev pub cells : List ℕ → List ℕ → List ℕ → List ℕ
cells xs done [] = []
cells xs done (b ∷ bs) = distance xs (b ∷ done) ∷ cells xs (b ∷ done) bs

row_from-cells :
    (a : ℕ) (xs done bs : List ℕ)
    → row_from a (distance (a ∷ xs) done) (distance xs done) bs (cells xs done bs)
      ≡ cells (a ∷ xs) done bs
unfolding row_from
row_from-cells a xs done [] = refl
row_from-cells a xs done (b ∷ bs) =
    ap (λ t. distance (a ∷ xs) (b ∷ done) ∷ t) (row_from-cells a xs (b ∷ done) bs)

-- A whole row
abbrev pub row_of : List ℕ → List ℕ → List ℕ
row_of xs final = length xs ∷ cells xs [] final

pub distance-nil : (xs : List ℕ) → distance xs [] ≡ length xs
distance-nil [] = refl
distance-nil (x ∷ xs) = refl

row-row_of :
    (a : ℕ) (xs final : List ℕ)
    → row a (length (a ∷ xs)) final (row_of xs final) ≡ row_of (a ∷ xs) final
row-row_of a xs final =
    ap (λ t. length (a ∷ xs) ∷ t)
      (subst
        (λ d. row_from a (length (a ∷ xs)) d final (cells xs [] final) ≡ cells (a ∷ xs) [] final)
        (distance-nil xs) (row_from-cells a xs [] final))

pub rows_from-row_of :
    (xs committed final : List ℕ) (i : ℕ)
    → i ≡ length xs + 1
    → rows_from i committed final (row_of xs final) ≡ row_of (reverse committed ++ xs) final
unfolding rows_from
rows_from-row_of xs [] final i e = refl
rows_from-row_of xs (a ∷ committed) final i e =
    let here : row a i final (row_of xs final) ≡ row_of (a ∷ xs) final =
      ap (λ n. row a n final (row_of xs final)) (omega (arith, e)) ∙ row-row_of a xs final in
    ap (rows_from (i + 1) committed final) here
    ∙ rows_from-row_of (a ∷ xs) committed final (i + 1) (omega (arith, e))
    ∙ ap (λ ys. row_of ys final) (sym (append_assoc (reverse committed) (a ∷ []) xs))

pub count_up-cells :
    (done final : List ℕ) → count_up (length done) final ≡ length done ∷ cells [] done final
count_up-cells done [] = refl
count_up-cells done (b ∷ bs) = ap (λ t. length done ∷ t) (count_up-cells (b ∷ done) bs)
