-- ===== src/Prelude/Slice.antt =====
-- Python's slices `xs[i:j]`, where a negative bound counts from the end.
use Prim.Native.Nat.{ℕ, zero, suc, ◌+◌, ◌-◌, ◌≤◌, min}
use mathlib.Core.Path.{◌≡◌, refl, ap, sym, ◌∙◌}
use mathlib.Core.List.{List, [], ◌∷◌, ◌++◌}
use native.Mathlib.Omega.{arith}
use tea_asr_service.Prelude.Int.{ℤ, pos, negsuc}
use tea_asr_service.Prelude.Lists.{length, take, drop}

-- The position that a slice's bound stands for, in a sequence of `n` elements.
abbrev pub slice_index : ℕ → ℤ → ℕ
slice_index n (pos i) = min i n
slice_index n (negsuc k) = n - suc k

unfoldable pub slice {ℓ} : {A : Type ℓ} → List A → ℤ → ℤ → List A
slice xs i j =
    let lo = slice_index (length xs) i in take (slice_index (length xs) j - lo) (drop lo xs)

module _ {ℓ} {A : Type ℓ} where
  pub slice-pos :
      (xs : List A) (i j : ℕ)
      → i ≤ j
      → j ≤ length xs
      → slice xs (pos i) (pos j) ≡ take (j - i) (drop i xs)
  unfolding slice
  slice-pos xs i j le fits =
      let ei : min i (length xs) ≡ i = omega arith in
      let ej : min j (length xs) ≡ j = omega arith in rw (ei, ej)

  pub drop-nil : (n : ℕ) → drop {A = A} n [] ≡ []
  drop-nil zero = refl
  drop-nil (suc n) = refl

  pub drop-drop : (m n : ℕ) (xs : List A) → drop n (drop m xs) ≡ drop (m + n) xs
  drop-drop zero n xs = ap (λ k. drop k xs) (omega arith)
  drop-drop (suc m) n [] = drop-nil n ∙ sym (drop-nil (suc m + n))
  drop-drop (suc m) n (x ∷ xs) =
      let e : suc m + n ≡ suc (m + n) = omega arith in rw e (drop-drop m n xs)

  pub drop-append : (n : ℕ) (xs ys : List A) → n ≤ length xs → drop n (xs ++ ys) ≡ drop n xs ++ ys
  drop-append zero xs ys h = refl
  drop-append (suc n) [] ys h = elim h [ ]
  drop-append (suc n) (x ∷ xs) ys h = drop-append n xs ys (omega arith)

  pub take-append : (n : ℕ) (xs ys : List A) → n ≤ length xs → take n (xs ++ ys) ≡ take n xs
  take-append zero xs ys h = refl
  take-append (suc n) [] ys h = elim h [ ]
  take-append (suc n) (x ∷ xs) ys h = ap (λ t. x ∷ t) (take-append n xs ys (omega arith))
