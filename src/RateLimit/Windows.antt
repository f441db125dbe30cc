-- ===== src/RateLimit/Windows.antt =====
-- The ordered dictionary of rate_limit.py: what a lookup finds after each of its operations.
use tea_asr_service.Prelude.{
  ◌+◌, ℕ, ◌≤◌, ◌<◌, ◌≡◌, refl, [], ◌∷◌, ◌++◌, arith, length, length-append, none, some,
  if◌then◌else◌, false,
}
use Prim.Native.String.{String}
use text.Mathlib.Text.{◌==◌}
use text.Mathlib.TextEquality.{eq_iff}
use tea_asr_service.RateLimit.{Window, Windows, get, pop, put_last, evict}

pub get-pop : (k j : String) (ws : Windows) → get j (pop k ws) ≡ (if k == j then none else get j ws)
unfolding get pop
get-pop k j [] = ground arith
get-pop k j ((i, w) ∷ ws) = ground (arith, get-pop k j ws, eq_iff i k, eq_iff i j, eq_iff k j)

pub get-snoc :
    (k j : String) (w : Window) (ws : Windows)
    → get j ws ≡ none
    → get j (ws ++ (k, w) ∷ []) ≡ (if k == j then some w else none)
unfolding get
get-snoc k j w [] h = refl
get-snoc k j w ((i, v) ∷ ws) h = ground (arith, get-snoc k j w ws)

get-snoc_ne :
    (k j : String) (w : Window) (ws : Windows)
    → (k == j) ≡ false
    → get j (ws ++ (k, w) ∷ []) ≡ get j ws
unfolding get
get-snoc_ne k j w [] h = ground arith
get-snoc_ne k j w ((i, v) ∷ ws) h = ground (arith, get-snoc_ne k j w ws h)

pub get-put_last_ne :
    (k j : String) (w : Window) (ws : Windows)
    → (k == j) ≡ false
    → get j (put_last k w ws) ≡ get j ws
unfolding put_last
get-put_last_ne k j w ws h = ground (arith, get-snoc_ne k j w (pop k ws) h, get-pop k j ws)

pub evict_fits : (n : ℕ) (ws : Windows) → length ws ≤ n → evict n ws ≡ ws
unfolding evict
evict_fits n [] h = refl
evict_fits n (e ∷ ws) h = ground arith

-- The entry at the end outlives any eviction.
get-evict-snoc :
    (n : ℕ) (k : String) (w : Window) (ws : Windows)
    → 0 < n
    → get k ws ≡ none
    → get k (evict n (ws ++ (k, w) ∷ [])) ≡ some w
unfolding get evict
get-evict-snoc n k w [] pos h = ground (arith, eq_iff k k)
get-evict-snoc n k w ((i, v) ∷ ws) pos h =
    ground (arith, get-evict-snoc n k w ws pos, get-snoc k k w ws, eq_iff k k)

pub get-evict-put_last :
    (n : ℕ) (k : String) (w : Window) (ws : Windows)
    → 0 < n
    → get k (evict n (put_last k w ws)) ≡ some w
unfolding put_last
get-evict-put_last n k w ws pos =
    get-evict-snoc n k w (pop k ws) pos (ground (arith, get-pop k k ws, eq_iff k k))

pub length-evict : (n : ℕ) (ws : Windows) → length (evict n ws) ≤ n
unfolding evict
length-evict n [] = omega arith
length-evict n (e ∷ ws) = ground (arith, length-evict n ws)

pub length-pop : (k : String) (ws : Windows) → length (pop k ws) ≤ length ws
unfolding pop
length-pop k [] = omega arith
length-pop k (e ∷ ws) = ground (arith, length-pop k ws)

pub length-put_last :
    (k : String) (w : Window) (ws : Windows) → length (put_last k w ws) ≤ length ws + 1
unfolding put_last
length-put_last k w ws = omega (arith, length-append {0} (pop k ws) ((k, w) ∷ []), length-pop k ws)

-- A tracked source does not make the dictionary longer.
pub length-pop_tracked :
    (k : String) (w : Window) (ws : Windows) → get k ws ≡ some w → length (pop k ws) < length ws
unfolding get pop
length-pop_tracked k w [] e = cc
length-pop_tracked k w ((j, v) ∷ ws) e =
    ground (arith, length-pop k ws, length-pop_tracked k w ws, e)

pub length-evict_le : (n : ℕ) (ws : Windows) → length (evict n ws) ≤ length ws
unfolding evict
length-evict_le n [] = omega arith
length-evict_le n (e ∷ ws) = ground (arith, length-evict_le n ws)
