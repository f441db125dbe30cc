-- ===== src/RateLimit.antt =====
-- rate_limit.py (tea_asr/rate_limit.py): the limiter of failed auth attempts. The `OrderedDict` is
-- the list of its entries, oldest first; a key is a text, and the clock's reading is an argument.
pub mod Windows
pub mod Budget
mod Examples
use tea_asr_service.Prelude.{
  ℕ, zero, suc, ◌+◌, ◌-◌, Bool, true, false, Option, none, some, List, [], ◌∷◌, ◌++◌, ltb, leb,
  if◌then◌else◌, length,
}
use Prim.Native.String.{String}
use text.Mathlib.Text.{◌==◌}

pub record Window : Type 0 where
  pub start : ℕ
  pub failures : ℕ

abbrev pub Windows : Type 0
Windows = List (String × Window)

pub record AuthRateLimiter : Type 0 where
  pub max_failures : ℕ
  pub window_s : ℕ
  pub max_tracked : ℕ
  pub windows : Windows

-- self._windows.get(key)
unfoldable pub get : String → Windows → Option Window
get k [] = none
get k ((j, w) ∷ ws) = if j == k then some w else get k ws

-- self._windows.pop(key, None)
unfoldable pub pop : String → Windows → Windows
pop k [] = []
pop k ((j, w) ∷ ws) = let rest = pop k ws in if j == k then rest else (j, w) ∷ rest

-- self._windows[key] = window; self._windows.move_to_end(key)
unfoldable pub put_last : String → Window → Windows → Windows
unfolding pop
put_last k w ws = pop k ws ++ (k, w) ∷ []

-- while len(self._windows) > max_tracked: self._windows.popitem(last=False)
unfoldable pub evict : ℕ → Windows → Windows
evict n [] = []
evict n (e ∷ ws) = let rest = evict n ws in if ltb n (length (e ∷ ws)) then rest else e ∷ ws

-- now - window.start >= self._window_s, for a clock that does not run backwards
abbrev pub is_over : AuthRateLimiter → ℕ → Window → Bool
is_over l now w = leb (w.start + l.window_s) now

blocks : AuthRateLimiter → ℕ → Option Window → Bool
blocks l now none = false
blocks l now (some w) = if is_over l now w then false else leb l.max_failures w.failures

unfoldable pub is_blocked : AuthRateLimiter → ℕ → String → Bool
unfolding blocks get
is_blocked l now key = blocks l now (get key l.windows)

-- the window of the failure at `now`, the failure counted
count_failure : AuthRateLimiter → ℕ → Option Window → Window
count_failure l now none = record { start = now; failures = 1 }
count_failure l now (some w) =
    if is_over l now w
    then record { start = now; failures = 1 }
    else record w { failures = w.failures + 1 }

unfoldable pub record_failure : AuthRateLimiter → ℕ → String → AuthRateLimiter
unfolding count_failure get put_last evict
record_failure l now key = record l {
  windows = evict l.max_tracked (put_last key (count_failure l now (get key l.windows)) l.windows);
}

unfoldable pub record_success : AuthRateLimiter → String → AuthRateLimiter
unfolding pop
record_success l key = record l { windows = pop key l.windows }
