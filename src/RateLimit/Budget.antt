-- ===== src/RateLimit/Budget.antt =====
-- The failure budget of rate_limit.py: when a source is blocked, for how long, and whom it touches.
use tea_asr_service.Prelude.{
  ℕ, ◌+◌, ◌≤◌, ◌<◌, ◌≡◌, refl, List, [], ◌∷◌, arith, length, none, some, if◌then◌else◌, false, leb,
  All, true, ◌∙◌, Bool-cases, inl, inr, length-append,
}
use Prim.Native.String.{String}
use text.Mathlib.Text.{◌==◌}
use text.Mathlib.TextEquality.{eq_iff}
use tea_asr_service.RateLimit.{
  Window, AuthRateLimiter, get, put_last, count_failure, is_blocked, pop, record_failure,
  record_success,
}
use tea_asr_service.RateLimit.Windows.{
  get-pop, get-put_last_ne, get-evict-put_last, evict_fits, length-evict, length-evict_le,
  length-pop, length-pop_tracked, length-put_last,
}

pub data Request : Type 0 where
  failure : ℕ → String → Request
  success : String → Request

unfoldable pub serve : AuthRateLimiter → List Request → AuthRateLimiter
serve l [] = l
serve l (failure now key ∷ rest) = serve (record_failure l now key) rest
serve l (success key ∷ rest) = serve (record_success l key) rest

-- Of `requests`, the failures of `key`, and those of the others
abbrev pub failures_of : String → List Request → ℕ
failures_of key [] = 0
failures_of key (failure now k ∷ rest) = (if k == key then 1 else 0) + failures_of key rest
failures_of key (success k ∷ rest) = failures_of key rest

abbrev pub failures_of_others : String → List Request → ℕ
failures_of_others key [] = 0
failures_of_others key (failure now k ∷ rest) =
    (if k == key then 0 else 1) + failures_of_others key rest
failures_of_others key (success k ∷ rest) = failures_of_others key rest

-- A request of another source, or a failure of `key` before `end`
abbrev pub FailsBefore : ℕ → String → Request → Type 0
FailsBefore end key (failure now k) = (k == key) ≡ true → now < end
FailsBefore end key (success k) = (k == key) ≡ false

get-record_failure :
    (l : AuthRateLimiter) (now : ℕ) (key : String)
    → 0 < l.max_tracked
    → get key (record_failure l now key).windows ≡ some (count_failure l now (get key l.windows))
unfolding record_failure
get-record_failure l now key pos =
    get-evict-put_last l.max_tracked key (count_failure l now (get key l.windows)) l.windows pos

step_inside :
    (l : AuthRateLimiter) (key : String) (start n now : ℕ)
    → 0 < l.max_tracked
    → get key l.windows ≡ some (record { start = start; failures = n })
    → now < start + l.window_s
    → get key (record_failure l now key).windows ≡ some (record { start = start; failures = n + 1 })
unfolding count_failure
step_inside l key start n now pos e h = rw (get-record_failure l now key pos, e) (ground arith)

length-record_failure_again :
    (l : AuthRateLimiter) (now : ℕ) (key : String) (w : Window)
    → get key l.windows ≡ some w
    → length (record_failure l now key).windows ≤ length l.windows
unfolding record_failure put_last
length-record_failure_again l now key w e =
    let counted = count_failure l now (get key l.windows) in
    omega (
      arith,
      length-evict_le l.max_tracked (put_last key counted l.windows),
      length-append {0} (pop key l.windows) ((key, counted) ∷ []),
      length-pop_tracked key w l.windows e,
    )

length-record_failure_grows :
    (l : AuthRateLimiter) (now : ℕ) (key : String)
    → length (record_failure l now key).windows ≤ length l.windows + 1
unfolding record_failure
length-record_failure_grows l now key =
    let counted = count_failure l now (get key l.windows) in
    omega (
      arith,
      length-evict_le l.max_tracked (put_last key counted l.windows),
      length-put_last key counted l.windows,
    )

get-record_failure_other :
    (l : AuthRateLimiter) (now : ℕ) (key other : String)
    → (key == other) ≡ false
    → length l.windows < l.max_tracked
    → get other (record_failure l now key).windows ≡ get other l.windows
unfolding record_failure
get-record_failure_other l now key other ne room =
    let counted = count_failure l now (get key l.windows) in
    ground (
      arith,
      evict_fits l.max_tracked (put_last key counted l.windows)
          (omega (arith, length-put_last key counted l.windows)),
      get-put_last_ne key other counted l.windows ne,
    )

-- A failure before the window ends counts, and the dictionary does not grow.
again :
    (l : AuthRateLimiter) (now start n : ℕ) (k key : String)
    → k ≡ key
    → get key l.windows ≡ some (record { start = start; failures = n })
    → length l.windows ≤ l.max_tracked
    → now < start + l.window_s
    → (get key (record_failure l now k).windows ≡ some (record { start = start; failures = n + 1 }))
      × (length (record_failure l now k).windows ≤ length l.windows)
again l now start n k key same e room inside = rw same (
  step_inside l key start n now
      (omega
        (arith, room, length-pop_tracked key (record { start = start; failures = n }) l.windows e))
      e inside,
  length-record_failure_again l now key (record { start = start; failures = n }) e,
)

-- Within one window the failures of a tracked source add up, whatever the others do meanwhile.
get-serve :
    (requests : List Request) (l : AuthRateLimiter) (key : String) (start n : ℕ)
    → get key l.windows ≡ some (record { start = start; failures = n })
    → length l.windows + failures_of_others key requests ≤ l.max_tracked
    → All (FailsBefore (start + l.window_s) key) requests
    → get key (serve l requests).windows
      ≡ some (record { start = start; failures = n + failures_of key requests })
unfolding serve record_failure record_success
get-serve [] l key start n e room h = rw e (ground arith)
get-serve (failure now k ∷ rest) l key start n e room h = elim (Bool-cases (k == key)) [
  | inl own ↦
      let counted =
        again l now start n k key ((eq_iff k key).0 own) e (omega (arith, room)) (h.0 own) in
      let more =
        get-serve rest (record_failure l now k) key start (n + 1) counted.0
          (ground (arith, counted.1, room, own)) h.1 in
      more ∙ ground (arith, own)
  | inr other ↦
      let fits : length l.windows < l.max_tracked = ground (arith, room, other) in
      let more =
        get-serve rest (record_failure l now k) key start n
          (get-record_failure_other l now k key other fits ∙ e)
          (ground (arith, length-record_failure_grows l now k, room, other)) h.1 in
      more ∙ ground (arith, other)
]
get-serve (success k ∷ rest) l key start n e room h =
    get-serve rest (record_success l k) key start n
      (ground (arith, get-pop k key l.windows, h.0, e))
      (omega (arith, length-pop k l.windows, room)) h.1

first_failure :
    (l : AuthRateLimiter) (key : String) (first : ℕ)
    → 0 < l.max_tracked
    → get key l.windows ≡ none
    → get key (record_failure l first key).windows ≡ some (record { start = first; failures = 1 })
unfolding count_failure
first_failure l key first pos e = rw (get-record_failure l first key pos, e)

record_failure-params :
    (l : AuthRateLimiter) (now : ℕ) (key : String)
    → ((record_failure l now key).max_failures ≡ l.max_failures)
      × ((record_failure l now key).window_s ≡ l.window_s)
unfolding record_failure
record_failure-params l now key = (refl, refl)

serve-params :
    (l : AuthRateLimiter) (requests : List Request)
    → ((serve l requests).max_failures ≡ l.max_failures)
      × ((serve l requests).window_s ≡ l.window_s)
unfolding serve record_failure record_success
serve-params l [] = (refl, refl)
serve-params l (failure now key ∷ rest) = serve-params (record_failure l now key) rest
serve-params l (success key ∷ rest) = serve-params (record_success l key) rest

-- A source that is not tracked fails at `first`, and then `requests` are served: the failures and the
-- successes of any sources, in any order, with no success of this source and with its failures before
-- the window of its first one ends. The limiter has room: the entries it has, this source's, and one
-- for each failure of another source are not more than it may track. While the window lasts, the source
-- is blocked exactly when its failures, the first one included, reach `max_failures`.
pub is_blocked-serve :
    (l : AuthRateLimiter) (key : String) (first now : ℕ) (requests : List Request)
    → get key l.windows ≡ none
    → length l.windows + 1 + failures_of_others key requests ≤ l.max_tracked
    → All (FailsBefore (first + l.window_s) key) requests
    → now < first + l.window_s
    → is_blocked (serve (record_failure l first key) requests) now key
      ≡ leb l.max_failures (1 + failures_of key requests)
unfolding is_blocked
is_blocked-serve l key first now requests e room h inside =
    let failed = record_failure l first key in
    let known = first_failure l key first (omega (arith, room)) e in
    let counted =
      get-serve requests failed key first 1 known
        (unfold record_failure in omega (arith, room, length-record_failure_grows l first key))
        (unfold record_failure in h) in
    let kept = serve-params failed requests in
    let same = record_failure-params l first key in ground (arith, counted, kept, same)

-- When its window has run out, a source is not blocked, however often it failed.
pub is_blocked-expired :
    (l : AuthRateLimiter) (key : String) (w : Window) (now : ℕ)
    → get key l.windows ≡ some w
    → w.start + l.window_s ≤ now
    → is_blocked l now key ≡ false
unfolding is_blocked
is_blocked-expired l key w now e h = ground arith

-- A success unblocks its source at once and leaves the verdict on every other source alone.
pub is_blocked-record_success :
    (l : AuthRateLimiter) (key other : String) (now : ℕ)
    → is_blocked (record_success l key) now other
      ≡ (if key == other then false else is_blocked l now other)
unfolding is_blocked record_success
is_blocked-record_success l key other now = ground (arith, get-pop key other l.windows)

length-record_failure :
    (l : AuthRateLimiter) (now : ℕ) (key : String)
    → length (record_failure l now key).windows ≤ l.max_tracked
unfolding record_failure
length-record_failure l now key =
    length-evict l.max_tracked (put_last key (count_failure l now (get key l.windows)) l.windows)

-- While the limiter tracks fewer sources than it may, a failure of one source does not change the
-- verdict on another.
pub is_blocked-record_failure_other :
    (l : AuthRateLimiter) (key other : String) (now later : ℕ)
    → (key == other) ≡ false
    → length l.windows < l.max_tracked
    → is_blocked (record_failure l now key) later other ≡ is_blocked l later other
unfolding is_blocked record_failure
is_blocked-record_failure_other l key other now later ne room = ground (
  arith,
  evict_fits l.max_tracked (put_last key (count_failure l now (get key l.windows)) l.windows)
      (omega (arith, length-put_last key (count_failure l now (get key l.windows)) l.windows)),
  get-put_last_ne key other (count_failure l now (get key l.windows)) l.windows ne,
)

-- Whatever the requests, at most `max_tracked` sources are tracked, if that held at the start.
pub length-serve :
    (l : AuthRateLimiter) (requests : List Request)
    → length l.windows ≤ l.max_tracked
    → length (serve l requests).windows ≤ l.max_tracked
unfolding serve record_failure record_success
length-serve l [] h = h
length-serve l (failure now key ∷ rest) h =
    length-serve (record_failure l now key) rest (length-record_failure l now key)
length-serve l (success key ∷ rest) h =
    length-serve (record_success l key) rest (omega (arith, length-pop key l.windows))
