-- ===== src/RateLimit/Examples.antt =====
-- The limiter of rate_limit.py on small inputs, and its theorems there.
use tea_asr_service.Prelude.{◌≤◌, ◌≡◌, refl, [], ◌∷◌, arith, length, none, true, false}
use tea_asr_service.RateLimit.{AuthRateLimiter, get, is_blocked, record_failure, record_success}
use tea_asr_service.RateLimit.Budget.{
  is_blocked-serve, is_blocked-expired, is_blocked-record_success, is_blocked-record_failure_other,
  failure, success, serve, length-serve,
}

abbrev limiter : AuthRateLimiter
limiter = record { max_failures = 3; window_s = 60; max_tracked = 2; windows = [] }

abbrev tracking : AuthRateLimiter
tracking = record limiter { windows = ("10.0.0.9", record { start = 5; failures = 3 }) ∷ [] }

-- A third source pushes the oldest one out.
evicts_oldest :
    get "a" (serve limiter (failure 1 "a" ∷ failure 2 "b" ∷ failure 3 "c" ∷ [])).windows ≡ none
unfolding get serve record_failure
evicts_oldest = refl

-- Between the failures of "a", "b" fails once and then succeeds.
is_blocked-serve_example :
    is_blocked
      (serve
        (record_failure limiter 10 "a")
        (failure 20 "a" ∷ failure 25 "b" ∷ success "b" ∷ failure 30 "a" ∷ []))
      40
      "a"
    ≡ true
is_blocked-serve_example =
    is_blocked-serve limiter "a" 10 40
      (failure 20 "a" ∷ failure 25 "b" ∷ success "b" ∷ failure 30 "a" ∷ []) (unfold get in refl)
      (omega arith)
      ((λ own. omega arith), ((λ own. omega arith), (refl, ((λ own. omega arith), tt))))
      (omega arith)

expires : is_blocked tracking 65 "10.0.0.9" ≡ false
expires =
    is_blocked-expired tracking "10.0.0.9" (record { start = 5; failures = 3 }) 65
      (unfold get in refl) (omega arith)

success_unblocks : is_blocked (record_success tracking "10.0.0.9") 10 "10.0.0.9" ≡ false
success_unblocks = is_blocked-record_success tracking "10.0.0.9" "10.0.0.9" 10

is_blocked-record_failure_other_example :
    is_blocked (record_failure tracking 7 "a") 8 "10.0.0.9" ≡ is_blocked tracking 8 "10.0.0.9"
is_blocked-record_failure_other_example =
    is_blocked-record_failure_other tracking "a" "10.0.0.9" 7 8 refl (omega arith)

length-serve_example :
    length
      (serve limiter (failure 1 "a" ∷ failure 2 "b" ∷ failure 3 "c" ∷ success "b" ∷ [])).windows
    ≤ 2
length-serve_example =
    length-serve limiter (failure 1 "a" ∷ failure 2 "b" ∷ failure 3 "c" ∷ success "b" ∷ [])
      (omega arith)
