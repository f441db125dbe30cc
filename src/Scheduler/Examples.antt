-- ===== src/Scheduler/Examples.antt =====
-- The scheduler of scheduler.py on a short history, and its theorems there.
use mathlib.Core.List.{Perm, map}
use tea_asr_service.Prelude.{
  ℕ, ◌≡◌, refl, true, false, Option, none, some, List, [], ◌∷◌, ◌++◌, ◌==◌, keep, All, replicate,
  arith,
}
use tea_asr_service.Scheduler.{
  Waiter, Scheduler, dropped, grant, stale_now, waiting_tasks, waiting_samples, drop_stale,
  wake_next, submit, sort, admits, priority_of, hand_over, release, work_done,
}
use tea_asr_service.Scheduler.Order.{Leads, served}
use tea_asr_service.Scheduler.Fate.{wake_next-perm, wake_next_serves}
use tea_asr_service.Scheduler.Bounds.{IsValid}
use tea_asr_service.Scheduler.Runs.{
  Moment, Call, submits, cancels, resumes, finishes, run, step, run-IsValid,
}

abbrev new : Scheduler
new = record {
  max_waiting_tasks = 4;
  max_waiting_samples = 100;
  waiters = [];
  running_samples = 0;
  running = false;
  tickets = 0;
  busy_s = 0;
  running_since = none;
}

new-IsValid : IsValid new
unfolding waiting_tasks waiting_samples
new-IsValid = record {
  tasks = omega arith;
  samples = omega arith;
  busy = λ e. refl;
  free = λ e. refl;
  fresh_tickets = tt;
}

-- Preview 7 goes stale.
abbrev at : ℕ → Moment
at n = record { stale = λ k. k == 7; now = n; later = n }

abbrev history : List (Moment × Call)
history =
    (at 1, submits (replicate 20 0) "preview" none)
    ∷ (at 2, submits (replicate 20 0) "preview" (some 7))
    ∷ (at 3, submits (replicate 20 0) "preview" (some 8))
    ∷ (at 4, submits (replicate 20 0) "realtime" none)
    ∷ []

abbrev tickets_of : List Waiter → List ℕ
tickets_of = map (λ w. w.ticket)

-- The final that came last runs next; the stale preview is gone.
run-history :
    (tickets_of (run new history).waiters ≡ 1 ∷ 2 ∷ 3 ∷ [])
    × (tickets_of (run new (history ++ (at 9, finishes) ∷ [])).waiters ≡ 2 ∷ [])
unfolding run step submit admits priority_of wake_next drop_stale hand_over sort work_done release
    waiting_tasks waiting_samples
run-history = (refl, refl)

run-IsValid_example :
    IsValid
      (run new (history ++ (at 5, cancels 2) ∷ (at 6, resumes 2 false) ∷ (at 9, finishes) ∷ []))
run-IsValid_example =
    run-IsValid new (history ++ (at 5, cancels 2) ∷ (at 6, resumes 2 false) ∷ (at 9, finishes) ∷ [])
      new-IsValid

abbrev waiter : ℕ → ℕ → Option ℕ → Waiter
waiter priority ticket is_stale = record {
  priority = priority;
  ticket = ticket;
  samples = 10;
  is_stale = is_stale;
  cancelled = false;
}

-- The worker has just been freed.
abbrev freed : Scheduler
freed = record new { waiters = waiter 2 1 (some 7) ∷ waiter 2 2 (some 8) ∷ waiter 1 3 none ∷ [] }

wake_next-perm_example :
    Perm freed.waiters
      (served (wake_next (at 9).stale 9 freed).1 ++ (wake_next (at 9).stale 9 freed).0.waiters)
wake_next-perm_example = wake_next-perm (at 9).stale 9 freed

wake_next_serves_example :
    let next = (wake_next (at 9).stale 9 freed).0 in
    (w : Waiter) × ((wake_next (at 9).stale 9 freed).1
      ≡ map dropped (keep (stale_now (at 9).stale) freed.waiters) ++ grant w ∷ [])
    × (stale_now (at 9).stale w ≡ false)
    × Leads w next.waiters
    × All (λ u. stale_now (at 9).stale u ≡ false) next.waiters
    × Perm (waiter 2 2 (some 8) ∷ waiter 1 3 none ∷ []) (w ∷ next.waiters)
    × (next.running ≡ true)
    × (next.running_samples ≡ w.samples)
    × (next.running_since ≡ some 9)
wake_next_serves_example =
    wake_next_serves (at 9).stale 9 freed (waiter 2 2 (some 8)) (waiter 1 3 none ∷ []) refl refl
