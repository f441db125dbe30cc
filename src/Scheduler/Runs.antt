-- ===== src/Scheduler/Runs.antt =====
-- scheduler.py over time: any sequence of its calls and callbacks.
use tea_asr_service.Prelude.{ℕ, Bool, Option, List, [], ◌∷◌}
use Prim.Native.String.{String}
use tea_asr_service.Scheduler.{
  Scheduler, Acted, Outcome, ok, queue_full, drop_stale, work_done, submit, cancel,
  resume_cancelled,
}
use tea_asr_service.Scheduler.Bounds.{
  IsValid, Admitted, submit-IsValid, drop_stale-IsValid, release-IsValid, cancel-IsValid,
  resume_cancelled-IsValid,
}

-- One step of the event loop: a call, with what its callbacks and its clock answer.
pub data Call : Type 0 where
  submits : (pcm : List ℕ) (kind : String) (is_stale : Option ℕ) → Call
  cancels : (ticket : ℕ) → Call
  resumes : (ticket : ℕ) (was_dropped : Bool) → Call
  finishes : Call
  drops : Call

pub record Moment : Type 0 where
  pub stale : ℕ → Bool
  pub now : ℕ
  pub later : ℕ

after : Scheduler → Outcome Acted → Scheduler
after s (ok r) = r.0
after s queue_full = s

unfoldable pub step : Scheduler → Moment × Call → Scheduler
unfolding after
step s (m, submits pcm kind is_stale) = after s (submit m.stale m.now pcm kind is_stale s)
step s (m, cancels ticket) = cancel ticket s
step s (m, resumes ticket was_dropped) =
    (resume_cancelled m.stale m.now m.later ticket was_dropped s).0
step s (m, finishes) = (work_done m.stale m.now m.later s).0
step s (m, drops) = (drop_stale m.stale s).0

after-IsValid : (s : Scheduler) (o : Outcome Acted) → IsValid s → Admitted o → IsValid (after s o)
unfolding after
after-IsValid s (ok r) v h = h
after-IsValid s queue_full v h = v

step-IsValid : (s : Scheduler) (c : Moment × Call) → IsValid s → IsValid (step s c)
unfolding step work_done
step-IsValid s (m, submits pcm kind is_stale) v =
    after-IsValid s (submit m.stale m.now pcm kind is_stale s) v
      (submit-IsValid m.stale m.now pcm kind is_stale s v)
step-IsValid s (m, cancels ticket) v = cancel-IsValid ticket s v
step-IsValid s (m, resumes ticket was_dropped) v =
    resume_cancelled-IsValid m.stale m.now m.later ticket was_dropped s v
step-IsValid s (m, finishes) v = release-IsValid m.stale m.now m.later s v
step-IsValid s (m, drops) v = drop_stale-IsValid m.stale s v

unfoldable pub run : Scheduler → List (Moment × Call) → Scheduler
run s [] = s
run s (c ∷ cs) = run (step s c) cs

-- After any sequence of calls, cancellations and completions, in any order: the tasks and the samples
-- that wait or run are within their limits; while the worker is free, no task waits and no samples
-- count as running; and every waiting ticket is one that was given out.
pub run-IsValid : (s : Scheduler) (cs : List (Moment × Call)) → IsValid s → IsValid (run s cs)
unfolding run
run-IsValid s [] v = v
run-IsValid s (c ∷ cs) v = run-IsValid (step s c) cs (step-IsValid s c v)
