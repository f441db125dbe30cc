-- ===== src/Scheduler/Bounds.antt =====
-- The limits of scheduler.py and the state of its worker, through each of its calls.
use tea_asr_service.Prelude.{
  ℕ, suc, ◌+◌, ◌/◌, ◌≤◌, ◌<◌, ◌≡◌, refl, ap, inl, inr, Bool, true, false, not, Bool-cases, Option,
  List, [], ◌∷◌, ◌++◌, map, ◌==◌, ◌||◌, length, length-append, length-map, keep, length-keep, All,
  All-keep, All-append, All-map, arith,
}
use Prim.Native.String.{String}
use tea_asr_service.Scheduler.{
  Waiter, Scheduler, Acted, Outcome, ok, queue_full, sum_samples, waiting_tasks, waiting_samples,
  admits, stale_now, drop_stale, insert, sort, hand_over, wake_next, is_empty, release, submit,
  cancel, mark_cancelled, waits, resume_cancelled, priority_of,
}
use tea_asr_service.Scheduler.Order.{sort-All}

pub record IsValid (s : Scheduler) : Type 0 where
  pub tasks : waiting_tasks s ≤ s.max_waiting_tasks
  pub samples : waiting_samples s ≤ s.max_waiting_samples
  pub busy : s.running ≡ false → s.waiters ≡ []
  pub free : s.running ≡ false → s.running_samples ≡ 0
  pub fresh_tickets : All (λ w. w.ticket < s.tickets) s.waiters

length-insert : (v : Waiter) (ws : List Waiter) → length (insert v ws) ≡ suc (length ws)
unfolding insert
length-insert v [] = refl
length-insert v (w ∷ ws) = ground (arith, length-insert v ws)

length-sort : (ws : List Waiter) → length (sort ws) ≡ length ws
unfolding sort
length-sort [] = refl
length-sort (w ∷ ws) = omega (arith, length-insert w (sort ws), length-sort ws)

sum-insert :
    (v : Waiter) (ws : List Waiter) → sum_samples (insert v ws) ≡ v.samples + sum_samples ws
unfolding insert
sum-insert v [] = refl
sum-insert v (w ∷ ws) = ground (arith, sum-insert v ws)

sum-sort : (ws : List Waiter) → sum_samples (sort ws) ≡ sum_samples ws
unfolding sort
sum-sort [] = refl
sum-sort (w ∷ ws) = omega (arith, sum-insert w (sort ws), sum-sort ws)

sum-append : (xs ys : List Waiter) → sum_samples (xs ++ ys) ≡ sum_samples xs + sum_samples ys
sum-append [] ys = omega arith
sum-append (x ∷ xs) ys = omega (arith, sum-append xs ys)

sum-keep : (p : Waiter → Bool) (ws : List Waiter) → sum_samples (keep p ws) ≤ sum_samples ws
sum-keep p [] = omega arith
sum-keep p (w ∷ ws) = ground (arith, sum-keep p ws)

-- The limits alone: what holds between the steps of one call too.
record IsFit (s : Scheduler) : Type 0 where
  tasks : waiting_tasks s ≤ s.max_waiting_tasks
  samples : waiting_samples s ≤ s.max_waiting_samples
  fresh_tickets : All (λ w. w.ticket < s.tickets) s.waiters

sort-nil : (ws : List Waiter) → sort ws ≡ [] → ws ≡ []
sort-nil [] e = refl
sort-nil (w ∷ ws) e = absurd (omega (arith, ap length e, length-sort (w ∷ ws)))

is_empty-nil : (ws : List Waiter) → is_empty ws ≡ true → ws ≡ []
is_empty-nil [] e = refl
is_empty-nil (w ∷ ws) e = cc

abbrev pub Admitted : Outcome Acted → Type 0
Admitted (ok r) = IsValid r.0
Admitted queue_full = Unit

module _ (stale : ℕ → Bool) where
  -- Stale tasks leave; whether the worker runs does not change.
  pub drop_stale-IsValid : (s : Scheduler) → IsValid s → IsValid (drop_stale stale s).0
  unfolding drop_stale waiting_tasks waiting_samples
  drop_stale-IsValid s v = record {
    tasks = omega (arith, length-keep (λ w. not (stale_now stale w)) s.waiters);
    samples = omega (arith, sum-keep (λ w. not (stale_now stale w)) s.waiters);
    busy = λ e. rw (v.busy e);
    free = v.free;
    fresh_tickets =
        All-keep (λ w. w.ticket < s.tickets) (λ w. not (stale_now stale w)) s.waiters
          v.fresh_tickets;
  }

  hand_over-IsValid :
      (s : Scheduler) (now : ℕ) (ws : List Waiter)
      → length ws ≤ s.max_waiting_tasks
      → sum_samples ws ≤ s.max_waiting_samples
      → All (λ w. w.ticket < s.tickets) ws
      → (ws ≡ [] → IsValid s)
      → IsValid (hand_over s now ws).0
  unfolding hand_over waiting_tasks waiting_samples
  hand_over-IsValid s now [] h k t v = v refl
  hand_over-IsValid s now (w ∷ ws) h k t v = record {
    tasks = omega arith;
    samples = omega arith;
    busy = λ e. cc;
    free = λ e. cc;
    fresh_tickets = t.1;
  }

  -- From a free worker, a wake-up leaves either a busy worker or an empty queue.
  wake_next-IsValid :
      (now : ℕ) (s : Scheduler)
      → IsFit s
      → (s.running ≡ false → s.running_samples ≡ 0)
      → IsValid (wake_next stale now s).0
  unfolding wake_next drop_stale waiting_tasks waiting_samples
  wake_next-IsValid now s f free = elim (Bool-cases (s.running || is_empty s.waiters)) [
    | inl rests ↦ rw rests (record {
      tasks = f.tasks;
      samples = f.samples;
      fresh_tickets = f.fresh_tickets;
      busy = λ e. is_empty-nil s.waiters (ground arith);
      free = free;
    })
    | inr wakes ↦
        let idle : s.running ≡ false = ground arith in
        let p = λ (w : Waiter). not (stale_now stale w) in
        let kept = record s { waiters = keep p s.waiters } in
        rw wakes (
          hand_over-IsValid kept now (sort kept.waiters)
            (ground (arith, f.tasks, length-sort kept.waiters, length-keep p s.waiters))
            (ground (arith, f.samples, sum-sort kept.waiters, sum-keep p s.waiters))
            (sort-All (λ w. w.ticket < s.tickets) kept.waiters
              (All-keep (λ w. w.ticket < s.tickets) p s.waiters f.fresh_tickets))
            (λ nil. record {
              tasks = ground (arith, f.tasks, length-keep p s.waiters);
              samples = omega (arith, f.samples, sum-keep p s.waiters);
              busy = λ e. sort-nil kept.waiters nil;
              free = free;
              fresh_tickets = All-keep (λ w. w.ticket < s.tickets) p s.waiters f.fresh_tickets;
            }))
  ]

  pub release-IsValid :
      (now later : ℕ) (s : Scheduler) → IsValid s → IsValid (release stale now later s).0
  unfolding release waiting_tasks waiting_samples
  release-IsValid now later s v =
      wake_next-IsValid later _
        (record {
          tasks = ground (arith, v.tasks);
          samples = omega arith;
          fresh_tickets = v.fresh_tickets;
        })
        (λ e. refl)

  admits_room :
      (s : Scheduler) (n : ℕ)
      → admits s n ≡ true
      → (waiting_tasks s + 1 ≤ s.max_waiting_tasks)
        × (waiting_samples s + n ≤ s.max_waiting_samples)
  unfolding admits
  admits_room s n e = ground arith

  pub submit-IsValid :
      (now : ℕ) (pcm : List ℕ) (kind : String) (is_stale : Option ℕ) (s : Scheduler)
      → IsValid s
      → Admitted (submit stale now pcm kind is_stale s)
  unfolding submit waiting_tasks waiting_samples
  submit-IsValid now pcm kind is_stale s v = elim (Bool-cases (admits s (length pcm / 2))) [
    | inl room ↦
        let new : Waiter = record {
          priority = priority_of kind;
          ticket = s.tickets;
          samples = length pcm / 2;
          is_stale = is_stale;
          cancelled = false;
        } in
        let (tasks, samples) = admits_room s (length pcm / 2) room in
        rw room (
          wake_next-IsValid now _
            (record {
              tasks = omega (arith, tasks, length-append {0} s.waiters (new ∷ []));
              samples = omega (arith, samples, sum-append s.waiters (new ∷ []));
              fresh_tickets =
                  All-append (λ w. w.ticket < s.tickets + 1) s.waiters (new ∷ [])
                    (All-map (λ w. w.ticket < s.tickets) (λ w. w.ticket < s.tickets + 1)
                      (λ w h. omega arith) s.waiters v.fresh_tickets)
                    (omega arith);
            })
            v.free)
    | inr full ↦ rw full tt
  ]

sum-mark :
    (ticket : ℕ) (ws : List Waiter) → sum_samples (map (mark_cancelled ticket) ws) ≡ sum_samples ws
sum-mark ticket [] = refl
sum-mark ticket (w ∷ ws) = ap (λ n. w.samples + n) (sum-mark ticket ws)

mark-All :
    (n ticket : ℕ) (ws : List Waiter)
    → All (λ w. w.ticket < n) ws
    → All (λ w. w.ticket < n) (map (mark_cancelled ticket) ws)
mark-All n ticket [] h = tt
mark-All n ticket (w ∷ ws) h = (h.0, mark-All n ticket ws h.1)

pub cancel-IsValid : (ticket : ℕ) (s : Scheduler) → IsValid s → IsValid (cancel ticket s)
unfolding cancel waiting_tasks waiting_samples
cancel-IsValid ticket s v = record {
  tasks = omega (arith, v.tasks, length-map {0, 0} s.waiters (mark_cancelled ticket));
  samples = omega (arith, v.samples, sum-mark ticket s.waiters);
  busy = λ e. rw (v.busy e);
  free = v.free;
  fresh_tickets = mark-All s.tickets ticket s.waiters v.fresh_tickets;
}

pub resume_cancelled-IsValid :
    (stale : ℕ → Bool) (now later ticket : ℕ) (was_dropped : Bool) (s : Scheduler)
    → IsValid s
    → IsValid (resume_cancelled stale now later ticket was_dropped s).0
unfolding resume_cancelled waiting_tasks waiting_samples
resume_cancelled-IsValid stale now later ticket was_dropped s v =
    elim (Bool-cases (waits ticket s.waiters)) [
      | inl queued ↦
          let p = λ (w : Waiter). not (w.ticket == ticket) in
          rw queued (record {
            tasks = omega (arith, v.tasks, length-keep p s.waiters);
            samples = omega (arith, v.samples, sum-keep p s.waiters);
            busy = λ e. rw (v.busy e);
            free = v.free;
            fresh_tickets = All-keep (λ w. w.ticket < s.tickets) p s.waiters v.fresh_tickets;
          })
      | inr taken ↦ elim (Bool-cases was_dropped) [
        | inl was ↦ rw (taken, was) v
        | inr still ↦ rw (taken, still) (release-IsValid stale now later s v)
      ]
    ]
