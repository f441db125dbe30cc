-- ===== src/Scheduler/Fate.antt =====
-- What becomes of the waiters of scheduler.py: who is served and who is dropped.
use mathlib.Core.List.Perm
use mathlib.Core.List.{Perm}
use tea_asr_service.Prelude.{
  ℕ, ◌≡◌, refl, ap, subst, ◌∙◌, inl, inr, Bool, true, false, not, Bool-cases, some, List, [], ◌∷◌,
  ◌++◌, map, ◌||◌, keep, All, All-map, keep_holds, arith, append_assoc,
}
use tea_asr_service.Scheduler.{
  Waiter, Scheduler, Effect, granted, dropped, invalid_state, stale_now, sort, grant, hand_over,
  wake_next, is_empty,
}
use tea_asr_service.Scheduler.Order.{
  sort-perm, sort-All, Leads, IsSorted, sort-IsSorted, sort-cons, keep-perm, served,
}

abbrev fresh : (ℕ → Bool) → Waiter → Bool
fresh stale w = not (stale_now stale w)

served-append : (xs ys : List Effect) → served (xs ++ ys) ≡ served xs ++ served ys
served-append [] ys = refl
served-append (granted w ∷ xs) ys = ap (λ t. w ∷ t) (served-append xs ys)
served-append (dropped w ∷ xs) ys = ap (λ t. w ∷ t) (served-append xs ys)
served-append (invalid_state w ∷ xs) ys = ap (λ t. w ∷ t) (served-append xs ys)

served-dropped : (ws : List Waiter) → served (map dropped ws) ≡ ws
served-dropped [] = refl
served-dropped (w ∷ ws) = ap (λ t. w ∷ t) (served-dropped ws)

served-grant : (w : Waiter) → served (grant w ∷ []) ≡ w ∷ []
served-grant w = ground arith

hand_over-perm :
    (s : Scheduler) (now : ℕ) (ws : List Waiter)
    → Perm ws s.waiters
    → Perm ws (served (hand_over s now ws).1 ++ (hand_over s now ws).0.waiters)
unfolding hand_over
hand_over-perm s now [] p = p
hand_over-perm s now (w ∷ ws) p = rw (served-grant w) Perm.rfl

is_empty-nil : (ws : List Waiter) → is_empty ws ≡ true → ws ≡ []
is_empty-nil [] e = refl
is_empty-nil (w ∷ ws) e = cc

-- Every waiter that a wake-up takes off the queue is dropped or handed the worker, and the others
-- stay: none is lost, and none is served twice.
pub wake_next-perm :
    (stale : ℕ → Bool) (now : ℕ) (s : Scheduler)
    → Perm s.waiters (served (wake_next stale now s).1 ++ (wake_next stale now s).0.waiters)
unfolding wake_next
wake_next-perm stale now s = elim (Bool-cases (s.running || is_empty s.waiters)) [
  | inl rests ↦ rw rests Perm.rfl
  | inr wakes ↦
      let kept = record s { waiters = keep (fresh stale) s.waiters } in
      let drops = keep (stale_now stale) s.waiters in
      let handed = hand_over kept now (sort kept.waiters) in
      rw (wakes, served-append (map dropped drops) handed.1, served-dropped drops, append_assoc)
        (Perm.trans (keep-perm (stale_now stale) s.waiters) (
          Perm.append_left drops (
            Perm.trans (Perm.symm (sort-perm kept.waiters))
              (hand_over-perm kept now (sort kept.waiters) (sort-perm kept.waiters)))))
]

keep-cons_wakes :
    (stale : ℕ → Bool) (s : Scheduler) (v : Waiter) (vs : List Waiter)
    → s.running ≡ false
    → keep (fresh stale) s.waiters ≡ v ∷ vs
    → (s.running || is_empty s.waiters) ≡ false
keep-cons_wakes stale s v vs idle e = rw idle (go s.waiters e)
  where
    go : (ws : List Waiter) → keep (fresh stale) ws ≡ v ∷ vs → is_empty ws ≡ false
    go [] h = cc
    go (w ∷ ws) h = refl

-- What a wake-up gives, once the queue is known.
woken :
    (stale : ℕ → Bool) (now : ℕ) (s : Scheduler) (w : Waiter) (rest : List Waiter)
    → (s.running || is_empty s.waiters) ≡ false
    → sort (keep (fresh stale) s.waiters) ≡ w ∷ rest
    → wake_next stale now s ≡ (
      record s {
        waiters = rest;
        running = true;
        running_samples = w.samples;
        running_since = some now;
      },
      map dropped (keep (stale_now stale) s.waiters) ++ grant w ∷ [],
    )
unfolding wake_next
woken stale now s w rest wakes sorted = rw (wakes, sorted)

-- The worker is free and a waiter is not stale. Then the stale ones are dropped, in their order,
-- and the worker is handed to a waiter that is not stale and goes before all that remain, by
-- priority and then by ticket; none of those is stale.
pub wake_next_serves :
    (stale : ℕ → Bool) (now : ℕ) (s : Scheduler) (v : Waiter) (vs : List Waiter)
    → s.running ≡ false
    → keep (fresh stale) s.waiters ≡ v ∷ vs
    → let next = (wake_next stale now s).0 in
      (w : Waiter) × ((wake_next stale now s).1
        ≡ map dropped (keep (stale_now stale) s.waiters) ++ grant w ∷ [])
      × (stale_now stale w ≡ false)
      × Leads w next.waiters
      × All (λ u. stale_now stale u ≡ false) next.waiters
      × Perm (v ∷ vs) (w ∷ next.waiters)
      × (next.running ≡ true)
      × (next.running_samples ≡ w.samples)
      × (next.running_since ≡ some now)
wake_next_serves stale now s v vs idle e =
    let (w, rest, sorted) = sort-cons v vs in
    let in_order = subst IsSorted sorted (sort-IsSorted (v ∷ vs)) in
    let not_stale : All (λ u. stale_now stale u ≡ false) (v ∷ vs) =
      subst (All (λ u. stale_now stale u ≡ false)) e (
        All-map (λ u. fresh stale u ≡ true) (λ u. stale_now stale u ≡ false) (λ u h. ground arith)
          (keep (fresh stale) s.waiters) (keep_holds (fresh stale) s.waiters)) in
    let still =
      subst (All (λ u. stale_now stale u ≡ false)) sorted
        (sort-All (λ u. stale_now stale u ≡ false) (v ∷ vs) not_stale) in
    rw (woken stale now s w rest (keep-cons_wakes stale s v vs idle e) (ap sort e ∙ sorted)) (
      w,
      refl,
      still.0,
      in_order.0,
      still.1,
      subst (Perm (v ∷ vs)) sorted (Perm.symm (sort-perm (v ∷ vs))),
      refl,
      refl,
      refl,
    )
