-- ===== src/Scheduler.antt =====
-- scheduler.py (tea_asr/scheduler.py): the queue in front of the one inference worker. A call of
-- `transcribe` is cut where it awaits: `submit` runs up to `await waiter.future`, `resume_cancelled`
-- is its `except` branch, and `work_done` is the callback of the finished worker call. The clock's
-- readings, and whether a preview is stale, are arguments: `stale k` is the answer of the `is_stale`
-- callback `k`. What becomes of the futures is returned as a list of effects.
pub mod Order
pub mod Bounds
pub mod Fate
pub mod Runs
mod Examples
use tea_asr_service.Prelude.{
  ℕ, zero, suc, ◌+◌, ◌-◌, ◌/◌, Bool, true, false, not, ◌&&◌, ◌||◌, Option, none, some, List, [],
  ◌∷◌, ◌++◌, map, ltb, leb, ◌==◌, if◌then◌else◌, length, keep,
}
use Prim.Native.String.{String}
use text.Mathlib.Text.{◌==◌ as str_eq}

-- `cancelled`: the task that awaits the future was cancelled, and has not run since.
pub record Waiter : Type 0 where
  pub priority : ℕ
  pub ticket : ℕ
  pub samples : ℕ
  pub is_stale : Option ℕ
  pub cancelled : Bool

pub record Scheduler : Type 0 where
  pub max_waiting_tasks : ℕ
  pub max_waiting_samples : ℕ
  pub waiters : List Waiter
  pub running_samples : ℕ
  pub running : Bool
  pub tickets : ℕ
  pub busy_s : ℕ
  pub running_since : Option ℕ

-- `granted`: `set_result`. `invalid_state`: `set_result` on a cancelled future, which raises.
-- `dropped`: `StaleTaskDropped`, or only the flag where the future was cancelled.
pub data Effect : Type 0 where
  granted dropped invalid_state : Waiter → Effect

pub data Outcome (A : Type 0) : Type 0 where
  ok : A → Outcome A
  queue_full : Outcome A

abbrev pub Acted : Type 0
Acted = Scheduler × List Effect

unfoldable pub priority_of : String → ℕ
priority_of kind = if str_eq kind "realtime" then 1 else if str_eq kind "preview" then 2 else 0

unfoldable pub busy_seconds : Scheduler → ℕ → ℕ
busy_seconds s now = s.busy_s + elim s.running_since [ none ↦ 0 | some since ↦ now - since ]

abbrev pub sum_samples : List Waiter → ℕ
sum_samples [] = 0
sum_samples (w ∷ ws) = w.samples + sum_samples ws

unfoldable pub waiting_tasks : Scheduler → ℕ
waiting_tasks s = length s.waiters + (if s.running then 1 else 0)

unfoldable pub waiting_samples : Scheduler → ℕ
waiting_samples s = sum_samples s.waiters + s.running_samples

unfoldable pub admits : Scheduler → ℕ → Bool
unfolding waiting_tasks waiting_samples
admits s samples =
    if leb s.max_waiting_tasks (waiting_tasks s)
    then false
    else if ltb s.max_waiting_samples (waiting_samples s + samples)
    then false
    else true

abbrev pub stale_now : (ℕ → Bool) → Waiter → Bool
stale_now stale w = elim w.is_stale [ none ↦ false | some k ↦ stale k ]

unfoldable pub drop_stale : (ℕ → Bool) → Scheduler → Acted
drop_stale stale s = (
  record s { waiters = keep (λ w. not (stale_now stale w)) s.waiters },
  map dropped (keep (stale_now stale) s.waiters),
)

-- (waiter.priority, waiter.ticket), compared as tuples
abbrev pub key_le : Waiter → Waiter → Bool
key_le v w = ltb v.priority w.priority || v.priority == w.priority && leb v.ticket w.ticket

unfoldable pub insert : Waiter → List Waiter → List Waiter
insert v [] = v ∷ []
insert v (w ∷ ws) = let rest = insert v ws in if key_le v w then v ∷ w ∷ ws else w ∷ rest

-- self._waiters.sort(key=…)
unfoldable pub sort : List Waiter → List Waiter
unfolding insert
sort [] = []
sort (w ∷ ws) = insert w (sort ws)

abbrev pub grant : Waiter → Effect
grant w = if w.cancelled then invalid_state w else granted w

-- The worker goes to the head of the sorted queue.
unfoldable pub hand_over : Scheduler → ℕ → List Waiter → Acted
hand_over s now [] = (s, [])
hand_over s now (w ∷ rest) = (
  record s {
    waiters = rest;
    running = true;
    running_samples = w.samples;
    running_since = some now;
  },
  grant w ∷ [],
)

abbrev pub is_empty : List Waiter → Bool
is_empty [] = true
is_empty (w ∷ ws) = false

unfoldable pub wake_next : (ℕ → Bool) → ℕ → Scheduler → Acted
unfolding drop_stale hand_over
wake_next stale now s =
    if s.running || is_empty s.waiters
    then (s, [])
    else (let (kept, drops) = drop_stale stale s in
        let (next, grants) = hand_over kept now (sort kept.waiters) in (next, drops ++ grants))

-- `_release`; `now` is the clock's reading there, and `later` the one in `_wake_next`
unfoldable pub release : (ℕ → Bool) → ℕ → ℕ → Scheduler → Acted
unfolding busy_seconds
release stale now later s = wake_next stale later (record s {
  busy_s = busy_seconds s now;
  running_since = none;
  running = false;
  running_samples = 0;
})

unfoldable pub work_done : (ℕ → Bool) → ℕ → ℕ → Scheduler → Acted
work_done stale now later s = release stale now later s

unfoldable pub submit : (ℕ → Bool) → ℕ → List ℕ → String → Option ℕ → Scheduler → Outcome Acted
unfolding priority_of
submit stale now pcm kind is_stale s =
    let samples = length pcm / 2 in
    if admits s samples
    then ok (
        wake_next stale now (record s {
          tickets = s.tickets + 1;
          waiters =
              s.waiters
              ++ record {
                priority = priority_of kind;
                ticket = s.tickets;
                samples = samples;
                is_stale = is_stale;
                cancelled = false;
              }
                ∷ [];
        }))
    else queue_full

abbrev pub mark_cancelled : ℕ → Waiter → Waiter
mark_cancelled ticket w = record w { cancelled = w.cancelled || w.ticket == ticket }

-- The cancellation of the task that waits with the ticket, before that task runs again.
unfoldable pub cancel : ℕ → Scheduler → Scheduler
cancel ticket s = record s { waiters = map (mark_cancelled ticket) s.waiters }

abbrev pub waits : ℕ → List Waiter → Bool
waits ticket [] = false
waits ticket (w ∷ ws) = w.ticket == ticket || waits ticket ws

-- `except asyncio.CancelledError`, for the waiter with the ticket and its `dropped` flag
unfoldable pub resume_cancelled : (ℕ → Bool) → ℕ → ℕ → ℕ → Bool → Scheduler → Acted
resume_cancelled stale now later ticket was_dropped s =
    if waits ticket s.waiters
    then (record s { waiters = keep (λ w. not (w.ticket == ticket)) s.waiters }, [])
    else if was_dropped
    then (s, [])
    else release stale now later s
