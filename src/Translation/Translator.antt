-- ===== src/Translation/Translator.antt =====
-- translation/session.py (tea_asr/translation/session.py): final texts in, translation events out. The
-- consumer task `_run` is cut where it awaits; its place is the `phase`. The provider is not run: its
-- generation, the generation it starts and its answers are arguments.
pub mod Turns
pub mod Queueing
pub mod Validity
pub mod Sequence
pub mod Order
pub mod Telling
pub mod Reports
mod Examples
use tea_asr_service.Prelude.{
  ℕ, ◌+◌, ◌-◌, Bool, true, false, not, ◌&&◌, ◌||◌, Option, none, some, List, [], ◌∷◌, ◌++◌, map,
  ltb, leb, ◌==◌, if◌then◌else◌, length,
}
use Prim.Native.String.{String}
use text.Mathlib.Text.{◌==◌ as str_eq}

-- A text is the list of its characters' codes.
pub record Final : Type 0 where
  pub segment_id : ℕ
  pub text : List ℕ

pub record ApiError : Type 0 where
  pub code : String
  pub retryable : Bool

-- TranslationSegment and TranslationError, as far as they tell of segments
pub data Event : Type 0 where
  segment : (translation_index : ℕ) (source_segment_ids : List ℕ) (text : List ℕ) → Event
  failure : (error : ApiError) (source_segment_ids : List ℕ) (stopped : Bool) → Event

-- Where `_run` waits: for the queue, for `start_session`, for `translate`; or it has no task, or the
-- task is done. With the batch it took and the ids it would report.
pub data Phase : Type 0 where
  idle : Phase
  starting calling : (batch : List Final) (ids : List ℕ) → Phase
  ended : Phase

-- `unfinished` is what the queue's `join` waits for: the items that were put and not reported done.
pub record SessionTranslator : Type 0 where
  pub max_pending : ℕ
  pub queue : List Final
  pub unfinished : ℕ
  pub phase : Phase
  pub generation : Option ℕ
  pub next_index : ℕ
  pub carried : List ℕ
  pub inflight : List ℕ
  pub stopped : Bool
  pub closed : Bool

abbrev pub Acted : Type 0
Acted = SessionTranslator × List Event

abbrev pub start : SessionTranslator → SessionTranslator
start s = record s { phase = idle }

abbrev pub ids_of : List Final → List ℕ
ids_of = map (λ item. item.segment_id)

abbrev pub is_empty : List ℕ → Bool
is_empty [] = true
is_empty (x ∷ xs) = false

-- self._queue.full(): a queue whose size is 0 has no bound
unfoldable pub is_full : SessionTranslator → Bool
is_full s = ltb 0 s.max_pending && leb s.max_pending (length s.queue)

-- `_error`
abbrev pub report : ApiError → List ℕ → Bool → SessionTranslator → List Event
report exc ids stopped s = if s.closed then [] else failure exc ids stopped ∷ []

unfoldable pub submit : ℕ → List ℕ → SessionTranslator → Acted
unfolding is_full
submit segment_id text s =
    if s.closed || s.stopped
    then (s, [])
    else if is_full s
    then (s, report (record { code = "queue_full"; retryable = false }) (segment_id ∷ []) false s)
    else (
      record s {
        queue = s.queue ++ record { segment_id = segment_id; text = text } ∷ [];
        unfinished = s.unfinished + 1;
      },
      [],
    )

abbrev pub same_generation : Option ℕ → ℕ → Bool
same_generation none now = false
same_generation (some g) now = g == now

abbrev pub is_some : Option ℕ → Bool
is_some none = false
is_some (some g) = true

-- `_ensure_session` up to its `await`, with the provider's generation
unfoldable pub ensure_session : ℕ → List Final → List ℕ → SessionTranslator → Acted
ensure_session provider batch ids s =
    if same_generation s.generation provider
    then (
      record s {
        phase = calling batch (s.carried ++ ids_of batch);
        inflight = s.carried ++ ids_of batch;
      },
      [],
    )
    else if is_some s.generation && not (is_empty s.carried)
    then (
      record s { phase = starting batch ids; inflight = ids; carried = [] },
      report (record { code = "translation_failed"; retryable = false }) s.carried false s,
    )
    else (record s { phase = starting batch ids; inflight = ids }, [])

-- `_run` from `queue.get` on: the whole queue is taken as one batch.
take_batch : ℕ → SessionTranslator → List Final → Acted
unfolding ensure_session
take_batch provider s [] = (s, [])
take_batch provider s (item ∷ items) =
    let batch = item ∷ items in
    ensure_session provider batch (s.carried ++ ids_of batch) (record s { queue = [] })

pub wake_in : ℕ → SessionTranslator → Phase → Acted
unfolding take_batch
wake_in provider s idle = take_batch provider s s.queue
wake_in provider s (starting batch ids) = (s, [])
wake_in provider s (calling batch ids) = (s, [])
wake_in provider s ended = (s, [])

unfoldable pub wake : ℕ → SessionTranslator → Acted
unfolding wake_in
wake provider s = wake_in provider s s.phase

pub start_in : ℕ → SessionTranslator → Phase → Acted
start_in g s idle = (s, [])
start_in g s (starting batch ids) =
    let ids' = s.carried ++ ids_of batch in
    (record s { generation = some g; phase = calling batch ids'; inflight = ids' }, [])
start_in g s (calling batch ids) = (s, [])
start_in g s ended = (s, [])

-- `start_session` has returned the generation.
unfoldable pub session_started : ℕ → SessionTranslator → Acted
unfolding start_in
session_started g s = start_in g s s.phase

-- `finally`
abbrev pub finish_batch : List Final → SessionTranslator → SessionTranslator
finish_batch batch s = record s { inflight = []; unfinished = s.unfinished - length batch }

abbrev pub drain_queue : SessionTranslator → SessionTranslator
drain_queue s = record s { queue = []; unfinished = s.unfinished - length s.queue }

unfoldable pub is_fatal : ApiError → Bool
is_fatal exc = str_eq exc.code "translation_unavailable" && not exc.retryable

-- `except ApiError`, and `finally`
unfoldable pub fail_batch : ApiError → List Final → List ℕ → SessionTranslator → Acted
unfolding is_fatal
fail_batch exc batch ids s =
    let s' = record s {
      generation = if is_empty s.carried then s.generation else none;
      carried = [];
    } in
    let events = report exc ids (is_fatal exc) s in
    if is_fatal exc
    then (finish_batch batch (drain_queue (record s' { stopped = true; phase = ended })), events)
    else (finish_batch batch (record s' { phase = idle }), events)

pub fail_in : ApiError → SessionTranslator → Phase → Acted
unfolding fail_batch
fail_in exc s idle = (s, [])
fail_in exc s (starting batch ids) = fail_batch exc batch ids s
fail_in exc s (calling batch ids) = fail_batch exc batch ids s
fail_in exc s ended = (s, [])

-- `start_session` or `translate` has raised an ApiError.
unfoldable pub failed : ApiError → SessionTranslator → Acted
unfolding fail_in
failed exc s = fail_in exc s s.phase

-- The rest of a round, for a response with the action "TRANS" or another one
unfoldable pub take_response : Bool → List ℕ → List Final → List ℕ → SessionTranslator → Acted
take_response trans text batch ids s =
    let s' = finish_batch batch s in
    if not trans
    then (record s' { carried = ids; phase = idle }, [])
    else if s.closed
    then (record s' { carried = []; phase = ended }, [])
    else (
      record s' { carried = []; next_index = s.next_index + 1; phase = idle },
      segment s.next_index ids text ∷ [],
    )

pub answer_in : Bool → List ℕ → SessionTranslator → Phase → Acted
unfolding take_response
answer_in trans text s idle = (s, [])
answer_in trans text s (starting batch ids) = (s, [])
answer_in trans text s (calling batch ids) = take_response trans text batch ids s
answer_in trans text s ended = (s, [])

-- `translate` has returned a response: whether its action is "TRANS", and its text.
unfoldable pub answered : Bool → List ℕ → SessionTranslator → Acted
unfolding answer_in
answered trans text s = answer_in trans text s s.phase

cancel_in : SessionTranslator → Phase → SessionTranslator
cancel_in s idle = record s { phase = ended }
cancel_in s (starting batch ids) = finish_batch batch (record s { phase = ended })
cancel_in s (calling batch ids) = finish_batch batch (record s { phase = ended })
cancel_in s ended = s

-- `_cancel_task`; and what another exception than ApiError, raised where the task awaits, does.
unfoldable pub cancel_task : SessionTranslator → SessionTranslator
unfolding cancel_in
cancel_task s = cancel_in s s.phase

-- `drain`, after the wait: `join` was done before the timeout.
unfoldable pub drain_joined : SessionTranslator → Acted
drain_joined s = if is_empty s.carried then (s, []) else (
  record s { carried = [] },
  report (record { code = "translation_failed"; retryable = false }) s.carried false s,
)

-- `drain`, after the wait: it timed out.
unfoldable pub drain_timeout : SessionTranslator → Acted
unfolding cancel_task
drain_timeout s =
    let unfinished = (if is_empty s.inflight then s.carried else s.inflight) ++ ids_of s.queue in
    (
      record (cancel_task (drain_queue s)) { closed = true },
      report (record { code = "translation_timeout"; retryable = false }) unfinished true s,
    )

-- The task that is cancelled reads `_closed` no more.
unfoldable pub close : SessionTranslator → SessionTranslator
unfolding cancel_task
close s = record (cancel_task s) { closed = true }
