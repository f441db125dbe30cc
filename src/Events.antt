-- ===== src/Events.antt =====
-- api/events.py (tea_asr/api/events.py): the bounded queue of outgoing events of one session.
-- A payload is what `emit` makes of an event: `body` stands for its other fields, and `size` for the
-- length of its JSON text. The clock's reading is an argument.
pub mod Types
pub mod Delivery
pub mod Replace
pub mod Pending
pub mod Kinds
pub mod Session
mod Examples
use tea_asr_service.Prelude.{
  ℕ, zero, suc, ◌+◌, ◌-◌, Bool, true, false, not, ◌&&◌, ◌||◌, Option, none, some, List, [], ◌∷◌,
  ◌++◌, ltb, leb, ◌==◌, if◌then◌else◌, length, keep,
}
use Types.{
  EventType, transcript_partial, transcript_stable, same_type, is_terminal_type, is_coalesced,
  ends_segment,
}

-- `is_open` is `payload["state"] == "open"`
pub record Payload : Type 0 where
  pub type : EventType
  pub segment_id : ℕ
  pub is_open : Bool
  pub body : ℕ

pub record EventWriter : Type 0 where
  pub max_items : ℕ
  pub max_bytes : ℕ
  pub overflow_grace_s : ℕ
  pub queue : List Payload
  pub bytes : ℕ
  pub over_since : Option ℕ
  pub next_event_id : ℕ
  pub drained : Bool

pub record Sent : Type 0 where
  pub event_id : ℕ
  pub payload : Payload

-- The events that must reach the client: the terminal types, but of the stable ones the closing only.
unfoldable pub is_terminal : Payload → Bool
is_terminal p = is_terminal_type p.type && not (same_type p.type transcript_stable && p.is_open)

unfoldable pub is_partial_of : ℕ → Payload → Bool
is_partial_of segment p = same_type p.type transcript_partial && p.segment_id == segment

unfoldable pub is_open_stable_of : ℕ → Payload → Bool
is_open_stable_of segment p =
    same_type p.type transcript_stable && (p.segment_id == segment && p.is_open)

-- The first pending payload that passes the test gives way to `p`; with what it was.
unfoldable pub replace_first :
    (Payload → Bool) → Payload → List Payload → Option (List Payload × Payload)
replace_first test p [] = none
replace_first test p (q ∷ queue) =
    let rest = replace_first test p queue in
    if test q
    then some (p ∷ queue, q)
    else elim rest [ none ↦ none | some (queue', old) ↦ some (q ∷ queue', old) ]

module _ (size : Payload → ℕ) where
  abbrev pub total : List Payload → ℕ
  total [] = 0
  total (p ∷ queue) = size p + total queue

  abbrev pub is_over : EventWriter → Bool
  is_over s = ltb s.max_items (length s.queue) || ltb s.max_bytes s.bytes

  since : Bool → ℕ → Option ℕ → Option ℕ
  since true now none = some now
  since true now (some t) = some t
  since false now o = none

  unfoldable pub check_overflow : ℕ → EventWriter → EventWriter
  unfolding since
  check_overflow now s = record s { over_since = since (is_over s) now s.over_since }

  unfoldable pub append : ℕ → Payload → EventWriter → EventWriter
  unfolding check_overflow
  append now p s =
      check_overflow now
        (record s { queue = s.queue ++ p ∷ []; bytes = s.bytes + size p; drained = false })

  replaced : ℕ → Payload → EventWriter → Option (List Payload × Payload) → EventWriter
  replaced now p s none = append now p s
  replaced now p s (some (queue, old)) = record s {
    queue = queue;
    bytes = s.bytes + size p - size old;
  }

  -- `_replace` and `_replace_partial`, and the loop of `_emit_stable`
  unfoldable pub replace_pending : (Payload → Bool) → ℕ → Payload → EventWriter → EventWriter
  unfolding replaced replace_first
  replace_pending test now p s = replaced now p s (replace_first test p s.queue)

  -- The payloads that pass the test leave the queue; the bytes are summed anew if any did.
  unfoldable pub discard : (Payload → Bool) → EventWriter → EventWriter
  discard test s =
      let kept = keep (λ q. not (test q)) s.queue in
      if length kept == length s.queue then s else record s { queue = kept; bytes = total kept }

  unfoldable pub emit_stable : ℕ → Payload → EventWriter → EventWriter
  emit_stable now p s =
      if p.is_open
      then replace_pending (is_open_stable_of p.segment_id) now p s
      else append now p (discard (is_open_stable_of p.segment_id) s)

  unfoldable pub enqueue : ℕ → Payload → EventWriter → EventWriter
  enqueue now p s =
      if is_coalesced p.type
      then replace_pending (λ q. same_type q.type p.type) now p s
      else if same_type p.type transcript_partial
      then replace_pending (is_partial_of p.segment_id) now p s
      else if same_type p.type transcript_stable
      then emit_stable now p s
      else append now p s

  unfoldable pub emit : ℕ → Payload → EventWriter → EventWriter
  unfolding enqueue
  emit now p s =
      let s' = enqueue now p s in
      if ends_segment p.type then discard (is_partial_of p.segment_id) s' else s'

  write_from : ℕ → EventWriter → List Payload → EventWriter × Option Sent
  write_from now s [] = (record s { drained = true }, none)
  write_from now s (p ∷ queue) = (
    record (check_overflow now (record s { queue = queue; bytes = s.bytes - size p })) {
      next_event_id = s.next_event_id + 1;
    },
    some (record { event_id = s.next_event_id; payload = p }),
  )

  -- One round of the loop of `run`: the first pending event is sent, or the queue is found empty.
  unfoldable pub write : ℕ → EventWriter → EventWriter × Option Sent
  unfolding write_from check_overflow
  write now s = write_from now s s.queue

  -- The test of `watchdog`, which ends the session with `slow_client`.
  unfoldable pub is_slow : ℕ → EventWriter → Bool
  is_slow now s = elim s.over_since [
    | none ↦ false
    | some t ↦ not (t == 0) && leb (t + s.overflow_grace_s) now
  ]
