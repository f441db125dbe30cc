-- ===== src/Stream/Machine/Ledger.antt =====
-- What the turns of a session of api/stream.py do to its accounts: for each segment, how often it was
-- queued and ended, and where it waits.
pub mod Previews
pub mod Serving
pub mod Consumption
pub mod Closes
pub mod Handling
pub mod Control
pub mod Settling
pub mod Messages
pub mod Answers
pub mod Turns
use tea_asr_service.Prelude.{
  ℕ, zero, suc, ◌+◌, ◌≤◌, ◌≡◌, refl, ap, ◌∙◌, Bool, true, false, Option, none, some, List, [], ◌∷◌,
  ◌++◌, arith, ◌==◌, if◌then◌else◌,
}
use tea_asr_service.Stream.{
  StreamSession, ClosedSegment, SessionEvent, segment_queued, transcript_final, segment_skipped,
  segment_error, error, ErrorCode, session_limit,
}
use tea_asr_service.Stream.Consumer.{ConsumerPhase, idle, decoding, retrying, restoring}

-- 1 for `segment.queued` of the segment `i`
abbrev pub queues : ℕ → SessionEvent → ℕ
queues i (segment_queued j a b boundary) = if i == j then 1 else 0
queues i _ = 0

-- 1 for an event that ends the segment `i`: its final, its skip or its error
abbrev pub ends : ℕ → SessionEvent → ℕ
ends i (transcript_final j revision a b text raw warnings) = if i == j then 1 else 0
ends i (segment_skipped j reason) = if i == j then 1 else 0
ends i (segment_error j code) = if i == j then 1 else 0
ends i _ = 0

abbrev pub is_full : Option ℕ → ErrorCode → ℕ
is_full none code = 0
is_full (some request_id) session_limit = 1
is_full (some request_id) _ = 0

-- 1 for the answer to a control message that the queue of segments is full
abbrev pub overflows : SessionEvent → ℕ
overflows (error code request_id) = is_full request_id code
overflows _ = 0

abbrev pub tally : (SessionEvent → ℕ) → List SessionEvent → ℕ
tally w [] = 0
tally w (e ∷ es) = w e + tally w es

pub tally-append :
    (w : SessionEvent → ℕ) (xs : List SessionEvent) (e : SessionEvent)
    → tally w (xs ++ e ∷ []) ≡ tally w xs + w e
tally-append w [] e = omega arith
tally-append w (x ∷ xs) e = omega (arith, tally-append w xs e)

-- How often the segment stands in the queue
abbrev pub waits : ℕ → List ClosedSegment → ℕ
waits i [] = 0
waits i (closed ∷ pending) = (if i == closed.segment then 1 else 0) + waits i pending

pub waits-append :
    (i : ℕ) (xs : List ClosedSegment) (c : ClosedSegment)
    → waits i (xs ++ c ∷ []) ≡ waits i xs + (if i == c.segment then 1 else 0)
waits-append i [] c = omega arith
waits-append i (x ∷ xs) c = omega (arith, waits-append i xs c)

-- 1 if the consumer is at work on the segment
abbrev pub holds : ℕ → ConsumerPhase → ℕ
holds i idle = 0
holds i (decoding closed pcm carried) = if i == closed.segment then 1 else 0
holds i (retrying closed) = if i == closed.segment then 1 else 0
holds i (restoring closed raw text warnings) = if i == closed.segment then 1 else 0

module _ {S : Type 0} (i : ℕ) where
  abbrev pub queued : StreamSession S → ℕ
  queued s = tally (queues i) s.sent

  abbrev pub ended : StreamSession S → ℕ
  ended s = tally (ends i) s.sent

abbrev pub overflowed : {S : Type 0} → StreamSession S → ℕ
overflowed s = tally overflows s.sent

-- The accounts of the segment `i`, the session's open segment and its way to go on are as they were.
pub record IsSame {S : Type 0} (i : ℕ) (s s' : StreamSession S) : Type 0 where
  pub queued_same : queued i s' ≡ queued i s
  pub ended_same : ended i s' ≡ ended i s
  pub overflowed_same : overflowed s' ≡ overflowed s
  pub waits_same : waits i s'.pending ≡ waits i s.pending
  pub segment_same : s'.segment ≡ s.segment
  pub next_index_same : s'.next_index ≡ s.next_index
  pub cancelled_same : s'.cancelled ≡ s.cancelled

module _ {S : Type 0} (i : ℕ) where
  pub IsSame-refl : (s : StreamSession S) → IsSame i s s
  IsSame-refl s = record {
    queued_same = refl;
    ended_same = refl;
    overflowed_same = refl;
    waits_same = refl;
    segment_same = refl;
    next_index_same = refl;
    cancelled_same = refl;
  }

  pub IsSame-trans : {s t u : StreamSession S} → IsSame i s t → IsSame i t u → IsSame i s u
  IsSame-trans a b = record {
    queued_same = b.queued_same ∙ a.queued_same;
    ended_same = b.ended_same ∙ a.ended_same;
    overflowed_same = b.overflowed_same ∙ a.overflowed_same;
    waits_same = b.waits_same ∙ a.waits_same;
    segment_same = b.segment_same ∙ a.segment_same;
    next_index_same = b.next_index_same ∙ a.next_index_same;
    cancelled_same = b.cancelled_same ∙ a.cancelled_same;
  }

  -- An event that no account names
  pub IsSame-emit :
      (s : StreamSession S) (e : SessionEvent)
      → queues i e ≡ 0
      → ends i e ≡ 0
      → overflows e ≡ 0
      → IsSame i s (record s { sent = s.sent ++ e ∷ [] })
  IsSame-emit s e q d o = record {
    queued_same = omega (arith, tally-append (queues i) s.sent e, q);
    ended_same = omega (arith, tally-append (ends i) s.sent e, d);
    overflowed_same = omega (arith, tally-append overflows s.sent e, o);
    waits_same = refl;
    segment_same = refl;
    next_index_same = refl;
    cancelled_same = refl;
  }

  -- On both branches of a test
  pub IsSame-if :
      (b : Bool) {s x y : StreamSession S}
      → IsSame i s x
      → IsSame i s y
      → IsSame i s (if b then x else y)
  IsSame-if true h k = h
  IsSame-if false h k = k

-- A change of the other fields
pub IsSame-of :
    {S : Type 0} (i : ℕ) (s s' : StreamSession S)
    → s'.sent ≡ s.sent
    → s'.pending ≡ s.pending
    → s'.segment ≡ s.segment
    → s'.next_index ≡ s.next_index
    → s'.cancelled ≡ s.cancelled
    → IsSame i s s'
IsSame-of i s s' a b c d e = record {
  queued_same = ap (tally (queues i)) a;
  ended_same = ap (tally (ends i)) a;
  overflowed_same = ap (tally overflows) a;
  waits_same = ap (waits i) b;
  segment_same = c;
  next_index_same = d;
  cancelled_same = e;
}
