-- ===== src/Stream/Machine/Terminal.antt =====
-- How the segments of a session of api/stream.py (tea_asr/api/stream.py) end.
use tea_asr_service.Prelude.{
  ℕ, ◌≤◌, ◌≡◌, refl, ap, ◌∙◌, true, false, Option, List, [], ◌∷◌, ◌++◌, arith, ◌==◌, ==_iff,
}
use tea_asr_service.Segmenter.{ContinuousSegmenter}
use tea_asr_service.Stable.Chars.{Unicode}
use tea_asr_service.Stream.{SessionConfig, StreamSession, ClosedSegment, session_stopped}
use tea_asr_service.Stream.Text.{Tables}
use tea_asr_service.Stream.Control.{draining, ended, report_pending, stop_timed_out, stop_completed}
use tea_asr_service.Stream.Consumer
use tea_asr_service.Stream.Consumer.{ConsumerPhase, idle}
use tea_asr_service.Stream.Machine.{
  Turn, drain_timeout, Running, start_session, on_drain_timeout, turn, turns,
}
use tea_asr_service.Stream.Machine.Ledger
use tea_asr_service.Stream.Machine.Ledger.{tally, tally-append, waits, holds, queued, overflowed}
use tea_asr_service.Stream.Machine.Ledger.Closes.{one_if}
use tea_asr_service.Stream.Machine.Ledger.Turns.{IsAccounted, turns-IsAccounted}

-- The session after a schedule of turns
abbrev pub session_after :
    {S : Type 0}
    → Tables
    → (List ℕ → S → ℕ × S)
    → SessionConfig
    → Option (ContinuousSegmenter S)
    → ℕ
    → List Turn
    → Running S
session_after t probability config segmenter request_id schedule =
    turns t probability (start_session config segmenter request_id) schedule

module _ {S : Type 0} where
  stop_timed_out_empty :
      (u : Unicode) (s : StreamSession S) (stop_id : ℕ) (last : Option ℕ)
      → s.pending ≡ []
      → stop_timed_out u s stop_id last ≡ (
        record s {
          pending = [];
          sent = s.sent ++ session_stopped stop_id last s.failed_segments ∷ [];
        },
        ended,
      )
  unfolding stop_timed_out stop_completed report_pending
  stop_timed_out_empty u s stop_id last empty =
      ap
        (λ p. (
          record (report_pending u p s) {
            sent =
                (report_pending u p s).sent
                ++ session_stopped stop_id last (report_pending u p s).failed_segments ∷ [];
          },
          ended,
        ))
        empty

  stopped_facts :
      (s : StreamSession S) (j stop_id : ℕ) (last : Option ℕ)
      → queued j s ≡ 1
      → Ledger.ended j s ≡ 0
      → let sent = s.sent ++ session_stopped stop_id last s.failed_segments ∷ [] in
        (sent ≡ s.sent ++ session_stopped stop_id last s.failed_segments ∷ [])
        × (tally (Ledger.queues j) sent ≡ 1)
        × (tally (Ledger.ends j) sent ≡ 0)
  stopped_facts s j stop_id last q d =
      let e = session_stopped stop_id last s.failed_segments in
      (
        refl,
        omega (arith, tally-append (Ledger.queues j) s.sent e, q),
        omega (arith, tally-append (Ledger.ends j) s.sent e, d),
      )

module _ {S : Type 0} (t : Tables) (probability : List ℕ → S → ℕ × S) (config : SessionConfig)
    (segmenter : Option (ContinuousSegmenter S)) (request_id : ℕ) where
  started-IsAccounted : (i : ℕ) → IsAccounted i (start_session config segmenter request_id)
  unfolding start_session
  started-IsAccounted i = record {
    books = record {
      opened = λ o. cc;
      future = λ le. refl;
      once = omega arith;
      bounded = omega arith;
      kept = omega arith;
    };
    agrees = tt;
  }

  accounted :
      (schedule : List Turn) (i : ℕ)
      → IsAccounted i (session_after t probability config segmenter request_id schedule)
  accounted schedule i =
      turns-IsAccounted i t probability (start_session config segmenter request_id) schedule
        (started-IsAccounted i)

  -- Whatever turns the receive loop, the consumer and the preview take: no segment is queued twice,
  -- and none is ended (by its final, a skip or an error) more often than it was queued.
  pub session_after-ends_once :
      (schedule : List Turn) (i : ℕ)
      → let s = (session_after t probability config segmenter request_id schedule).session in
        (Ledger.ended i s ≤ queued i s) × (queued i s ≤ 1)
  session_after-ends_once schedule i =
      let b = (accounted schedule i).books in (omega (arith, b.bounded), b.once)

  -- When the queue is empty and the consumer idle, in a session that was not cancelled and in which no
  -- control message was answered with a full queue, every segment was ended as often as it was queued.
  pub session_after-all_ended :
      (schedule : List Turn) (i : ℕ)
      → let r = session_after t probability config segmenter request_id schedule in
        r.session.pending ≡ []
        → r.consumer ≡ idle
        → r.session.cancelled ≡ false
        → overflowed r.session ≡ 0
        → Ledger.ended i r.session ≡ queued i r.session
  session_after-all_ended schedule i empty still on room =
      let b = (accounted schedule i).books in
      omega (arith, b.bounded, b.kept, ap (waits i) empty, ap (holds i) still, ap one_if on, room)

  -- The queue is empty and the time to drain is over while the worker is at work on a segment: the
  -- session reports the end with the failures so far, and the segment was queued and is not ended.
  pub drain_timeout-unreported :
      (schedule : List Turn) (stop_id : ℕ) (last : Option ℕ) (closed : ClosedSegment)
      (decode_pcm : List ℕ) (carried : Option (List ℕ))
      → let r = session_after t probability config segmenter request_id schedule in
        r.receiving ≡ draining stop_id last
        → r.session.pending ≡ []
        → r.consumer ≡ Consumer.decoding closed decode_pcm carried
        → let s' = (turn t probability r drain_timeout).session in
          (s'.sent ≡ r.session.sent ++ session_stopped stop_id last r.session.failed_segments ∷ [])
          × (queued closed.segment s' ≡ 1)
          × (Ledger.ended closed.segment s' ≡ 0)
  unfolding turn on_drain_timeout
  drain_timeout-unreported schedule stop_id last closed pcm carried draining' empty busy =
      let r = session_after t probability config segmenter request_id schedule in
      let b = (accounted schedule closed.segment).books in
      let mine : closed.segment == closed.segment ≡ true =
        (==_iff closed.segment closed.segment).1 refl in
      let held : holds closed.segment r.consumer ≡ 1 =
        ap (holds closed.segment) busy ∙ ap one_if mine in
      rw (draining', stop_timed_out_empty t.unicode r.session stop_id last empty)
        (stopped_facts r.session closed.segment stop_id last
          (omega (arith, b.once, b.bounded, held)) (omega (arith, b.once, b.bounded, held)))
