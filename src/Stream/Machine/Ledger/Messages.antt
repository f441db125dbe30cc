-- ===== src/Stream/Machine/Ledger/Messages.antt =====
-- `_handle_control` of api/stream.py (tea_asr/api/stream.py), and the end of `session.stop`, in the books
-- of a segment.
use tea_asr_service.Prelude.{
  ℕ, refl, Bool, true, false, Option, some, List, [], ◌∷◌, ◌++◌, arith, if◌then◌else◌,
}
use tea_asr_service.Stable.Chars.{Unicode}
use tea_asr_service.Stream.{
  StreamSession, ClosedSegment, commit, ping, stop, ErrorCode, inference_timeout, segment_error,
  pong,
}
use tea_asr_service.Stream.StableLine.{abandon_stable}
use tea_asr_service.Stream.Control
use tea_asr_service.Stream.Control.{
  Receiving, listening, settling, draining, cancelling, failing, give_up, mark_terminal, recover,
  remember, begin_close, on_ping, on_commit, on_stop, dedup, fresh, repeated, conflicting, Dedup,
  last_seq_of, same_option, handle_control, close_settled, settled, stop_completed, report_pending,
  stop_timed_out,
}
use tea_asr_service.Stream.Machine.Ledger.{
  queues, ends, overflows, tally-append, IsSame, IsSame-trans, IsSame-emit,
}
use tea_asr_service.Stream.Machine.Ledger.Previews.{abandon_stable-IsSame}
use tea_asr_service.Stream.Machine.Ledger.Serving.{IsServed}
use tea_asr_service.Stream.Machine.Ledger.Closes.{HasBooks, HasBooks-IsSame, HasBooks-IsServed}
use tea_asr_service.Stream.Machine.Ledger.Control.{
  Receives, give_up-HasBooks, recover-Receives, begin_close-Receives, remember-IsSame,
}

module _ {S : Type 0} (i : ℕ) where
  on_ping-Receives :
      (s : StreamSession S) (request_id : ℕ) (d : Dedup) {h : ℕ}
      → HasBooks i h 0 s
      → Receives i h (on_ping s request_id d)
  unfolding on_ping
  on_ping-Receives s r fresh b =
      let e = remember-IsSame i r ping s in
      (HasBooks-IsSame i b (IsSame-trans i e (IsSame-emit i _ (pong r) refl refl refl)), tt)
  on_ping-Receives s r repeated b = (b, tt)
  on_ping-Receives s r conflicting b = recover-Receives i s r ErrorCode.conflict b

  on_commit-Receives :
      (s : StreamSession S) (request_id n : ℕ) (d : Dedup) {h : ℕ}
      → HasBooks i h 0 s
      → Receives i h (on_commit s request_id n d)
  unfolding on_commit
  on_commit-Receives s r n fresh b =
      begin_close-Receives i _ r (commit n) (HasBooks-IsSame i b (remember-IsSame i r (commit n) s))
  on_commit-Receives s r n repeated b = (b, tt)
  on_commit-Receives s r n conflicting b = recover-Receives i s r ErrorCode.conflict b

  on_stop-Receives :
      (s : StreamSession S) (request_id : ℕ) (last : Option ℕ) (d : Dedup) {h : ℕ}
      → HasBooks i h 0 s
      → Receives i h (on_stop s request_id last d)
  unfolding on_stop
  on_stop-Receives s r last fresh b =
      begin_close-Receives i _ r (stop last)
        (HasBooks-IsSame i b (remember-IsSame i r (stop last) s))
  on_stop-Receives s r last repeated b = begin_close-Receives i s r (stop last) b
  on_stop-Receives s r last conflicting b = recover-Receives i s r ErrorCode.conflict b

  Receives-if :
      (test : Bool) (h : ℕ) (x y : StreamSession S × Receiving)
      → Receives i h x
      → Receives i h y
      → Receives i h (if test then x else y)
  Receives-if true h x y a b = a
  Receives-if false h x y a b = b

  pub handle_control-Receives :
      (s : StreamSession S) (message : Control.Control) {h : ℕ}
      → HasBooks i h 0 s
      → Receives i h (handle_control s message)
  unfolding handle_control
  handle_control-Receives s (Control.ping_message r) b = on_ping-Receives s r (dedup s r ping) b
  handle_control-Receives s (Control.session_start r) b =
      recover-Receives i s r ErrorCode.protocol_error b
  handle_control-Receives s (Control.audio_commit r n) {h} b =
      Receives-if s.config.continuous h _ _ (recover-Receives i s r ErrorCode.unsupported_option b)
        (Receives-if (same_option (some n) (last_seq_of s.next_seq)) h _ _
          (on_commit-Receives s r n (dedup s r (commit n)) b)
          (recover-Receives i s r ErrorCode.protocol_error b))
  handle_control-Receives s (Control.session_stop r n) {h} b =
      Receives-if (same_option n (last_seq_of s.next_seq)) h _ _
        (on_stop-Receives s r (last_seq_of s.next_seq) (dedup s r (stop (last_seq_of s.next_seq)))
          b)
        (recover-Receives i s r ErrorCode.protocol_error b)
  handle_control-Receives s (Control.session_cancel r) b = (give_up-HasBooks i s b, tt)

  pub stop_completed-Receives :
      (s : StreamSession S) (request_id : ℕ) (last : Option ℕ) {h : ℕ}
      → HasBooks i h 0 s
      → Receives i h (stop_completed s request_id last)
  unfolding stop_completed
  stop_completed-Receives s r last b = (HasBooks-IsSame i b (IsSame-emit i s _ refl refl refl), tt)

  module _ (u : Unicode) where
    repending :
        {s t : StreamSession S} (p : List ClosedSegment)
        → IsSame i s t
        → IsSame i (record s { pending = p }) (record t { pending = p })
    repending p e = record {
      queued_same = e.queued_same;
      ended_same = e.ended_same;
      overflowed_same = e.overflowed_same;
      waits_same = refl;
      segment_same = e.segment_same;
      next_index_same = e.next_index_same;
      cancelled_same = e.cancelled_same;
    }

    -- The first that waits is ended by an error.
    expired-IsServed :
        (s : StreamSession S) (closed : ClosedSegment) (pending : List ClosedSegment)
        (failed : List ℕ) (h : ℕ)
        → IsServed i
            (record s { pending = closed ∷ pending })
            h
            (record s {
              pending = pending;
              failed_segments = failed;
              sent = s.sent ++ segment_error closed.segment inference_timeout ∷ [];
            })
            h
    expired-IsServed s closed pending failed h =
        let e = segment_error closed.segment inference_timeout in
        let d = tally-append (ends i) s.sent e in
        record {
          queued_same = omega (arith, tally-append (queues i) s.sent e);
          overflowed_same = omega (arith, tally-append overflows s.sent e);
          segment_same = refl;
          next_index_same = refl;
          cancelled_same = refl;
          at_most = omega (arith, d);
          none_lost = λ _. omega (arith, d);
        }

    -- What is reported at the time limit no longer waits.
    report_pending-HasBooks :
        (pending : List ClosedSegment) (s : StreamSession S) {h : ℕ}
        → HasBooks i h 0 (record s { pending = pending })
        → HasBooks i h 0 (report_pending u pending s)
    unfolding report_pending
    report_pending-HasBooks [] s b = b
    report_pending-HasBooks (closed ∷ pending) s {h} b =
        let failed = s.failed_segments ++ closed.segment ∷ [] in
        let s' = record s {
          failed_segments = failed;
          sent = s.sent ++ segment_error closed.segment inference_timeout ∷ [];
        } in
        report_pending-HasBooks pending (abandon_stable u s' closed.segment) (
          HasBooks-IsSame i (HasBooks-IsServed i b (expired-IsServed s closed pending failed h))
            (repending pending (abandon_stable-IsSame i u s' closed.segment)))

    pub stop_timed_out-Receives :
        (s : StreamSession S) (request_id : ℕ) (last : Option ℕ) {h : ℕ}
        → HasBooks i h 0 s
        → Receives i h (stop_timed_out u s request_id last)
    unfolding stop_timed_out
    stop_timed_out-Receives s r last b =
        stop_completed-Receives (report_pending u s.pending s) r last
          (report_pending-HasBooks s.pending s b)
