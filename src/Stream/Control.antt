-- ===== src/Stream/Control.antt =====
-- Control messages of api/stream.py (tea_asr/api/stream.py). A handler is cut where it awaits, and
-- `Receiving` is the place of the receive loop. The JSON of a message is parsed already.
use tea_asr_service.Prelude.{
  ℕ, zero, suc, ◌-◌, Bool, true, false, Option, none, some, List, [], ◌∷◌, ◌++◌, ◌==◌,
  if◌then◌else◌, length, drop,
}
use tea_asr_service.Stable.Chars.{Unicode}
use tea_asr_service.Stream.{
  StreamSession, ClosedSegment, ControlKey, start, ping, commit, stop, Outcome, done, raised,
  ErrorCode, protocol_error, session_limit, crashed, unsupported_option, conflict, queue_full,
  inference_timeout, segment_error, pong, error, session_stopped, session_cancelled, emit, modify,
}
use tea_asr_service.Stream.Preview.{settle_preview}
use tea_asr_service.Stream.StableLine.{abandon_stable}
use tea_asr_service.Stream.Closing.{close_begin, close_open_audio}

abbrev pub control_dedup_limit : ℕ
control_dedup_limit = 256

pub data Control : Type 0 where
  ping_message : (request_id : ℕ) → Control
  session_start : (request_id : ℕ) → Control
  audio_commit : (request_id through_seq : ℕ) → Control
  session_stop : (request_id : ℕ) (through_seq : Option ℕ) → Control
  session_cancel : (request_id : ℕ) → Control

-- `settling` awaits the preview's task on behalf of `_close_open_audio`, which has read `segment`;
-- `draining` awaits the queue, and `cancelling` and `failing` the preview's task.
pub data Receiving : Type 0 where
  listening : Receiving
  settling : (segment : Option ℕ) (request_id : ℕ) (closes : ControlKey) → Receiving
  draining : (request_id : ℕ) (last_seq : Option ℕ) → Receiving
  cancelling : (request_id : ℕ) → Receiving
  failing : (code : ErrorCode) → Receiving
  ended : Receiving

abbrev pub same_option : Option ℕ → Option ℕ → Bool
same_option none none = true
same_option (some a) (some b) = a == b
same_option _ _ = false

unfoldable pub same_key : ControlKey → ControlKey → Bool
same_key start start = true
same_key ping ping = true
same_key (commit a) (commit b) = a == b
same_key (stop a) (stop b) = same_option a b
same_key _ _ = false

-- self._control_acks.get(request_id)
unfoldable pub ack_of : ℕ → List (ℕ × ControlKey) → Option ControlKey
ack_of request_id [] = none
ack_of request_id ((r, key) ∷ acks) =
    let rest = ack_of request_id acks in if r == request_id then some key else rest

pub data Dedup : Type 0 where
  fresh repeated conflicting : Dedup

dedup_from : Option ControlKey → ControlKey → Dedup
unfolding same_key
dedup_from none key = fresh
dedup_from (some previous) key = if same_key previous key then repeated else conflicting

abbrev pub last_seq_of : ℕ → Option ℕ
last_seq_of zero = none
last_seq_of (suc n) = some n

module _ {S : Type 0} where
  -- Whether the request was seen
  unfoldable pub dedup : StreamSession S → ℕ → ControlKey → Dedup
  unfolding dedup_from ack_of
  dedup s request_id key = dedup_from (ack_of request_id s.control_acks) key

  -- The oldest requests beyond the limit are forgotten.
  unfoldable pub remember : ℕ → ControlKey → StreamSession S → StreamSession S
  remember request_id key s =
      let acks = s.control_acks ++ (request_id, key) ∷ [] in
      record s { control_acks = drop (length acks - control_dedup_limit) acks }

  unfoldable pub mark_terminal : Option ℕ → StreamSession S → StreamSession S
  mark_terminal none s = s
  mark_terminal (some i) s = modify i (λ g. record g { terminal = true }) s

  -- `fail` and `session.cancel`, up to their wait
  unfoldable pub give_up : StreamSession S → StreamSession S
  unfolding mark_terminal settle_preview
  give_up s = settle_preview (mark_terminal s.segment (record s { cancelled = true }))

  -- The `except ApiError` of the receive loop; what it raises again ends in `fail`. An
  -- exception that is not an ApiError ends the session without an event.
  unfoldable pub recover : StreamSession S → ℕ → ErrorCode → StreamSession S × Receiving
  recover s request_id conflict = (emit (error conflict (some request_id)) s, listening)
  recover s request_id queue_full = (emit (error queue_full (some request_id)) s, listening)
  recover s request_id session_limit = (emit (error session_limit (some request_id)) s, listening)
  recover s request_id crashed = (s, ended)
  recover s request_id code = (give_up s, failing code)

  -- `audio.commit` and `session.stop` up to the wait for the preview
  unfoldable pub begin_close : StreamSession S → ℕ → ControlKey → StreamSession S × Receiving
  begin_close s request_id key = (close_begin s s.segment, settling s.segment request_id key)

  unfoldable pub on_ping : StreamSession S → ℕ → Dedup → StreamSession S × Receiving
  on_ping s request_id fresh = (emit (pong request_id) (remember request_id ping s), listening)
  on_ping s request_id repeated = (s, listening)
  on_ping s request_id conflicting = recover s request_id conflict

  unfoldable pub on_commit : StreamSession S → ℕ → ℕ → Dedup → StreamSession S × Receiving
  on_commit s request_id through_seq fresh =
      begin_close (remember request_id (commit through_seq) s) request_id (commit through_seq)
  on_commit s request_id through_seq repeated = (s, listening)
  on_commit s request_id through_seq conflicting = recover s request_id conflict

  -- A stop that was seen is carried out again.
  unfoldable pub on_stop : StreamSession S → ℕ → Option ℕ → Dedup → StreamSession S × Receiving
  on_stop s request_id last_seq fresh =
      begin_close (remember request_id (stop last_seq) s) request_id (stop last_seq)
  on_stop s request_id last_seq repeated = begin_close s request_id (stop last_seq)
  on_stop s request_id last_seq conflicting = recover s request_id conflict

  unfoldable pub handle_control : StreamSession S → Control → StreamSession S × Receiving
  unfolding on_ping on_commit on_stop dedup remember recover begin_close give_up
  handle_control s (ping_message request_id) = on_ping s request_id (dedup s request_id ping)
  handle_control s (session_start request_id) = recover s request_id protocol_error
  handle_control s (audio_commit request_id through_seq) =
      if s.config.continuous
      then recover s request_id unsupported_option
      else if same_option (some through_seq) (last_seq_of s.next_seq)
      then on_commit s request_id through_seq (dedup s request_id (commit through_seq))
      else recover s request_id protocol_error
  handle_control s (session_stop request_id through_seq) =
      if same_option through_seq (last_seq_of s.next_seq)
      then on_stop s request_id (last_seq_of s.next_seq)
          (dedup s request_id (stop (last_seq_of s.next_seq)))
      else recover s request_id protocol_error
  handle_control s (session_cancel request_id) = (give_up s, cancelling request_id)

  -- Behind the wait for the preview
  unfoldable pub close_settled : ℕ → ControlKey → Outcome S → StreamSession S × Receiving
  close_settled request_id key (raised code s) = recover s request_id code
  close_settled request_id (stop last_seq) (done s) = (s, draining request_id last_seq)
  close_settled request_id key (done s) = (s, listening)

  unfoldable pub settled : StreamSession S → Receiving → StreamSession S × Receiving
  unfolding close_settled recover
  settled s (settling segment request_id key) =
      close_settled request_id key (close_open_audio s segment request_id key)
  settled s (cancelling request_id) = (emit (session_cancelled request_id) s, ended)
  settled s (failing code) = (emit (error code none) s, ended)
  settled s receiving = (s, receiving)

  -- The queue is empty, and the consumer is done with what it took.
  unfoldable pub stop_completed : StreamSession S → ℕ → Option ℕ → StreamSession S × Receiving
  stop_completed s request_id last_seq =
      (emit (session_stopped request_id last_seq s.failed_segments) s, ended)

  module _ (u : Unicode) where
    -- `except TimeoutError`: what still waits is reported.
    unfoldable pub report_pending : List ClosedSegment → StreamSession S → StreamSession S
    unfolding abandon_stable
    report_pending [] s = record s { pending = [] }
    report_pending (closed ∷ pending) s = report_pending pending (
        abandon_stable u
          (emit (segment_error closed.segment inference_timeout)
            (record s { failed_segments = s.failed_segments ++ closed.segment ∷ [] }))
          closed.segment)

    unfoldable pub stop_timed_out : StreamSession S → ℕ → Option ℕ → StreamSession S × Receiving
    unfolding report_pending stop_completed
    stop_timed_out s request_id last_seq =
        stop_completed (report_pending s.pending s) request_id last_seq
