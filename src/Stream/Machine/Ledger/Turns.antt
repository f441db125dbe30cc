-- ===== src/Stream/Machine/Ledger/Turns.antt =====
-- The turns of a session of api/stream.py (tea_asr/api/stream.py) in the books of a segment.
use tea_asr_service.Prelude.{ℕ, ◌≡◌, refl, ◌∙◌, Bool, Option, none, some, List, [], ◌∷◌}
use tea_asr_service.Stream.{StreamSession, ClosedSegment, PreviewTask}
use tea_asr_service.Stream.Text.{Tables}
use tea_asr_service.Stream.Control
use tea_asr_service.Stream.Control.{
  Receiving, listening, settling, draining, cancelling, failing, ended,
}
use tea_asr_service.Stream.Consumer
use tea_asr_service.Stream.Consumer.{Answer, ConsumerPhase, idle}
use tea_asr_service.Stream.Frames.{handle_frame}
use tea_asr_service.Stream.Machine
use tea_asr_service.Stream.Machine.{
  PreviewAnswer, decoded, refused, dropped, broken, Turn, frame, control, preview_gone,
  queue_joined, drain_timeout, consumer_ready, worker_answers, text_restored, preview_answers,
  preview_text_restored, timer_fires, Running, on_control, on_preview_gone, on_joined, on_ready,
  on_drain_timeout, on_answer, on_text, on_preview, on_preview_answer, on_preview_phase,
  on_preview_text, on_frame, turn, turns,
}
use tea_asr_service.Stream.Machine.Ledger.{holds, IsSame}
use tea_asr_service.Stream.Machine.Ledger.Serving.{IsServed, take_next-IsServed}
use tea_asr_service.Stream.Machine.Ledger.Consumption.{
  on_decoded-Serves, on_retried-Serves, on_restored-Serves,
}
use tea_asr_service.Stream.Machine.Ledger.Closes.{HasBooks, HasBooks-IsSame, HasBooks-IsServed}
use tea_asr_service.Stream.Machine.Ledger.Handling.{handle_frame-Settles}
use tea_asr_service.Stream.Machine.Ledger.Control.{Agrees, Receives, after_frame-Receives}
use tea_asr_service.Stream.Machine.Ledger.Settling.{settled-Receives}
use tea_asr_service.Stream.Machine.Ledger.Messages.{
  handle_control-Receives, stop_completed-Receives, stop_timed_out-Receives,
}
use tea_asr_service.Stream.Machine.Ledger.Answers.{
  on_timer-IsSame, on_preview_answer-IsSame, on_preview_text-IsSame,
}

-- The books of the segment `i`, and the agreement of the receive loop with the session
pub record IsAccounted {S : Type 0} (i : ℕ) (r : Running S) : Type 0 where
  pub books : HasBooks i (holds i r.consumer) 0 r.session
  pub agrees : Agrees i r.session r.receiving

module _ {S : Type 0} (i : ℕ) where
  Agrees-same :
      (s s' : StreamSession S) (receiving : Receiving)
      → s'.segment ≡ s.segment
      → Agrees i s receiving
      → Agrees i s' receiving
  Agrees-same s s' (settling o request_id key) e a = e ∙ a
  Agrees-same s s' listening e a = tt
  Agrees-same s s' (draining request_id last) e a = tt
  Agrees-same s s' (cancelling request_id) e a = tt
  Agrees-same s s' (failing code) e a = tt
  Agrees-same s s' ended e a = tt

  received-IsAccounted :
      (r : Running S) (x : StreamSession S × Receiving)
      → Receives i (holds i r.consumer) x
      → IsAccounted i (Machine.received r x)
  received-IsAccounted r (s, receiving) k = record { books = k.0; agrees = k.1 }

  consumed-IsAccounted :
      (r : Running S) (x : StreamSession S × ConsumerPhase)
      → IsAccounted i r
      → IsServed i r.session (holds i r.consumer) x.0 (holds i x.1)
      → IsAccounted i (Machine.consumed r x)
  consumed-IsAccounted r (s, consumer) a k = record {
    books = HasBooks-IsServed i a.books k;
    agrees = Agrees-same r.session s r.receiving k.segment_same a.agrees;
  }

  previewed-IsAccounted :
      (r : Running S) (s : StreamSession S)
      → IsAccounted i r
      → IsSame i r.session s
      → IsAccounted i (Machine.previewed r s)
  previewed-IsAccounted r s a k = record {
    books = HasBooks-IsSame i a.books k;
    agrees = Agrees-same r.session s r.receiving k.segment_same a.agrees;
  }

  on_control-IsAccounted :
      (r : Running S) (message : Control.Control) (receiving : Receiving)
      → IsAccounted i r
      → IsAccounted i (on_control r message receiving)
  unfolding on_control
  on_control-IsAccounted r message listening a =
      received-IsAccounted r _ (handle_control-Receives i r.session message a.books)
  on_control-IsAccounted r message (settling o request_id key) a = a
  on_control-IsAccounted r message (draining request_id last) a = a
  on_control-IsAccounted r message (cancelling request_id) a = a
  on_control-IsAccounted r message (failing code) a = a
  on_control-IsAccounted r message ended a = a

  on_preview_gone-IsAccounted :
      (r : Running S) (task : Option PreviewTask)
      → IsAccounted i r
      → IsAccounted i (on_preview_gone r task)
  unfolding on_preview_gone
  on_preview_gone-IsAccounted r none a =
      received-IsAccounted r _ (settled-Receives i r.session r.receiving a.books a.agrees)
  on_preview_gone-IsAccounted r (some task) a = a

  on_joined-IsAccounted :
      (r : Running S) (receiving : Receiving) (pending : List ClosedSegment)
      (consumer : ConsumerPhase)
      → IsAccounted i r
      → IsAccounted i (on_joined r receiving pending consumer)
  unfolding on_joined
  on_joined-IsAccounted r (draining request_id last) [] idle a =
      received-IsAccounted r _ (stop_completed-Receives i r.session request_id last a.books)
  on_joined-IsAccounted r (draining request_id last) [] (Consumer.decoding closed pcm carried) a = a
  on_joined-IsAccounted r (draining request_id last) [] (Consumer.retrying closed) a = a
  on_joined-IsAccounted r (draining request_id last) [] (Consumer.restoring c raw text ws) a = a
  on_joined-IsAccounted r (draining request_id last) (closed ∷ pending) consumer a = a
  on_joined-IsAccounted r listening pending consumer a = a
  on_joined-IsAccounted r (settling o request_id key) pending consumer a = a
  on_joined-IsAccounted r (cancelling request_id) pending consumer a = a
  on_joined-IsAccounted r (failing code) pending consumer a = a
  on_joined-IsAccounted r ended pending consumer a = a

  on_ready-IsAccounted :
      (r : Running S) (consumer : ConsumerPhase)
      → r.consumer ≡ consumer
      → IsAccounted i r
      → IsAccounted i (on_ready r consumer)
  unfolding on_ready
  on_ready-IsAccounted r idle e a =
      consumed-IsAccounted r _ a (rw e (take_next-IsServed i r.session))
  on_ready-IsAccounted r (Consumer.decoding closed pcm carried) e a = a
  on_ready-IsAccounted r (Consumer.retrying closed) e a = a
  on_ready-IsAccounted r (Consumer.restoring closed raw text warnings) e a = a

  module _ (t : Tables) where
    on_drain_timeout-IsAccounted :
        (r : Running S) (receiving : Receiving)
        → IsAccounted i r
        → IsAccounted i (on_drain_timeout t r receiving)
    unfolding on_drain_timeout
    on_drain_timeout-IsAccounted r (draining request_id last) a =
        received-IsAccounted r _
          (stop_timed_out-Receives i t.unicode r.session request_id last a.books)
    on_drain_timeout-IsAccounted r listening a = a
    on_drain_timeout-IsAccounted r (settling o request_id key) a = a
    on_drain_timeout-IsAccounted r (cancelling request_id) a = a
    on_drain_timeout-IsAccounted r (failing code) a = a
    on_drain_timeout-IsAccounted r ended a = a

    on_answer-IsAccounted :
        (r : Running S) (answer : Answer) (consumer : ConsumerPhase)
        → r.consumer ≡ consumer
        → IsAccounted i r
        → IsAccounted i (on_answer t r answer consumer)
    unfolding on_answer
    on_answer-IsAccounted r answer (Consumer.decoding closed pcm carried) e a =
        consumed-IsAccounted r _ a (rw e (on_decoded-Serves i t r.session closed carried answer))
    on_answer-IsAccounted r answer (Consumer.retrying closed) e a =
        consumed-IsAccounted r _ a (rw e (on_retried-Serves i t r.session closed answer))
    on_answer-IsAccounted r answer (Consumer.restoring closed raw text warnings) e a = a
    on_answer-IsAccounted r answer idle e a = a

    on_text-IsAccounted :
        (r : Running S) (text : List ℕ) (changed : Bool) (consumer : ConsumerPhase)
        → r.consumer ≡ consumer
        → IsAccounted i r
        → IsAccounted i (on_text t r text changed consumer)
    unfolding on_text
    on_text-IsAccounted r text changed (Consumer.restoring closed raw old warnings) e a =
        consumed-IsAccounted r _ a
          (rw e (on_restored-Serves i t r.session closed raw warnings text changed))
    on_text-IsAccounted r text changed (Consumer.decoding closed pcm carried) e a = a
    on_text-IsAccounted r text changed (Consumer.retrying closed) e a = a
    on_text-IsAccounted r text changed idle e a = a

    module _ (probability : List ℕ → S → ℕ × S) where
      on_frame-IsAccounted :
          (r : Running S) (now : ℕ) (bytes : List ℕ) (receiving : Receiving)
          → IsAccounted i r
          → IsAccounted i (on_frame t probability r now bytes receiving)
      unfolding on_frame
      on_frame-IsAccounted r now bytes listening a = received-IsAccounted r _ (
          after_frame-Receives i (handle_frame probability r.session now bytes)
            (handle_frame-Settles i probability r.session now bytes a.books))
      on_frame-IsAccounted r now bytes (settling o request_id key) a = a
      on_frame-IsAccounted r now bytes (draining request_id last) a = a
      on_frame-IsAccounted r now bytes (cancelling request_id) a = a
      on_frame-IsAccounted r now bytes (failing code) a = a
      on_frame-IsAccounted r now bytes ended a = a

      pub turn-IsAccounted :
          (r : Running S) (next : Turn)
          → IsAccounted i r
          → IsAccounted i (turn t probability r next)
      unfolding turn
      turn-IsAccounted r (frame now bytes) a = on_frame-IsAccounted r now bytes r.receiving a
      turn-IsAccounted r (control message) a = on_control-IsAccounted r message r.receiving a
      turn-IsAccounted r preview_gone a = on_preview_gone-IsAccounted r r.session.preview.task a
      turn-IsAccounted r queue_joined a =
          on_joined-IsAccounted r r.receiving r.session.pending r.consumer a
      turn-IsAccounted r drain_timeout a = on_drain_timeout-IsAccounted r r.receiving a
      turn-IsAccounted r consumer_ready a = on_ready-IsAccounted r r.consumer refl a
      turn-IsAccounted r (worker_answers answer) a =
          on_answer-IsAccounted r answer r.consumer refl a
      turn-IsAccounted r (text_restored text changed) a =
          on_text-IsAccounted r text changed r.consumer refl a
      turn-IsAccounted r (preview_answers now answer) a =
          previewed-IsAccounted r _ a
            (on_preview_answer-IsSame i t r.session now r.session.preview.task answer)
      turn-IsAccounted r (preview_text_restored now text changed) a =
          previewed-IsAccounted r _ a
            (on_preview_text-IsSame i t r.session now r.session.preview.task text changed)
      turn-IsAccounted r (timer_fires now) a =
          previewed-IsAccounted r _ a (on_timer-IsSame i r.session now r.session.preview.timer)

      pub turns-IsAccounted :
          (r : Running S) (schedule : List Turn)
          → IsAccounted i r
          → IsAccounted i (turns t probability r schedule)
      unfolding turns
      turns-IsAccounted r [] a = a
      turns-IsAccounted r (next ∷ schedule) a =
          turns-IsAccounted (turn t probability r next) schedule (turn-IsAccounted r next a)
