-- ===== src/Stream/Machine/Ledger/Settling.antt =====
-- `_close_open_audio` of api/stream.py (tea_asr/api/stream.py), and what awaits a preview, in the books of
-- a segment.
use tea_asr_service.Prelude.{
  ℕ, ◌<◌, ◌≡◌, refl, sym, ap, ◌∙◌, Bool, true, false, Option, none, some, List, [], ◌∷◌, ◌++◌,
  arith,
}
use tea_asr_service.Segmenter
use tea_asr_service.Segmenter.{SegmenterEvent, ContinuousSegmenter}
use tea_asr_service.Stream.{
  StreamSession, Boundary, ControlKey, commit, ping, stop, start, Outcome, done, raised,
  audio_committed,
}
use tea_asr_service.Stream.Segments.{open_segment}
use tea_asr_service.Stream.Closing.{
  active_of, boundary_for, ensure_open, flushed, report_none, close_continuous, close_utterance,
  flush_of, close_open_audio,
}
use tea_asr_service.Stream.Control
use tea_asr_service.Stream.Control.{
  Receiving, listening, settling, draining, cancelling, failing, give_up, mark_terminal, recover,
  remember, begin_close, on_ping, on_commit, on_stop, dedup, fresh, repeated, conflicting, Dedup,
  last_seq_of, same_option, handle_control, close_settled, settled, stop_completed, report_pending,
  stop_timed_out,
}
use tea_asr_service.Stream.Machine.Ledger.{queued, IsSame-emit, IsSame-of}
use tea_asr_service.Stream.Machine.Ledger.Closes.{
  HasBooks, HasBooks-IsSame, Settles, open_segment-HasBooks, enqueue-Settles, unset-HasBooks,
}
use tea_asr_service.Stream.Machine.Ledger.Handling.{Settles-if}
use tea_asr_service.Stream.Machine.Ledger.Control.{Agrees, Receives, raised-Receives}

module _ {S : Type 0} (i : ℕ) where
  ensure_open-HasBooks :
      (a : ℕ) (o : Option ℕ) (s : StreamSession S) {h : ℕ}
      → HasBooks i h 0 s
      → HasBooks i h 0 (record (ensure_open a o s) { segment = none })
  unfolding ensure_open
  ensure_open-HasBooks a none s b = unset-HasBooks i _ (open_segment-HasBooks i s a b)
  ensure_open-HasBooks a (some j) s b = unset-HasBooks i s b

  -- The segment that a flush closes
  active_books :
      (a : ℕ) (o : Option ℕ) (s : StreamSession S) {h : ℕ}
      → s.segment ≡ o
      → HasBooks i h 0 s
      → i ≡ active_of o s.next_index
      → (i < (ensure_open a o s).next_index) × (queued i (ensure_open a o s) ≡ 0)
  unfolding ensure_open open_segment
  active_books a none s e b m = (omega (arith, m), b.future (omega (arith, m)))
  active_books a (some j) s e b m =
      let o : s.segment ≡ some i = e ∙ ap some (sym m) in ((b.opened o).1, (b.opened o).0)

  abbrev Flushes : ℕ → Outcome S × Bool → Type 0
  Flushes h (outcome, closed_any) = Settles i h outcome

  flushed_next :
      (h : ℕ) (m : Outcome S) (events : List SegmenterEvent)
      → Settles i h m
      → ((s : StreamSession S) → HasBooks i h 0 s → Flushes h (flushed s events true))
      → Flushes h (elim m [ done q ↦ flushed q events true | raised e q ↦ (raised e q, true) ])
  flushed_next h (done q) events b k = k q b
  flushed_next h (raised e q) events b k = b

  flushed-Flushes :
      (s : StreamSession S) (events : List SegmenterEvent) (closed_any : Bool) {h : ℕ}
      → HasBooks i h 0 s
      → Flushes h (flushed s events closed_any)
  unfolding flushed
  flushed-Flushes s [] closed_any b = b
  flushed-Flushes s (Segmenter.speech_started a ∷ events) closed_any b =
      flushed-Flushes s events closed_any b
  flushed-Flushes s (Segmenter.segment_closed c ∷ events) closed_any {h} b =
      let s' = record (ensure_open c.start_sample s.segment s) { segment = none } in
      flushed_next h _ events
        (enqueue-Settles i s' (active_of s.segment s.next_index) c.pcm c.end_sample Boundary.stop
          (ensure_open-HasBooks c.start_sample s.segment s b) refl
          (λ m. (active_books c.start_sample s.segment s refl b m).0)
          (λ m. (active_books c.start_sample s.segment s refl b m).1))
        (λ q k. flushed-Flushes q events true k)

  report_none-Settles :
      (h request_id : ℕ) (key : ControlKey) (r : Outcome S × Bool)
      → Flushes h r
      → Settles i h (report_none request_id key r)
  unfolding report_none
  report_none-Settles h request_id (stop last) (done s, false) b =
      HasBooks-IsSame i b (IsSame-emit i s _ refl refl refl)
  report_none-Settles h request_id (stop last) (done s, true) b = b
  report_none-Settles h request_id (stop last) (raised e s, closed_any) b = b
  report_none-Settles h request_id (commit n) r b = b
  report_none-Settles h request_id ping r b = b
  report_none-Settles h request_id start r b = b

  close_continuous-Settles :
      (s : StreamSession S) (request_id : ℕ) (key : ControlKey)
      (r : Segmenter.Result (ContinuousSegmenter S × List SegmenterEvent)) {h : ℕ}
      → HasBooks i h 0 s
      → Settles i h (close_continuous s request_id key r)
  unfolding close_continuous
  close_continuous-Settles s request_id key (Segmenter.raised e) b = (b, cc, cc)
  close_continuous-Settles s request_id key (Segmenter.ok (segmenter, events)) {h} b =
      report_none-Settles h request_id key _ (
        flushed-Flushes _ events false (
          HasBooks-IsSame i b
            (IsSame-of i s (record s { segmenter = some segmenter }) refl refl refl refl refl)))

  close_utterance-Settles :
      (s : StreamSession S) (o : Option ℕ) (pcm : List ℕ) (request_id : ℕ) (key : ControlKey)
      {h : ℕ}
      → s.segment ≡ o
      → HasBooks i h 0 s
      → Settles i h (close_utterance s o pcm request_id key)
  unfolding close_utterance
  close_utterance-Settles s none pcm request_id key e b =
      HasBooks-IsSame i b (IsSame-emit i s _ refl refl refl)
  close_utterance-Settles s (some j) [] request_id key e b =
      HasBooks-IsSame i b (IsSame-emit i s _ refl refl refl)
  close_utterance-Settles s (some j) (x ∷ pcm) request_id key {h} e b =
      let event = audio_committed request_id (some j) in
      let told = IsSame-emit i s event refl refl refl in
      let s' = record s { sent = s.sent ++ event ∷ [] } in
      let b' = HasBooks-IsSame i b told in
      enqueue-Settles i (record s' { pcm = []; segment = none }) j (x ∷ pcm) s.next_sample
        (boundary_for key)
        (HasBooks-IsSame i (unset-HasBooks i s' b') (
          IsSame-of i (record s' { segment = none }) (record s' { pcm = []; segment = none }) refl
            refl refl refl refl))
        refl (λ m. (b'.opened (e ∙ ap some (sym m))).1) (λ m. (b'.opened (e ∙ ap some (sym m))).0)

  close_open_audio-Settles :
      (s : StreamSession S) (o : Option ℕ) (request_id : ℕ) (key : ControlKey) {h : ℕ}
      → s.segment ≡ o
      → HasBooks i h 0 s
      → Settles i h (close_open_audio s o request_id key)
  unfolding close_open_audio
  close_open_audio-Settles s o request_id key {h} e b =
      Settles-if i s.config.continuous h _ _
        (close_continuous-Settles s request_id key (flush_of s.segmenter) b)
        (close_utterance-Settles s o s.pcm request_id key e b)

  close_settled-Receives :
      (h request_id : ℕ) (key : ControlKey) (o : Outcome S)
      → Settles i h o
      → Receives i h (close_settled request_id key o)
  unfolding close_settled
  close_settled-Receives h r key (raised code s) b = raised-Receives i s r code b.0 b.1 b.2
  close_settled-Receives h r (stop last_seq) (done s) b = (b, tt)
  close_settled-Receives h r (commit n) (done s) b = (b, tt)
  close_settled-Receives h r ping (done s) b = (b, tt)
  close_settled-Receives h r start (done s) b = (b, tt)

  -- The preview that was awaited is gone.
  pub settled-Receives :
      (s : StreamSession S) (receiving : Receiving) {h : ℕ}
      → HasBooks i h 0 s
      → Agrees i s receiving
      → Receives i h (settled s receiving)
  unfolding settled
  settled-Receives s (settling o request_id key) {h} b e =
      close_settled-Receives h request_id key _ (close_open_audio-Settles s o request_id key e b)
  settled-Receives s (cancelling request_id) b e =
      (HasBooks-IsSame i b (IsSame-emit i s _ refl refl refl), tt)
  settled-Receives s (failing code) b e =
      (HasBooks-IsSame i b (IsSame-emit i s _ refl refl refl), tt)
  settled-Receives s listening b e = (b, e)
  settled-Receives s (draining request_id last_seq) b e = (b, e)
  settled-Receives s Control.ended b e = (b, e)
