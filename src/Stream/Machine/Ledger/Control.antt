-- ===== src/Stream/Machine/Ledger/Control.antt =====
-- The control messages of api/stream.py (tea_asr/api/stream.py) in the books of a segment, up to where
-- they wait.
use tea_asr_service.Prelude.{ℕ, ◌≡◌, ◌≢◌, refl, true, Option, none, some, [], ◌∷◌, ◌++◌, arith}
use tea_asr_service.Stream.{StreamSession, ControlKey, Outcome, done, raised, ErrorCode, error}
use tea_asr_service.Stream.Closing.{close_begin}
use tea_asr_service.Stream.Control.{
  Receiving, settling, give_up, mark_terminal, recover, remember, begin_close,
}
use tea_asr_service.Stream.Machine.{after_frame}
use tea_asr_service.Stream.Machine.Ledger.{
  queues, ends, overflows, tally-append, IsSame, IsSame-refl, IsSame-trans, IsSame-emit, IsSame-of,
}
use tea_asr_service.Stream.Machine.Ledger.Previews.{
  modify-IsSame, settle_preview-IsSame, settle_preview_soon-IsSame,
}
use tea_asr_service.Stream.Machine.Ledger.Closes.{
  HasBooks, HasBooks-IsSame, slack_of, Settles, with_slack,
}

module _ {S : Type 0} (i : ℕ) where
  -- While the loop awaits the preview, the segment that it has read is the open one.
  abbrev pub Agrees : StreamSession S → Receiving → Type 0
  Agrees s (settling segment request_id key) = s.segment ≡ segment
  Agrees s _ = Unit

  -- What a turn of the receive loop leaves
  abbrev pub Receives : ℕ → StreamSession S × Receiving → Type 0
  Receives h (s, receiving) = HasBooks i h 0 s × Agrees s receiving

  pub mark_terminal-IsSame : (o : Option ℕ) (s : StreamSession S) → IsSame i s (mark_terminal o s)
  unfolding mark_terminal
  mark_terminal-IsSame none s = IsSame-refl i s
  mark_terminal-IsSame (some j) s = modify-IsSame i s j _

  -- A session that gives up is cancelled, and owes nothing more.
  pub give_up-HasBooks :
      (s : StreamSession S) {h slack : ℕ} → HasBooks i h slack s → HasBooks i h 0 (give_up s)
  unfolding give_up
  give_up-HasBooks s b =
      let s' = record s { cancelled = true } in
      let b' : HasBooks i _ 0 s' = record {
        opened = b.opened;
        future = b.future;
        once = b.once;
        bounded = b.bounded;
        kept = omega (arith, b.once);
      } in
      HasBooks-IsSame i b'
        (IsSame-trans i (mark_terminal-IsSame s.segment s') (settle_preview-IsSame i _))

  pub after_frame-Receives : (o : Outcome S) {h : ℕ} → Settles i h o → Receives h (after_frame o)
  unfolding after_frame
  after_frame-Receives (done s) b = (b, tt)
  after_frame-Receives (raised ErrorCode.crashed s) b = (b.0, tt)
  after_frame-Receives (raised ErrorCode.protocol_error s) b = (give_up-HasBooks s b.0, tt)
  after_frame-Receives (raised ErrorCode.payload_too_large s) b = (give_up-HasBooks s b.0, tt)
  after_frame-Receives (raised ErrorCode.unsupported_option s) b = (give_up-HasBooks s b.0, tt)
  after_frame-Receives (raised ErrorCode.model_unavailable s) b = (give_up-HasBooks s b.0, tt)
  after_frame-Receives (raised ErrorCode.inference_failed s) b = (give_up-HasBooks s b.0, tt)
  after_frame-Receives (raised ErrorCode.inference_timeout s) b = (give_up-HasBooks s b.0, tt)
  after_frame-Receives (raised ErrorCode.internal_error s) b = (give_up-HasBooks s b.0, tt)
  after_frame-Receives (raised ErrorCode.conflict s) b = (give_up-HasBooks s b.0, tt)
  after_frame-Receives (raised ErrorCode.queue_full s) b = (give_up-HasBooks s b.0, tt)
  after_frame-Receives (raised ErrorCode.session_limit s) b = (give_up-HasBooks s b.0, tt)

  pub reported :
      (s : StreamSession S) (code : ErrorCode) (request_id : ℕ) {h : ℕ}
      → HasBooks i h 0 s
      → overflows (error code (some request_id)) ≡ 0
      → HasBooks i h 0 (record s { sent = s.sent ++ error code (some request_id) ∷ [] })
  reported s code request_id b o = HasBooks-IsSame i b (IsSame-emit i s _ refl refl o)

  -- The report of a full queue accounts for the segment that it lost.
  reported_full :
      (s : StreamSession S) (request_id : ℕ) {h : ℕ}
      → HasBooks i h 1 s
      → HasBooks i h 0
          (record s { sent = s.sent ++ error ErrorCode.session_limit (some request_id) ∷ [] })
  reported_full s request_id b =
      let e = error ErrorCode.session_limit (some request_id) in
      let q = tally-append (queues i) s.sent e in
      let d = tally-append (ends i) s.sent e in
      let o = tally-append overflows s.sent e in
      record {
        opened = λ open'. (omega (arith, q, (b.opened open').0), (b.opened open').1);
        future = λ le. omega (arith, q, b.future le);
        once = omega (arith, q, b.once);
        bounded = omega (arith, q, d, b.bounded);
        kept = omega (arith, q, d, o, b.kept);
      }

  pub recover-Receives :
      (s : StreamSession S) (request_id : ℕ) (code : ErrorCode) {h : ℕ}
      → HasBooks i h 0 s
      → Receives h (recover s request_id code)
  unfolding recover
  recover-Receives s r ErrorCode.conflict b = (reported s ErrorCode.conflict r b refl, tt)
  recover-Receives s r ErrorCode.queue_full b = (reported s ErrorCode.queue_full r b refl, tt)
  recover-Receives s r ErrorCode.session_limit b = (reported_full s r (with_slack i b), tt)
  recover-Receives s r ErrorCode.protocol_error b = (give_up-HasBooks s b, tt)
  recover-Receives s r ErrorCode.payload_too_large b = (give_up-HasBooks s b, tt)
  recover-Receives s r ErrorCode.unsupported_option b = (give_up-HasBooks s b, tt)
  recover-Receives s r ErrorCode.model_unavailable b = (give_up-HasBooks s b, tt)
  recover-Receives s r ErrorCode.inference_failed b = (give_up-HasBooks s b, tt)
  recover-Receives s r ErrorCode.inference_timeout b = (give_up-HasBooks s b, tt)
  recover-Receives s r ErrorCode.internal_error b = (give_up-HasBooks s b, tt)
  recover-Receives s r ErrorCode.crashed b = (b, tt)

  pub raised-Receives :
      (s : StreamSession S) (request_id : ℕ) (code : ErrorCode) {h : ℕ}
      → HasBooks i h (slack_of code) s
      → code ≢ ErrorCode.conflict
      → code ≢ ErrorCode.queue_full
      → Receives h (recover s request_id code)
  unfolding recover
  raised-Receives s r ErrorCode.conflict b c q = absurd (c refl)
  raised-Receives s r ErrorCode.queue_full b c q = absurd (q refl)
  raised-Receives s r ErrorCode.session_limit b c q = (reported_full s r b, tt)
  raised-Receives s r ErrorCode.protocol_error b c q = (give_up-HasBooks s b, tt)
  raised-Receives s r ErrorCode.payload_too_large b c q = (give_up-HasBooks s b, tt)
  raised-Receives s r ErrorCode.unsupported_option b c q = (give_up-HasBooks s b, tt)
  raised-Receives s r ErrorCode.model_unavailable b c q = (give_up-HasBooks s b, tt)
  raised-Receives s r ErrorCode.inference_failed b c q = (give_up-HasBooks s b, tt)
  raised-Receives s r ErrorCode.inference_timeout b c q = (give_up-HasBooks s b, tt)
  raised-Receives s r ErrorCode.internal_error b c q = (give_up-HasBooks s b, tt)
  raised-Receives s r ErrorCode.crashed b c q = (b, tt)

  close_begin-IsSame : (s : StreamSession S) (o : Option ℕ) → IsSame i s (close_begin s o)
  unfolding close_begin
  close_begin-IsSame s none = settle_preview-IsSame i s
  close_begin-IsSame s (some j) =
      IsSame-trans i (settle_preview_soon-IsSame i s j) (settle_preview-IsSame i _)

  pub begin_close-Receives :
      (s : StreamSession S) (request_id : ℕ) (key : ControlKey) {h : ℕ}
      → HasBooks i h 0 s
      → Receives h (begin_close s request_id key)
  unfolding begin_close
  begin_close-Receives s request_id key b =
      let e = close_begin-IsSame s s.segment in (HasBooks-IsSame i b e, e.segment_same)

  pub remember-IsSame :
      (request_id : ℕ) (key : ControlKey) (s : StreamSession S)
      → IsSame i s (remember request_id key s)
  unfolding remember
  remember-IsSame request_id key s = IsSame-of i s _ refl refl refl refl refl
