-- ===== src/Stream/Frames/Refusal.antt =====
-- Why a frame of a session of api/stream.py (tea_asr/api/stream.py) is refused.
use tea_asr_service.Prelude.{
  ℕ, ◌+◌, ◌-◌, ◌*◌, ◌/◌, ◌%◌, ◌≤◌, ◌<◌, ◌≡◌, refl, sym, ap, ◌∙◌, ◌||◌, ◌==◌, drop, ◌⊎◌, inl, inr,
  Bool, true, false, Bool-cases, Option, none, some, List, [], ◌∷◌, ◌++◌, arith, leb, ltb,
  if◌then◌else◌, length,
}
use tea_asr_service.Segmenter
use tea_asr_service.Segmenter.{SegmenterEvent, SegmentClosed, ContinuousSegmenter}
use tea_asr_service.Segmenter.Machine.{push}
use tea_asr_service.Stream.{
  StreamSession, SessionConfig, Boundary, Outcome, done, raised, ◌>>=◌, ErrorCode, protocol_error,
  payload_too_large, session_limit, crashed, max_pending_segments, boundary_of,
}
use tea_asr_service.Stream.History.{remember_audio, history_for, history_end, trim_history}
use tea_asr_service.Stream.Segments.{open_segment, enqueue, reopen, close_segment}
use tea_asr_service.Stream.Preview.{settle_preview_soon}
use tea_asr_service.Stream.Frames.{
  on_event, on_events, pushed, extend_utterance, advance_with, advance_continuous, take_audio,
  frame_error, handle_frame, max_utterance_pcm_bytes, pcm_of, start_of,
}

module _ {S : Type 0} where
  -- A full queue, which the refused segment leaves as it is, is the only error of a segment's end.
  abbrev IsLimited : Outcome S → Type 0
  IsLimited (done s) = Unit
  IsLimited (raised e s) = (e ≡ session_limit) × (max_pending_segments ≤ length s.pending)

  >>=-IsLimited :
      (o : Outcome S) (f : StreamSession S → Outcome S)
      → IsLimited o
      → ((s : StreamSession S) → IsLimited (f s))
      → IsLimited (o >>= f)
  >>=-IsLimited (done s) f h k = k s
  >>=-IsLimited (raised e s) f h k = h

  IsLimited-if :
      (b : Bool) (s t : StreamSession S)
      → (b ≡ true → max_pending_segments ≤ length s.pending)
      → IsLimited (if b then raised session_limit s else done t)
  IsLimited-if true s t h = (refl, h refl)
  IsLimited-if false s t h = tt

  enqueue-IsLimited :
      (s : StreamSession S) (i : ℕ) (pcm : List ℕ) (end : ℕ) (b : Boundary)
      → IsLimited (enqueue s i pcm end b)
  unfolding enqueue
  enqueue-IsLimited s i pcm end b =
      IsLimited-if (leb max_pending_segments (length s.pending)) _ _ (λ e. ground (arith, e))

  close_segment-IsLimited :
      (s : StreamSession S) (o : Option ℕ) (c : SegmentClosed) → IsLimited (close_segment s o c)
  unfolding close_segment
  close_segment-IsLimited s (some i) c =
      >>=-IsLimited
        (enqueue (settle_preview_soon (record s { segment = none }) i) i c.pcm c.end_sample
          (boundary_of c.boundary))
        (λ q. done (reopen c.boundary c.end_sample q))
        (enqueue-IsLimited (settle_preview_soon (record s { segment = none }) i) i c.pcm
          c.end_sample (boundary_of c.boundary))
        (λ q. tt)
  close_segment-IsLimited s none c =
      let opened =
        settle_preview_soon (record (open_segment c.start_sample s) { segment = none })
          s.next_index in
      >>=-IsLimited (enqueue opened s.next_index c.pcm c.end_sample (boundary_of c.boundary))
        (λ q. done (reopen c.boundary c.end_sample q))
        (enqueue-IsLimited opened s.next_index c.pcm c.end_sample (boundary_of c.boundary))
        (λ q. tt)

  on_event-IsLimited : (s : StreamSession S) (event : SegmenterEvent) → IsLimited (on_event s event)
  unfolding on_event
  on_event-IsLimited s (Segmenter.speech_started a) = tt
  on_event-IsLimited s (Segmenter.segment_closed c) = close_segment-IsLimited s s.segment c

  on_events-IsLimited :
      (s : StreamSession S) (events : List SegmenterEvent) → IsLimited (on_events s events)
  unfolding on_events
  on_events-IsLimited s [] = tt
  on_events-IsLimited s (event ∷ events) =
      >>=-IsLimited (on_event s event) _ (on_event-IsLimited s event)
        (λ q. on_events-IsLimited q events)

  abbrev IsKept : StreamSession S → StreamSession S → Type 0
  IsKept s q = (q.config ≡ s.config) × (q.pcm ≡ s.pcm) × (q.segmenter ≡ s.segmenter)

  IsKept-if :
      (b : Bool) (s q r : StreamSession S) → IsKept s q → IsKept s r → IsKept s (if b then q else r)
  IsKept-if true s q r h k = h
  IsKept-if false s q r h k = k

  history_for-IsKept :
      (history : List ℕ) (start : ℕ) (s : StreamSession S) → IsKept s (history_for history start s)
  unfolding history_for
  history_for-IsKept [] start s = (refl, refl, refl)
  history_for-IsKept (b ∷ history) start s =
      IsKept-if (start == history_end s) s s
        (record s { audio_history = []; audio_history_start_sample = start }) (refl, refl, refl)
        (refl, refl, refl)

  trim_history-IsKept :
      (limit : ℕ) (s q : StreamSession S) → IsKept s q → IsKept s (trim_history limit q)
  unfolding trim_history
  trim_history-IsKept limit s q h =
      IsKept-if (ltb limit (length q.audio_history)) s
        (let excess = length q.audio_history - limit in
          record q {
            audio_history = drop (excess - excess % 2) q.audio_history;
            audio_history_start_sample = q.audio_history_start_sample + (excess - excess % 2) / 2;
          })
        q h h

  remember_audio-IsKept :
      (start : ℕ) (pcm : List ℕ) (s : StreamSession S) → IsKept s (remember_audio start pcm s)
  unfolding remember_audio
  remember_audio-IsKept start pcm s =
      let q = history_for s.audio_history start s in
      let grown = record q { audio_history = q.audio_history ++ pcm } in
      let limit = s.config.audio_history_max_samples * 2 in
      IsKept-if (leb s.config.audio_history_max_samples 0 || leb (length pcm) 0) s s
        (trim_history limit grown) (refl, refl, refl)
        (trim_history-IsKept limit s grown (history_for-IsKept s.audio_history start s))

  module _ (probability : List ℕ → S → ℕ × S) where
    -- An assertion fails: there is no segmenter, or one of its own fails on this audio.
    pub IsAsserted : StreamSession S → List ℕ → Type 0
    IsAsserted s pcm =
        (s.segmenter ≡ none)
        ⊎ ((segmenter : ContinuousSegmenter S) × (error : Segmenter.Error) × (s.segmenter
              ≡ some segmenter)
            × (push probability segmenter pcm ≡ Segmenter.raised error))

    -- The audio of a frame does not fit, which leaves the state `s'`: too long an utterance, no place
    -- for a segment that it ends, or an assertion that fails.
    pub data IsFull (s : StreamSession S) (pcm : List ℕ) (e : ErrorCode) (s' : StreamSession S)
        : Type 0 where
      too_long :
          s.config.continuous ≡ false
          → max_utterance_pcm_bytes < length s.pcm + length pcm
          → e ≡ payload_too_large
          → IsFull s pcm e s'
      no_place :
          s.config.continuous ≡ true
          → max_pending_segments ≤ length s'.pending
          → e ≡ session_limit
          → IsFull s pcm e s'
      asserted : s.config.continuous ≡ true → IsAsserted s pcm → e ≡ crashed → IsFull s pcm e s'

    abbrev Refuses : StreamSession S → List ℕ → Outcome S → Type 0
    Refuses s pcm (done s') = Unit
    Refuses s pcm (raised e s') = IsFull s pcm e s'

    IsLimited-Refuses :
        (s : StreamSession S) (pcm : List ℕ) (o : Outcome S)
        → s.config.continuous ≡ true
        → IsLimited o
        → Refuses s pcm o
    IsLimited-Refuses s pcm (done q) c h = tt
    IsLimited-Refuses s pcm (raised e q) c h = no_place c h.1 h.0

    pushed-Refuses :
        (s : StreamSession S) (pcm : List ℕ)
        (r : Segmenter.Result (ContinuousSegmenter S × List SegmenterEvent))
        → s.config.continuous ≡ true
        → ((error : Segmenter.Error) → r ≡ Segmenter.raised error → IsAsserted s pcm)
        → Refuses s pcm (pushed s r)
    unfolding pushed
    pushed-Refuses s pcm (Segmenter.ok (segmenter, events)) c h =
        IsLimited-Refuses s pcm _ c
          (on_events-IsLimited (record s { segmenter = some segmenter }) events)
    pushed-Refuses s pcm (Segmenter.raised e) c h = asserted c (h e refl) refl

    extend_utterance-Refuses :
        (s : StreamSession S) (start : ℕ) (pcm : List ℕ)
        → s.config.continuous ≡ false
        → Refuses s pcm (extend_utterance s start pcm)
    unfolding extend_utterance
    extend_utterance-Refuses s start pcm c =
        elim (Bool-cases (ltb max_utterance_pcm_bytes (length s.pcm + length pcm))) [
          | inl long ↦ rw long (too_long c (ground (arith, long)) refl)
          | inr fits ↦ rw fits tt
        ]

    IsAsserted-same :
        (s q : StreamSession S) (pcm : List ℕ)
        → q.segmenter ≡ s.segmenter
        → IsAsserted q pcm
        → IsAsserted s pcm
    unfolding IsAsserted
    IsAsserted-same s q pcm e (inl h) = inl (sym e ∙ h)
    IsAsserted-same s q pcm e (inr (segmenter, error, h, k)) = inr (segmenter, error, sym e ∙ h, k)

    IsFull-same :
        (s q : StreamSession S) (pcm : List ℕ) (o : Outcome S)
        → IsKept s q
        → Refuses q pcm o
        → Refuses s pcm o
    IsFull-same s q pcm (done r) k h = tt
    IsFull-same s q pcm (raised e r) (c, p, g) (too_long u l k) =
        too_long (ap (λ (x : SessionConfig). x.continuous) (sym c) ∙ u)
          (omega (arith, l, ap length p)) k
    IsFull-same s q pcm (raised e r) (c, p, g) (no_place u l k) =
        no_place (ap (λ (x : SessionConfig). x.continuous) (sym c) ∙ u) l k
    IsFull-same s q pcm (raised e r) (c, p, g) (asserted u a k) =
        asserted (ap (λ (x : SessionConfig). x.continuous) (sym c) ∙ u)
          (IsAsserted-same s q pcm g a) k

    Refuses-if :
        (b : Bool) (s : StreamSession S) (pcm : List ℕ) (x y : Outcome S)
        → (b ≡ true → Refuses s pcm x)
        → (b ≡ false → Refuses s pcm y)
        → Refuses s pcm (if b then x else y)
    Refuses-if true s pcm x y h k = h refl
    Refuses-if false s pcm x y h k = k refl

    advance_with-Refuses :
        (s : StreamSession S) (o : Option (ContinuousSegmenter S)) (pcm : List ℕ)
        → s.config.continuous ≡ true
        → s.segmenter ≡ o
        → Refuses s pcm (advance_with probability s o pcm)
    unfolding advance_with
    advance_with-Refuses s none pcm c g = unfold IsAsserted in asserted c (inl g) refl
    advance_with-Refuses s (some segmenter) pcm c g =
        pushed-Refuses s pcm (push probability segmenter pcm) c
          (λ error e. unfold IsAsserted in inr (segmenter, error, g, e))

    take_audio-Refuses :
        (s : StreamSession S) (start : ℕ) (pcm : List ℕ)
        → Refuses s pcm (take_audio probability s start pcm)
    unfolding take_audio advance_continuous
    take_audio-Refuses s start pcm =
        Refuses-if s.config.continuous s pcm (advance_with probability s s.segmenter pcm)
          (extend_utterance s start pcm) (λ c. advance_with-Refuses s s.segmenter pcm c refl)
          (extend_utterance-Refuses s start pcm)

    -- A frame is refused for its header, or because its audio does not fit.
    pub IsRefused : StreamSession S → List ℕ → ErrorCode → StreamSession S → Type 0
    IsRefused s frame e s' =
        ((frame_error probability s frame ≡ true) × (e ≡ protocol_error))
        ⊎ IsFull s (pcm_of frame) e s'

    abbrev pub RefusesFrame : StreamSession S → List ℕ → Outcome S → Type 0
    RefusesFrame s frame (done s') = Unit
    RefusesFrame s frame (raised e s') = IsRefused s frame e s'

    Refuses-then :
        (s : StreamSession S) (frame : List ℕ) (o : Outcome S)
        (f : StreamSession S → StreamSession S)
        → Refuses s (pcm_of frame) o
        → RefusesFrame s frame (do s' ← o; done (f s'))
    unfolding IsRefused
    Refuses-then s frame (done q) f h = tt
    Refuses-then s frame (raised e q) f h = inr h

    pub handle_frame-RefusesFrame :
        (s : StreamSession S) (now : ℕ) (frame : List ℕ)
        → RefusesFrame s frame (handle_frame probability s now frame)
    unfolding handle_frame IsRefused
    handle_frame-RefusesFrame s now frame =
        let start = start_of frame in
        let pcm = pcm_of frame in
        let q = remember_audio start pcm s in
        let same = remember_audio-IsKept start pcm s in
        elim (Bool-cases (frame_error probability s frame)) [
          | inl wrong ↦ rw wrong (inl (wrong, refl))
          | inr ok' ↦ rw ok' (
              Refuses-then s frame (take_audio probability q start pcm) _ (
                IsFull-same s q pcm (take_audio probability q start pcm) same
                  (take_audio-Refuses q start pcm)))
        ]
