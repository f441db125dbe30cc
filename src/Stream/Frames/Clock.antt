-- ===== src/Stream/Frames/Clock.antt =====
-- The sample clock and the flow-control window of api/stream.py (tea_asr/api/stream.py).
use tea_asr_service.Prelude.{
  ℕ, ◌+◌, ◌*◌, ◌≤◌, ◌<◌, ◌≡◌, refl, ◌∙◌, ◌⊎◌, inl, inr, Bool, true, false, not, Bool-cases, ◌||◌,
  Option, none, some, List, [], ◌∷◌, ◌++◌, arith, leb, ltb, if◌then◌else◌, length,
}
use tea_asr_service.Segmenter
use tea_asr_service.Segmenter.{SegmenterEvent, SegmentClosed, ContinuousSegmenter}
use tea_asr_service.Stream.{
  StreamSession, PreviewTask, Boundary, boundary_of, Outcome, done, raised, ◌>>=◌,
  max_pending_segments,
}
use tea_asr_service.Stream.Preview.{
  schedule_preview, preview_of, current_preview_audio, maybe_schedule_preview, settle_preview_soon,
}
use tea_asr_service.Stream.History.{remember_audio, history_for, trim_history}
use tea_asr_service.Stream.Segments.{open_segment, enqueue, reopen, close_segment}
use tea_asr_service.Stream.Frames.{
  on_event, on_events, pushed, refill, ensure_segment, extend_utterance, max_utterance_pcm_bytes,
  max_safe_int, flow_window_low_water_samples,
}

pub record KeepsClock {S : Type 0} (s s' : StreamSession S) : Type 0 where
  pub seq_kept : s'.next_seq ≡ s.next_seq
  pub sample_kept : s'.next_sample ≡ s.next_sample
  pub window_kept : s'.send_until_sample ≡ s.send_until_sample

-- The window is not overrun, and more of it is left than the low-water mark, up to the largest number
-- that the protocol has.
pub record IsFlowing {S : Type 0} (s : StreamSession S) : Type 0 where
  pub within : s.next_sample ≤ s.send_until_sample
  pub safe : s.send_until_sample ≤ max_safe_int
  pub wide :
      (s.send_until_sample ≡ max_safe_int)
      ⊎ (s.next_sample + flow_window_low_water_samples < s.send_until_sample)

module _ {S : Type 0} where
  KeepsClock-refl : (s : StreamSession S) → KeepsClock s s
  KeepsClock-refl s = record { seq_kept = refl; sample_kept = refl; window_kept = refl }

  pub KeepsClock-trans :
      {s t u : StreamSession S} → KeepsClock s t → KeepsClock t u → KeepsClock s u
  KeepsClock-trans a b = record {
    seq_kept = b.seq_kept ∙ a.seq_kept;
    sample_kept = b.sample_kept ∙ a.sample_kept;
    window_kept = b.window_kept ∙ a.window_kept;
  }

  abbrev pub Keeps : StreamSession S → Outcome S → Type 0
  Keeps s (done s') = KeepsClock s s'
  Keeps s (raised e s') = Unit

  pub Keeps-after : {s q : StreamSession S} (o : Outcome S) → KeepsClock s q → Keeps q o → Keeps s o
  Keeps-after (done r) a b = KeepsClock-trans a b
  Keeps-after (raised e r) a b = tt

  Keeps->>= :
      (s : StreamSession S) (m : Outcome S) (f : StreamSession S → Outcome S)
      → Keeps s m
      → ((q : StreamSession S) → Keeps q (f q))
      → Keeps s (m >>= f)
  Keeps->>= s (done q) f a k = Keeps-after (f q) a (k q)
  Keeps->>= s (raised e q) f a k = tt

  -- Any change of the other fields
  pub same_clock :
      (s s' : StreamSession S)
      → s'.next_seq ≡ s.next_seq
      → s'.next_sample ≡ s.next_sample
      → s'.send_until_sample ≡ s.send_until_sample
      → KeepsClock s s'
  same_clock s s' a b c = record { seq_kept = a; sample_kept = b; window_kept = c }

  enqueue-Keeps :
      (s : StreamSession S) (j : ℕ) (pcm : List ℕ) (end_sample : ℕ) (boundary : Boundary)
      → Keeps s (enqueue s j pcm end_sample boundary)
  unfolding enqueue
  enqueue-Keeps s j pcm end_sample boundary =
      elim (Bool-cases (leb max_pending_segments (length s.pending))) [
        | inl full ↦ rw full tt
        | inr room ↦ rw room (record { seq_kept = refl; sample_kept = refl; window_kept = refl })
      ]

  reopen-KeepsClock :
      (s : StreamSession S) (boundary : Segmenter.Boundary) (end_sample : ℕ)
      → KeepsClock s (reopen boundary end_sample s)
  unfolding reopen open_segment
  reopen-KeepsClock s Segmenter.Boundary.max_duration end_sample = record {
    seq_kept = refl;
    sample_kept = refl;
    window_kept = refl;
  }
  reopen-KeepsClock s Segmenter.Boundary.silence end_sample = KeepsClock-refl s
  reopen-KeepsClock s Segmenter.Boundary.stop end_sample = KeepsClock-refl s

  close_segment-Keeps :
      (s : StreamSession S) (o : Option ℕ) (c : SegmentClosed) → Keeps s (close_segment s o c)
  unfolding close_segment open_segment settle_preview_soon
  close_segment-Keeps s (some j) c =
      let q = settle_preview_soon (record s { segment = none }) j in
      Keeps-after (close_segment s (some j) c) (same_clock s q refl refl refl) (
        Keeps->>= q (enqueue q j c.pcm c.end_sample (boundary_of c.boundary)) _
          (enqueue-Keeps q j c.pcm c.end_sample (boundary_of c.boundary))
          (λ r. reopen-KeepsClock r c.boundary c.end_sample))
  close_segment-Keeps s none c =
      let q =
        settle_preview_soon (record (open_segment c.start_sample s) { segment = none })
          s.next_index in
      Keeps-after (close_segment s none c) (same_clock s q refl refl refl) (
        Keeps->>= q (enqueue q s.next_index c.pcm c.end_sample (boundary_of c.boundary)) _
          (enqueue-Keeps q s.next_index c.pcm c.end_sample (boundary_of c.boundary))
          (λ r. reopen-KeepsClock r c.boundary c.end_sample))

  on_event-Keeps : (s : StreamSession S) (event : SegmenterEvent) → Keeps s (on_event s event)
  unfolding on_event open_segment
  on_event-Keeps s (Segmenter.speech_started a) = same_clock s _ refl refl refl
  on_event-Keeps s (Segmenter.segment_closed c) = close_segment-Keeps s s.segment c

  on_events-Keeps :
      (s : StreamSession S) (events : List SegmenterEvent) → Keeps s (on_events s events)
  unfolding on_events
  on_events-Keeps s [] = KeepsClock-refl s
  on_events-Keeps s (event ∷ events) =
      Keeps->>= s (on_event s event) _ (on_event-Keeps s event) (λ q. on_events-Keeps q events)

  pub pushed-Keeps :
      (s : StreamSession S) (r : Segmenter.Result (ContinuousSegmenter S × List SegmenterEvent))
      → Keeps s (pushed s r)
  unfolding pushed
  pushed-Keeps s (Segmenter.ok (segmenter, events)) =
      let q = record s { segmenter = some segmenter } in
      Keeps-after (on_events q events) (same_clock s q refl refl refl) (on_events-Keeps q events)
  pushed-Keeps s (Segmenter.raised e) = tt

  ensure_segment-KeepsClock :
      (a : ℕ) (o : Option ℕ) (s : StreamSession S) → KeepsClock s (ensure_segment a o s)
  unfolding ensure_segment open_segment
  ensure_segment-KeepsClock a none s = same_clock s _ refl refl refl
  ensure_segment-KeepsClock a (some j) s = KeepsClock-refl s

  pub extend_utterance-Keeps :
      (s : StreamSession S) (a : ℕ) (pcm : List ℕ) → Keeps s (extend_utterance s a pcm)
  unfolding extend_utterance
  extend_utterance-Keeps s a pcm =
      let q = ensure_segment a s.segment s in
      elim (Bool-cases (ltb max_utterance_pcm_bytes (length s.pcm + length pcm))) [
        | inl long ↦ rw long tt
        | inr fits ↦ rw fits (
            KeepsClock-trans (ensure_segment-KeepsClock a s.segment s)
              (same_clock q (record q { pcm = q.pcm ++ pcm }) refl refl refl))
      ]

  trim_history-KeepsClock : (n : ℕ) (s : StreamSession S) → KeepsClock s (trim_history n s)
  unfolding trim_history
  trim_history-KeepsClock n s = ground arith

  history_for-KeepsClock :
      (history : List ℕ) (a : ℕ) (s : StreamSession S) → KeepsClock s (history_for history a s)
  unfolding history_for
  history_for-KeepsClock [] a s = same_clock s _ refl refl refl
  history_for-KeepsClock (b ∷ history) a s = ground arith

  KeepsClock-if :
      (b : Bool) {s x y : StreamSession S}
      → KeepsClock s x
      → KeepsClock s y
      → KeepsClock s (if b then x else y)
  KeepsClock-if true h k = h
  KeepsClock-if false h k = k

  pub remember_audio-KeepsClock :
      (a : ℕ) (pcm : List ℕ) (s : StreamSession S) → KeepsClock s (remember_audio a pcm s)
  unfolding remember_audio
  remember_audio-KeepsClock a pcm s =
      let q = history_for s.audio_history a s in
      let grown = record q { audio_history = q.audio_history ++ pcm } in
      KeepsClock-if (leb s.config.audio_history_max_samples 0 || leb (length pcm) 0)
        (KeepsClock-refl s)
        (KeepsClock-trans (history_for-KeepsClock s.audio_history a s) (
          KeepsClock-trans (same_clock q grown refl refl refl)
            (trim_history-KeepsClock (s.config.audio_history_max_samples * 2) grown)))

  schedule_preview-KeepsClock :
      (s : StreamSession S) (task : Option PreviewTask) (now j : ℕ) (pcm : List ℕ) (end_sample : ℕ)
      → KeepsClock s (schedule_preview s task now j pcm end_sample)
  unfolding schedule_preview
  schedule_preview-KeepsClock s (some task) now j pcm end_sample = same_clock s _ refl refl refl
  schedule_preview-KeepsClock s none now j pcm end_sample = ground arith

  preview_of-KeepsClock :
      (s : StreamSession S) (now : ℕ) (j : Option ℕ) (audio : Option (List ℕ × ℕ))
      → KeepsClock s (preview_of s now j audio)
  unfolding preview_of
  preview_of-KeepsClock s now none audio = KeepsClock-refl s
  preview_of-KeepsClock s now (some j) none = KeepsClock-refl s
  preview_of-KeepsClock s now (some j) (some (pcm, end_sample)) =
      KeepsClock-if _ (KeepsClock-refl s)
        (schedule_preview-KeepsClock s s.preview.task now j pcm end_sample)

  pub maybe_schedule_preview-KeepsClock :
      (s : StreamSession S) (now : ℕ) → KeepsClock s (maybe_schedule_preview s now)
  unfolding maybe_schedule_preview
  maybe_schedule_preview-KeepsClock s now =
      KeepsClock-if (not s.config.revisable || s.closing || s.cancelled) (KeepsClock-refl s)
        (preview_of-KeepsClock s now s.segment (current_preview_audio s))

  pub refill-IsFlowing :
      (s : StreamSession S)
      → s.next_sample ≤ s.send_until_sample
      → s.send_until_sample ≤ max_safe_int
      → IsFlowing (refill s)
        × (s.send_until_sample ≤ (refill s).send_until_sample)
        × ((refill s).next_sample ≡ s.next_sample)
        × ((refill s).next_seq ≡ s.next_seq)
  unfolding refill
  refill-IsFlowing s fits small = ground arith
