-- ===== src/Stream/Machine/Ledger/Previews.antt =====
-- The previews and the stable line of api/stream.py (tea_asr/api/stream.py) in the accounts of a segment.
use tea_asr_service.Prelude.{ℕ, refl, Bool, false, Option, none, some, List, arith}
use tea_asr_service.Stable.Chars.{Unicode}
use tea_asr_service.Stable.Tracker.{StablePrefixTracker, StableUpdate, abandon}
use tea_asr_service.Stream.{
  StreamSession, Segment, PreviewTask, PreviewState, PauseReason, segment_at, modify,
  preview_status,
}
use tea_asr_service.Stream.Text.{Tables}
use tea_asr_service.Stream.Preview.{
  with_preview, schedule_preview, preview_of, current_preview_audio, maybe_schedule_preview,
  fire_timer, settle_preview_soon, settle_preview, finish_preview,
}
use tea_asr_service.Stream.Publishing.{
  is_stale, preview_failed, restore_next, preview_decoded, publish, preview_restored, replaced_text,
}
use tea_asr_service.Stream.StableLine.{emit_stable, observe_with, abandon_with, abandon_stable}
use tea_asr_service.Stream.Machine.Ledger.{
  IsSame, IsSame-refl, IsSame-trans, IsSame-emit, IsSame-if,
}

module _ {S : Type 0} (i : ℕ) where
  pub with_preview-IsSame : (s : StreamSession S) (p : PreviewState) → IsSame i s (with_preview s p)
  with_preview-IsSame s p = record {
    queued_same = refl;
    ended_same = refl;
    overflowed_same = refl;
    waits_same = refl;
    segment_same = refl;
    next_index_same = refl;
    cancelled_same = refl;
  }

  pub modify-IsSame :
      (s : StreamSession S) (j : ℕ) (f : Segment → Segment) → IsSame i s (modify j f s)
  modify-IsSame s j f = record {
    queued_same = refl;
    ended_same = refl;
    overflowed_same = refl;
    waits_same = refl;
    segment_same = refl;
    next_index_same = refl;
    cancelled_same = refl;
  }

  schedule_preview-IsSame :
      (s : StreamSession S) (task : Option PreviewTask) (now j : ℕ) (pcm : List ℕ) (end_sample : ℕ)
      → IsSame i s (schedule_preview s task now j pcm end_sample)
  unfolding schedule_preview
  schedule_preview-IsSame s (some task) now j pcm end_sample = with_preview-IsSame s _
  schedule_preview-IsSame s none now j pcm end_sample = ground arith

  preview_of-IsSame :
      (s : StreamSession S) (now : ℕ) (j : Option ℕ) (audio : Option (List ℕ × ℕ))
      → IsSame i s (preview_of s now j audio)
  unfolding preview_of
  preview_of-IsSame s now none audio = IsSame-refl i s
  preview_of-IsSame s now (some j) none = IsSame-refl i s
  preview_of-IsSame s now (some j) (some (pcm, end_sample)) =
      ground (arith, IsSame-refl i s, schedule_preview-IsSame s s.preview.task now j pcm end_sample)

  pub maybe_schedule_preview-IsSame :
      (s : StreamSession S) (now : ℕ) → IsSame i s (maybe_schedule_preview s now)
  unfolding maybe_schedule_preview
  maybe_schedule_preview-IsSame s now =
      IsSame-if i _ (IsSame-refl i s) (preview_of-IsSame s now s.segment (current_preview_audio s))

  pub fire_timer-IsSame : (s : StreamSession S) (now : ℕ) → IsSame i s (fire_timer s now)
  unfolding fire_timer
  fire_timer-IsSame s now =
      IsSame-trans i (with_preview-IsSame s _) (maybe_schedule_preview-IsSame _ now)

  pub settle_preview_soon-IsSame :
      (s : StreamSession S) (j : ℕ) → IsSame i s (settle_preview_soon s j)
  unfolding settle_preview_soon
  settle_preview_soon-IsSame s j = IsSame-trans i (modify-IsSame s j _) (with_preview-IsSame _ _)

  pub settle_preview-IsSame : (s : StreamSession S) → IsSame i s (settle_preview s)
  unfolding settle_preview
  settle_preview-IsSame s = with_preview-IsSame s _

  pub finish_preview-IsSame : (s : StreamSession S) (now : ℕ) → IsSame i s (finish_preview s now)
  unfolding finish_preview
  finish_preview-IsSame s now =
      let done = with_preview-IsSame s (record s.preview { task = none; pending = false }) in
      IsSame-if i s.preview.pending (IsSame-trans i done (maybe_schedule_preview-IsSame _ now)) done

  pub emit_stable-IsSame :
      (s : StreamSession S) (j : ℕ) (update : StableUpdate) (source_revision end_sample : ℕ)
      → IsSame i s (emit_stable s j update source_revision end_sample)
  unfolding emit_stable
  emit_stable-IsSame s j update source_revision end_sample =
      IsSame-trans i (modify-IsSame s j _) (IsSame-emit i _ _ refl refl refl)

  pub observe_with-IsSame :
      (s : StreamSession S) (o : Option (StablePrefixTracker × Option StableUpdate))
      (j end_sample : ℕ)
      → IsSame i s (observe_with o s j end_sample)
  unfolding observe_with
  observe_with-IsSame s none j end_sample = IsSame-refl i s
  observe_with-IsSame s (some (tracker, none)) j end_sample = modify-IsSame s j _
  observe_with-IsSame s (some (tracker, some update)) j end_sample =
      IsSame-trans i (modify-IsSame s j _) (emit_stable-IsSame _ j update _ end_sample)

  abandon_with-IsSame :
      (u : Unicode) (s : StreamSession S) (j : ℕ) (o : Option StablePrefixTracker)
      → IsSame i s (abandon_with u s j o)
  unfolding abandon_with
  abandon_with-IsSame u s j none = IsSame-refl i s
  abandon_with-IsSame u s j (some tracker) =
      let g = segment_at s j in
      let kept = modify-IsSame s j (λ g. record g { stable = some (abandon u tracker).0 }) in
      IsSame-if i tracker.closed (IsSame-refl i s) (
        IsSame-if i _ kept (
          IsSame-trans i kept
            (emit_stable-IsSame _ j (abandon u tracker).1 g.revision g.stable_end_sample)))

  pub abandon_stable-IsSame :
      (u : Unicode) (s : StreamSession S) (j : ℕ) → IsSame i s (abandon_stable u s j)
  unfolding abandon_stable
  abandon_stable-IsSame u s j = abandon_with-IsSame u s j (segment_at s j).stable

  pub preview_failed-IsSame :
      (s : StreamSession S) (now j : ℕ) (reason : PauseReason)
      → IsSame i s (preview_failed s now j reason)
  unfolding preview_failed
  preview_failed-IsSame s now j reason =
      IsSame-trans i
        (IsSame-if i (segment_at s j).terminal (IsSame-refl i s)
          (IsSame-emit i s (preview_status reason) refl refl refl))
        (finish_preview-IsSame _ now)

  module _ (t : Tables) where
    restore_next-IsSame :
        (s : StreamSession S) (now : ℕ) (task : PreviewTask) (o : Option (List ℕ × ℕ))
        → IsSame i s (restore_next t s now task o)
    unfolding restore_next
    restore_next-IsSame s now task none = preview_failed-IsSame s now task.segment _
    restore_next-IsSame s now task (some (text, count)) = with_preview-IsSame s _

    pub preview_decoded-IsSame :
        (s : StreamSession S) (now : ℕ) (task : PreviewTask) (decode : ℕ) (raw : List ℕ)
        → IsSame i s (preview_decoded t s now task decode raw)
    unfolding preview_decoded
    preview_decoded-IsSame s now task decode raw =
        let s' = with_preview s (record s.preview { last_decode = decode }) in
        let first = with_preview-IsSame s (record s.preview { last_decode = decode }) in
        IsSame-if i (is_stale s' task.segment task.end_sample)
          (IsSame-trans i first (finish_preview-IsSame s' now))
          (IsSame-trans i first
            (restore_next-IsSame s' now task (replaced_text t s' task.segment raw)))

    publish-IsSame :
        (s : StreamSession S) (task : PreviewTask) (text : List ℕ) (count : ℕ) (restored : Bool)
        → IsSame i s (publish t s task text count restored)
    unfolding publish
    publish-IsSame s task text count restored =
        IsSame-trans i (modify-IsSame s task.segment _)
          (IsSame-trans i (IsSame-emit i _ _ refl refl refl) (observe_with-IsSame _ _ _ _))

    pub preview_restored-IsSame :
        (s : StreamSession S) (now : ℕ) (task : PreviewTask) (text : List ℕ) (count : ℕ)
        (restored : Bool)
        → IsSame i s (preview_restored t s now task text count restored)
    unfolding preview_restored
    preview_restored-IsSame s now task text count restored =
        IsSame-if i (is_stale s task.segment task.end_sample) (finish_preview-IsSame s now)
          (IsSame-trans i (publish-IsSame s task text count restored) (finish_preview-IsSame _ now))
