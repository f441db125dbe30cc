-- ===== src/Stream/StableLine.antt =====
-- The stable subtitle line of a segment, in api/stream.py (tea_asr/api/stream.py).
use tea_asr_service.Prelude.{ℕ, ◌+◌, Option, none, some, leb, if◌then◌else◌}
use tea_asr_service.Stable.Chars.{Unicode}
use tea_asr_service.Stable.Tracker.{StablePrefixTracker, StableUpdate, abandon}
use tea_asr_service.Stream.{StreamSession, transcript_stable, segment_at, emit, modify}

module _ {S : Type 0} where
  unfoldable pub emit_stable : StreamSession S → ℕ → StableUpdate → ℕ → ℕ → StreamSession S
  emit_stable s i update source_revision end_sample =
      let revision = (segment_at s i).stable_revision + 1 in
      emit (transcript_stable i revision source_revision end_sample update)
        (modify i (λ g. record g { stable_revision = revision; stable_end_sample = end_sample }) s)

  unfoldable pub observe_with :
      Option (StablePrefixTracker × Option StableUpdate) → StreamSession S → ℕ → ℕ → StreamSession S
  unfolding emit_stable
  observe_with none s i end_sample = s
  observe_with (some (tracker, none)) s i end_sample =
      modify i (λ g. record g { stable = some tracker }) s
  observe_with (some (tracker, some update)) s i end_sample =
      emit_stable (modify i (λ g. record g { stable = some tracker }) s) i update
        (segment_at s i).revision end_sample

module _ {S : Type 0} (u : Unicode) where
  unfoldable pub abandon_with : StreamSession S → ℕ → Option StablePrefixTracker → StreamSession S
  unfolding emit_stable
  abandon_with s i none = s
  abandon_with s i (some tracker) =
      let g = segment_at s i in
      let (tracker', update) = abandon u tracker in
      let s' = modify i (λ g. record g { stable = some tracker' }) s in
      if tracker.closed
      then s
      else if leb g.stable_revision 0
      then s'
      else emit_stable s' i update g.revision g.stable_end_sample

  unfoldable pub abandon_stable : StreamSession S → ℕ → StreamSession S
  unfolding abandon_with
  abandon_stable s i = abandon_with s i (segment_at s i).stable
