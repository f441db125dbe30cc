-- ===== src/Stream/Publishing.antt =====
-- The task `_run_preview` of api/stream.py (tea_asr/api/stream.py), cut where it awaits.
use tea_asr_service.Prelude.{
  ℕ, ◌+◌, ◌-◌, Bool, ◌||◌, Option, none, some, List, [], ◌∷◌, ◌++◌, ltb, leb, if◌then◌else◌,
}
use tea_asr_service.Context.{apply_replacements}
use tea_asr_service.Stable.Chars.{Unicode}
use tea_asr_service.Stable.Tracker.{StablePrefixTracker, StableUpdate, observe}
use tea_asr_service.Stream.{
  StreamSession, restoring, PreviewTask, ErrorCode, queue_full, PauseReason, load, backend_error,
  replacements_applied, punctuation_restored, transcript_partial, preview_status, segment_at, emit,
  modify,
}
use tea_asr_service.Stream.Text.{Tables, apply_pua_filter, held_back}
use tea_asr_service.Stream.Preview.{with_preview, finish_preview}
use tea_asr_service.Stream.StableLine.{observe_with}

abbrev pub pause_reason : ErrorCode → PauseReason
pause_reason queue_full = load
pause_reason _ = backend_error

abbrev pub observed :
    Unicode
    → Option StablePrefixTracker
    → List ℕ
    → Option (StablePrefixTracker × Option StableUpdate)
observed u none text = none
observed u (some tracker) text = some (observe u text tracker)

module _ {S : Type 0} where
  -- `stale`, for the preview of `i` that ends at `end_sample`
  unfoldable pub is_stale : StreamSession S → ℕ → ℕ → Bool
  is_stale s i end_sample =
      let g = segment_at s i in
      g.terminal || s.cancelled || leb end_sample (g.published_preview_end + g.start_sample)

  -- The `except` blocks that report the failure
  unfoldable pub preview_failed : StreamSession S → ℕ → ℕ → PauseReason → StreamSession S
  unfolding finish_preview
  preview_failed s now i reason =
      finish_preview (if (segment_at s i).terminal then s else emit (preview_status reason) s) now

  module _ (t : Tables) where
    -- The worker has answered: `decode` is the time that it was at work.
    unfoldable pub restore_next :
        StreamSession S → ℕ → PreviewTask → Option (List ℕ × ℕ) → StreamSession S
    unfolding preview_failed
    restore_next s now task none = preview_failed s now task.segment backend_error
    restore_next s now task (some (text, replacement_count)) = with_preview s (record s.preview {
      task = some (record task { phase = restoring text replacement_count });
    })

    abbrev pub replaced_text : StreamSession S → ℕ → List ℕ → Option (List ℕ × ℕ)
    replaced_text s i raw = elim (apply_pua_filter t s.config raw) [
      | none ↦ none
      | some (text, trims) ↦ apply_replacements text (segment_at s i).replacements
    ]

    unfoldable pub preview_decoded :
        StreamSession S → ℕ → PreviewTask → ℕ → List ℕ → StreamSession S
    unfolding is_stale finish_preview restore_next apply_pua_filter
    preview_decoded s now task decode raw =
        let s' = with_preview s (record s.preview { last_decode = decode }) in
        if is_stale s' task.segment task.end_sample
        then finish_preview s' now
        else restore_next s' now task (replaced_text s' task.segment raw)

    unfoldable pub publish : StreamSession S → PreviewTask → List ℕ → ℕ → Bool → StreamSession S
    unfolding observe_with
    publish s task text replacement_count restored =
        let i = task.segment in
        let g = segment_at s i in
        let s' =
          modify i
            (λ g. record g {
              revision = g.revision + 1;
              published_preview_end = task.end_sample - g.start_sample;
            })
            s in
        let warnings =
          (if ltb 0 replacement_count then replacements_applied ∷ [] else [])
          ++ (if restored then punctuation_restored ∷ [] else []) in
        observe_with (observed t.unicode g.stable (held_back t s.config.tail_margin text))
          (emit (transcript_partial i (g.revision + 1) g.start_sample task.end_sample text warnings)
            s')
          i task.end_sample

    -- The punctuation is restored.
    unfoldable pub preview_restored :
        StreamSession S → ℕ → PreviewTask → List ℕ → ℕ → Bool → StreamSession S
    unfolding is_stale finish_preview publish
    preview_restored s now task text replacement_count restored =
        if is_stale s task.segment task.end_sample
        then finish_preview s now
        else finish_preview (publish s task text replacement_count restored) now
