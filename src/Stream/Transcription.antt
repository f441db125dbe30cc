-- ===== src/Stream/Transcription.antt =====
-- `_transcribe_segment` of api/stream.py (tea_asr/api/stream.py), from the worker's answer on.
use tea_asr_service.Prelude.{
  ℕ, ◌+◌, Bool, not, Option, none, some, List, [], ◌∷◌, ◌++◌, ltb, if◌then◌else◌, length,
}
use tea_asr_service.Translation.Response.{is_space}
use tea_asr_service.Repetition.{TrimmedRepetition, any}
use tea_asr_service.Context.{apply_replacements, contains_context_echo}
use tea_asr_service.Stable.Chars.{Unicode}
use tea_asr_service.Stable.Tracker.{StablePrefixTracker, StableUpdate, finalize}
use tea_asr_service.Stream.{
  StreamSession, ClosedSegment, ErrorCode, internal_error, SkipReason, no_speech, Warning,
  repetition_trimmed, carry_overlap_stripped, carry_overlap_uncertain, replacements_applied,
  context_echo, punctuation_restored, transcript_final, segment_skipped, segment_error, segment_at,
  emit, modify,
}
use tea_asr_service.Stream.Text.{Tables, apply_pua_filter, private_use_warnings}
use tea_asr_service.Stream.Overlap.{strip_carried_overlap}
use tea_asr_service.Stream.StableLine.{emit_stable, abandon_stable}
use tea_asr_service.Stream.Consumer.{
  Answer, response, refused, broken, ConsumerPhase, idle, retrying, restoring,
}

abbrev pub stripped_or : Option (List ℕ) → List ℕ → List ℕ
stripped_or none text = text
stripped_or (some stripped) text = stripped

abbrev pub finalized_by :
    Unicode → Option StablePrefixTracker → List ℕ → Option (StablePrefixTracker × StableUpdate)
finalized_by u none text = none
finalized_by u (some tracker) text = some (finalize u text tracker)

module _ {S : Type 0} where
  abbrev pub finalized :
      Option (StablePrefixTracker × StableUpdate) → StreamSession S → ℕ → ℕ → StreamSession S
  finalized none s i end_sample = s
  finalized (some (tracker, update)) s i end_sample =
      emit_stable (modify i (λ g. record g { stable = some tracker }) s) i update
        ((segment_at s i).revision + 1) end_sample

  module _ (t : Tables) where
    unfoldable pub segment_done : StreamSession S → ℕ → StreamSession S
    unfolding abandon_stable
    segment_done s i = abandon_stable t.unicode (record s { previous_final = none }) i

    unfoldable pub segment_failed : StreamSession S → ℕ → ErrorCode → StreamSession S
    unfolding segment_done
    segment_failed s i code =
        segment_done
          (emit (segment_error i code) (record s { failed_segments = s.failed_segments ++ i ∷ [] }))
          i

    unfoldable pub segment_omitted : StreamSession S → ℕ → SkipReason → StreamSession S
    unfolding segment_done
    segment_omitted s i reason = segment_done (emit (segment_skipped i reason) s) i

    -- From the replacements up to the wait for the punctuation
    unfoldable pub replace_text :
        StreamSession S
        → ClosedSegment
        → List ℕ
        → List Warning
        → Option (List ℕ × ℕ)
        → StreamSession S × ConsumerPhase
    unfolding segment_failed
    replace_text s closed raw_text warnings none =
        (segment_failed s closed.segment internal_error, idle)
    replace_text s closed raw_text warnings (some (text, count)) =
        let echo = contains_context_echo raw_text (segment_at s closed.segment).context_domain in
        (
          s,
          restoring closed raw_text text (
              warnings
              ++ (if ltb 0 count then replacements_applied ∷ [] else [])
              ++ (if echo then context_echo ∷ [] else [])),
        )

    unfoldable pub filtered_text :
        StreamSession S
        → ClosedSegment
        → List ℕ
        → List Warning
        → List ℕ
        → StreamSession S × ConsumerPhase
    unfolding replace_text segment_omitted
    filtered_text s closed raw_text warnings [] =
        (segment_omitted s closed.segment SkipReason.empty, idle)
    filtered_text s closed raw_text warnings (c ∷ text) =
        replace_text s closed raw_text warnings
          (apply_replacements (c ∷ text) (segment_at s closed.segment).replacements)

    unfoldable pub trimmed_text :
        StreamSession S
        → ClosedSegment
        → List ℕ
        → List Warning
        → Option (List ℕ)
        → Option (List ℕ × List TrimmedRepetition)
        → StreamSession S × ConsumerPhase
    unfolding filtered_text segment_failed
    trimmed_text s closed raw_text carry_warning stripped none =
        (segment_failed s closed.segment internal_error, idle)
    trimmed_text s closed raw_text carry_warning stripped (some (text, trims)) =
        filtered_text s closed raw_text
          (private_use_warnings raw_text
            ++ (if ltb 0 (length trims) then repetition_trimmed ∷ [] else [])
            ++ carry_warning)
          (stripped_or stripped text)

    -- From the test for an empty transcript on
    unfoldable pub finish_text :
        StreamSession S
        → ClosedSegment
        → List ℕ
        → List Warning
        → Option (List ℕ)
        → StreamSession S × ConsumerPhase
    unfolding trimmed_text segment_omitted
    finish_text s closed [] carry_warning stripped =
        (segment_omitted s closed.segment no_speech, idle)
    finish_text s closed (c ∷ raw_text) carry_warning stripped =
        trimmed_text s closed (c ∷ raw_text) carry_warning stripped
          (apply_pua_filter t s.config (c ∷ raw_text))

    unfoldable pub strip_with :
        StreamSession S
        → ClosedSegment
        → List ℕ
        → Option (List ℕ × ℕ)
        → StreamSession S × ConsumerPhase
    unfolding finish_text
    strip_with s closed raw_text none = (s, retrying closed)
    strip_with s closed raw_text (some (rest, size)) =
        if any (λ c. not (is_space c)) rest
        then finish_text s closed raw_text (carry_overlap_stripped ∷ []) (some rest)
        else (s, retrying closed)

    unfoldable pub strip_candidate :
        StreamSession S
        → ClosedSegment
        → List ℕ
        → List ℕ
        → Option (List ℕ × List TrimmedRepetition)
        → StreamSession S × ConsumerPhase
    unfolding strip_with segment_failed
    strip_candidate s closed raw_text previous none =
        (segment_failed s closed.segment internal_error, idle)
    strip_candidate s closed raw_text previous (some (candidate, trims)) =
        strip_with s closed raw_text (strip_carried_overlap t previous candidate)

    unfoldable pub decoded_text :
        StreamSession S → ClosedSegment → Option (List ℕ) → List ℕ → StreamSession S × ConsumerPhase
    unfolding strip_candidate finish_text
    decoded_text s closed none raw_text = finish_text s closed raw_text [] none
    decoded_text s closed (some previous) raw_text =
        strip_candidate s closed raw_text previous (apply_pua_filter t s.config raw_text)

    -- The first answer of the worker
    unfoldable pub on_decoded :
        StreamSession S → ClosedSegment → Option (List ℕ) → Answer → StreamSession S × ConsumerPhase
    unfolding decoded_text segment_failed
    on_decoded s closed carried (refused code) = (segment_failed s closed.segment code, idle)
    on_decoded s closed carried broken = (segment_failed s closed.segment internal_error, idle)
    on_decoded s closed carried (response raw_text) =
        if s.cancelled then (s, idle) else decoded_text s closed carried raw_text

    -- The answer to the segment without the carried audio
    unfoldable pub on_retried :
        StreamSession S → ClosedSegment → Answer → StreamSession S × ConsumerPhase
    unfolding finish_text segment_failed
    on_retried s closed (refused code) = (segment_failed s closed.segment code, idle)
    on_retried s closed broken = (segment_failed s closed.segment internal_error, idle)
    on_retried s closed (response raw_text) =
        if s.cancelled
        then (s, idle)
        else finish_text s closed raw_text (carry_overlap_uncertain ∷ []) none

    unfoldable pub emit_final :
        StreamSession S → ClosedSegment → List ℕ → List ℕ → List Warning → StreamSession S
    emit_final s closed raw_text text warnings =
        let g = segment_at s closed.segment in
        let s' =
          finalized (finalized_by t.unicode g.stable text)
            (emit
              (transcript_final closed.segment (g.revision + 1) g.start_sample closed.end_sample
                text raw_text warnings)
              s)
            closed.segment closed.end_sample in
        record s' { previous_final = some (closed.end_sample, text) }

    -- The punctuation is restored, or could not be.
    unfoldable pub on_restored :
        StreamSession S
        → ClosedSegment
        → List ℕ
        → List Warning
        → List ℕ
        → Bool
        → StreamSession S × ConsumerPhase
    unfolding emit_final
    on_restored s closed raw_text warnings text restored = if s.cancelled then (s, idle) else (
      emit_final s closed raw_text text
          (warnings ++ (if restored then punctuation_restored ∷ [] else [])),
      idle,
    )
