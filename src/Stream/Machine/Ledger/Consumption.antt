-- ===== src/Stream/Machine/Ledger/Consumption.antt =====
-- The consumer of api/stream.py (tea_asr/api/stream.py) in the accounts of a segment, answer by answer.
use tea_asr_service.Prelude.{ℕ, ◌+◌, refl, Bool, Option, none, some, List, [], ◌∷◌, ◌++◌, not}
use tea_asr_service.Translation.Response.{is_space}
use tea_asr_service.Repetition.{TrimmedRepetition, any}
use tea_asr_service.Context.{apply_replacements}
use tea_asr_service.Stream.{
  StreamSession, ClosedSegment, ErrorCode, SkipReason, Warning, segment_at, transcript_final,
  segment_skipped, segment_error, internal_error, no_speech, carry_overlap_stripped,
  carry_overlap_uncertain,
}
use tea_asr_service.Stream.Text.{Tables, apply_pua_filter}
use tea_asr_service.Stream.Overlap.{strip_carried_overlap}
use tea_asr_service.Stream.Consumer.{Answer, response, refused, broken, idle}
use tea_asr_service.Stream.Transcription.{
  stripped_or, finalized_by, segment_done, segment_failed, segment_omitted, replace_text,
  filtered_text, trimmed_text, finish_text, strip_with, strip_candidate, decoded_text, on_decoded,
  on_retried, emit_final, on_restored,
}
use tea_asr_service.Stream.Machine.Ledger.{IsSame, IsSame-trans}
use tea_asr_service.Stream.Machine.Ledger.Previews.{abandon_stable-IsSame}
use tea_asr_service.Stream.Machine.Ledger.Serving.{
  IsServed-IsSame, IsSame-IsServed, failed_segments-IsSame, ends-IsServed, dropped-IsServed,
  finalized-IsSame, previous_final-IsSame, Serves, Serves-if, Serves_waiting,
}

module _ {S : Type 0} (i : ℕ) where
  module _ (t : Tables) (s : StreamSession S) where
    segment_done-IsSame : (j : ℕ) → IsSame i s (segment_done t s j)
    unfolding segment_done
    segment_done-IsSame j =
        IsSame-trans i (previous_final-IsSame i s none) (abandon_stable-IsSame i t.unicode _ j)

  module _ (t : Tables) (s : StreamSession S) where
    segment_failed-Serves :
        (j : ℕ) (code : ErrorCode) → Serves i s j (segment_failed t s j code, idle)
    unfolding segment_failed
    segment_failed-Serves j code =
        let s' = record s { failed_segments = s.failed_segments ++ j ∷ [] } in
        IsServed-IsSame i
          (IsSame-IsServed i (failed_segments-IsSame i s (s.failed_segments ++ j ∷ []))
            (ends-IsServed i s' (segment_error j code) j refl refl refl))
          (segment_done-IsSame t _ j)

    segment_omitted-Serves :
        (j : ℕ) (reason : SkipReason) → Serves i s j (segment_omitted t s j reason, idle)
    unfolding segment_omitted
    segment_omitted-Serves j reason =
        IsServed-IsSame i (ends-IsServed i s (segment_skipped j reason) j refl refl refl)
          (segment_done-IsSame t _ j)

  module _ (t : Tables) (s : StreamSession S) (closed : ClosedSegment) where
    replace_text-Serves :
        (raw : List ℕ) (warnings : List Warning) (o : Option (List ℕ × ℕ))
        → Serves i s closed.segment (replace_text t s closed raw warnings o)
    unfolding replace_text
    replace_text-Serves raw warnings none = segment_failed-Serves t s closed.segment internal_error
    replace_text-Serves raw warnings (some (text, count)) = Serves_waiting i s closed.segment

    filtered_text-Serves :
        (raw : List ℕ) (warnings : List Warning) (text : List ℕ)
        → Serves i s closed.segment (filtered_text t s closed raw warnings text)
    unfolding filtered_text
    filtered_text-Serves raw warnings [] =
        segment_omitted-Serves t s closed.segment SkipReason.empty
    filtered_text-Serves raw warnings (c ∷ text) =
        replace_text-Serves raw warnings
          (apply_replacements (c ∷ text) (segment_at s closed.segment).replacements)

    trimmed_text-Serves :
        (raw : List ℕ) (warnings : List Warning) (stripped : Option (List ℕ))
        (o : Option (List ℕ × List TrimmedRepetition))
        → Serves i s closed.segment (trimmed_text t s closed raw warnings stripped o)
    unfolding trimmed_text
    trimmed_text-Serves raw warnings stripped none =
        segment_failed-Serves t s closed.segment internal_error
    trimmed_text-Serves raw warnings stripped (some (text, trims)) =
        filtered_text-Serves raw _ (stripped_or stripped text)

    finish_text-Serves :
        (raw : List ℕ) (warnings : List Warning) (stripped : Option (List ℕ))
        → Serves i s closed.segment (finish_text t s closed raw warnings stripped)
    unfolding finish_text
    finish_text-Serves [] warnings stripped = segment_omitted-Serves t s closed.segment no_speech
    finish_text-Serves (c ∷ raw) warnings stripped =
        trimmed_text-Serves (c ∷ raw) warnings stripped (apply_pua_filter t s.config (c ∷ raw))

    strip_with-Serves :
        (raw : List ℕ) (o : Option (List ℕ × ℕ))
        → Serves i s closed.segment (strip_with t s closed raw o)
    unfolding strip_with
    strip_with-Serves raw none = Serves_waiting i s closed.segment
    strip_with-Serves raw (some (rest, size)) =
        Serves-if i (any (λ c. not (is_space c)) rest) s closed.segment _ _
          (λ _. finish_text-Serves raw (carry_overlap_stripped ∷ []) (some rest))
          (Serves_waiting i s closed.segment)

    strip_candidate-Serves :
        (raw previous : List ℕ) (o : Option (List ℕ × List TrimmedRepetition))
        → Serves i s closed.segment (strip_candidate t s closed raw previous o)
    unfolding strip_candidate
    strip_candidate-Serves raw previous none =
        segment_failed-Serves t s closed.segment internal_error
    strip_candidate-Serves raw previous (some (candidate, trims)) =
        strip_with-Serves raw (strip_carried_overlap t previous candidate)

    decoded_text-Serves :
        (carried : Option (List ℕ)) (raw : List ℕ)
        → Serves i s closed.segment (decoded_text t s closed carried raw)
    unfolding decoded_text
    decoded_text-Serves none raw = finish_text-Serves raw [] none
    decoded_text-Serves (some previous) raw =
        strip_candidate-Serves raw previous (apply_pua_filter t s.config raw)

    pub on_decoded-Serves :
        (carried : Option (List ℕ)) (answer : Answer)
        → Serves i s closed.segment (on_decoded t s closed carried answer)
    unfolding on_decoded
    on_decoded-Serves carried (refused code) = segment_failed-Serves t s closed.segment code
    on_decoded-Serves carried broken = segment_failed-Serves t s closed.segment internal_error
    on_decoded-Serves carried (response raw) =
        Serves-if i s.cancelled s closed.segment _ _ (dropped-IsServed i s _)
          (decoded_text-Serves carried raw)

    pub on_retried-Serves :
        (answer : Answer) → Serves i s closed.segment (on_retried t s closed answer)
    unfolding on_retried
    on_retried-Serves (refused code) = segment_failed-Serves t s closed.segment code
    on_retried-Serves broken = segment_failed-Serves t s closed.segment internal_error
    on_retried-Serves (response raw) =
        Serves-if i s.cancelled s closed.segment _ _ (dropped-IsServed i s _)
          (finish_text-Serves raw (carry_overlap_uncertain ∷ []) none)

    emit_final-Serves :
        (raw text : List ℕ) (warnings : List Warning)
        → Serves i s closed.segment (emit_final t s closed raw text warnings, idle)
    unfolding emit_final
    emit_final-Serves raw text warnings =
        let g = segment_at s closed.segment in
        let ended' =
          ends-IsServed i s
            (transcript_final closed.segment (g.revision + 1) g.start_sample closed.end_sample text
              raw warnings)
            closed.segment refl refl refl in
        IsServed-IsSame i
          (IsServed-IsSame i ended' (
            finalized-IsSame i (finalized_by t.unicode g.stable text) _ closed.segment
              closed.end_sample))
          (previous_final-IsSame i _ (some (closed.end_sample, text)))

    pub on_restored-Serves :
        (raw : List ℕ) (warnings : List Warning) (text : List ℕ) (restored : Bool)
        → Serves i s closed.segment (on_restored t s closed raw warnings text restored)
    unfolding on_restored
    on_restored-Serves raw warnings text restored =
        Serves-if i s.cancelled s closed.segment _ _ (dropped-IsServed i s _)
          (emit_final-Serves raw text _)
