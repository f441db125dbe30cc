-- ===== src/Stream/Machine/Ledger/Answers.antt =====
-- What the preview's task hears, and its timer, in api/stream.py (tea_asr/api/stream.py), in the accounts
-- of a segment.
use tea_asr_service.Prelude.{ℕ, Bool, Option, none, some, List}
use tea_asr_service.Stream.{
  StreamSession, PreviewTask, PreviewPhase, decoding, restoring, PauseReason,
}
use tea_asr_service.Stream.Text.{Tables}
use tea_asr_service.Stream.Publishing.{pause_reason}
use tea_asr_service.Stream.Machine.{
  PreviewAnswer, decoded, refused, dropped, broken, on_preview, on_preview_answer, on_preview_phase,
  on_preview_text, on_timer,
}
use tea_asr_service.Stream.Machine.Ledger.{IsSame, IsSame-refl, IsSame-if}
use tea_asr_service.Stream.Machine.Ledger.Previews.{
  fire_timer-IsSame, finish_preview-IsSame, preview_failed-IsSame, preview_decoded-IsSame,
  preview_restored-IsSame,
}

module _ {S : Type 0} (i : ℕ) where
  pub on_timer-IsSame :
      (s : StreamSession S) (now : ℕ) (timer : Option ℕ) → IsSame i s (on_timer s now timer)
  unfolding on_timer
  on_timer-IsSame s now none = IsSame-refl i s
  on_timer-IsSame s now (some at) = IsSame-if i _ (fire_timer-IsSame i s now) (IsSame-refl i s)

  module _ (t : Tables) where
    on_preview-IsSame :
        (s : StreamSession S) (now : ℕ) (task : PreviewTask) (phase : PreviewPhase)
        (answer : PreviewAnswer)
        → IsSame i s (on_preview t s now task phase answer)
    unfolding on_preview
    on_preview-IsSame s now task decoding (decoded decode raw) =
        preview_decoded-IsSame i t s now task decode raw
    on_preview-IsSame s now task decoding (refused code) =
        preview_failed-IsSame i s now task.segment (pause_reason code)
    on_preview-IsSame s now task decoding dropped = finish_preview-IsSame i s now
    on_preview-IsSame s now task decoding broken =
        preview_failed-IsSame i s now task.segment PauseReason.backend_error
    on_preview-IsSame s now task (restoring text count) answer = IsSame-refl i s

    pub on_preview_answer-IsSame :
        (s : StreamSession S) (now : ℕ) (task : Option PreviewTask) (answer : PreviewAnswer)
        → IsSame i s (on_preview_answer t s now task answer)
    unfolding on_preview_answer
    on_preview_answer-IsSame s now none answer = IsSame-refl i s
    on_preview_answer-IsSame s now (some task) answer =
        on_preview-IsSame s now task task.phase answer

    on_preview_phase-IsSame :
        (s : StreamSession S) (now : ℕ) (task : PreviewTask) (phase : PreviewPhase) (text : List ℕ)
        (changed : Bool)
        → IsSame i s (on_preview_phase t s now task phase text changed)
    unfolding on_preview_phase
    on_preview_phase-IsSame s now task decoding text changed = IsSame-refl i s
    on_preview_phase-IsSame s now task (restoring old count) text changed =
        preview_restored-IsSame i t s now task text count changed

    pub on_preview_text-IsSame :
        (s : StreamSession S) (now : ℕ) (task : Option PreviewTask) (text : List ℕ) (changed : Bool)
        → IsSame i s (on_preview_text t s now task text changed)
    unfolding on_preview_text
    on_preview_text-IsSame s now none text changed = IsSame-refl i s
    on_preview_text-IsSame s now (some task) text changed =
        on_preview_phase-IsSame s now task task.phase text changed
