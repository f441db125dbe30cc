-- ===== src/Stream/Examples.antt =====
-- Short sessions of tea_asr/api/stream.py, and the theorems on them.
use tea_asr_service.Prelude.{
  ◌+◌, suc, zero, length, ℕ, ◌*◌, ◌≤◌, ◌≡◌, refl, true, false, ◌&&◌, none, some, List, [], ◌∷◌,
  ◌++◌, leb, ◌==◌, replicate,
}
use tea_asr_service.Stream.{
  SessionConfig, ClosedSegment, Boundary, session_started, audio_ack, segment_queued,
  audio_committed, transcript_final, session_stopped,
}
use tea_asr_service.Stream.Admission.{enter, leave, serve, try_acquire}
use tea_asr_service.Stream.Admission.Slots.{empty_within, serve-Holds}
use tea_asr_service.Repetition.{mem}
use tea_asr_service.Stream.Text.{Tables, apply_pua_filter, private_use_warnings}
use tea_asr_service.Context.{apply_replacements, contains_context_echo}
use tea_asr_service.Stream.Control.{listening, audio_commit, session_stop, handle_control, settled}
use tea_asr_service.Stream.Consumer.{response, take_next}
use tea_asr_service.Stream.Frames.{handle_frame, u64_le}
use tea_asr_service.Stream.Overlap.{
  strip_carried_overlap, normalize_from, best_overlap, normalize_carry_text,
}
use tea_asr_service.Stable.Alignment.{costs}
use tea_asr_service.Stream.Overlap.Stripping.{IsStripped, strip_carried_overlap-IsStripped}
use tea_asr_service.Stream.Preview.{maybe_schedule_preview}
use tea_asr_service.Stream.Closing.{close_begin, close_open_audio}
use tea_asr_service.Stream.Transcription.{on_decoded, on_restored, finish_text, segment_done}
use tea_asr_service.Repetition.{trim_repetitions, trim_from, match_at, find, try_unit}
use tea_asr_service.Translation.Response.{is_space}
use tea_asr_service.Stream.Frames.Runs.{handle_frames, Clocked, handle_frames-Clocked}
use tea_asr_service.Stream.Machine.{
  Turn, frame, control, preview_gone, consumer_ready, worker_answers, text_restored, drain_timeout,
  Running, start_session, turn, turns, on_text, on_answer, on_ready, on_preview_gone, on_control,
  on_frame,
}
use tea_asr_service.Stream.Machine.Ledger
use tea_asr_service.Stream.Machine.Ledger.{queued}
use tea_asr_service.Stream.Machine.Terminal.{
  session_after, session_after-ends_once, session_after-all_ended, drain_timeout-unreported,
}

-- Of lower-case ASCII, with the comma
abbrev ascii : Tables
ascii = record {
  unicode = record {
    mark = λ c. false;
    letter_other = λ c. false;
    punctuation = λ c. c == 44;
    separator = λ c. c == 32;
    combining = λ c. 0;
    alnum = λ c. leb 97 c && leb c 122;
    wide = λ c. false;
    comparison_form = λ text. text;
  };
  decimal = λ c. leb 48 c && leb c 57;
  symbol = λ c. c == 43;
  folded = λ c. c ∷ [];
}

-- An utterance without previews
abbrev utterance : SessionConfig
utterance = record {
  continuous = false;
  revisable = false;
  stable_agreement = none;
  context_plan = none;
  filter_pua = true;
  limits = record { single_char_limit = 3; multi_char_limit = 3; numeral_loop_limit = 6 };
  carry_context_samples = 0;
  carry_context_max_gap_samples = 0;
  audio_history_max_samples = 0;
  preview_min_audio_samples = 8000;
  preview_min_interval = 10;
  preview_max_load_gap = 100;
  load_gap = λ n. n * 2;
  tail_margin = none;
}

abbrev silent : List ℕ → ℕ → ℕ × ℕ
silent window n = (0, n)

-- The first frame, of two samples
abbrev bytes : List ℕ
bytes = replicate 16 0 ++ 1 ∷ 2 ∷ 3 ∷ 4 ∷ []

abbrev after : List Turn → Running ℕ
after = session_after ascii silent utterance none 7

-- An utterance that is committed and recognised
abbrev recognised : List Turn
recognised =
    frame 0 bytes
    ∷ control (audio_commit 1 0)
    ∷ preview_gone
    ∷ consumer_ready
    ∷ worker_answers (response (97 ∷ 98 ∷ []))
    ∷ text_restored (97 ∷ 98 ∷ []) false
    ∷ []

-- The session stops while the worker is at work.
abbrev stopping : List Turn
stopping = frame 0 bytes ∷ control (session_stop 1 (some 0)) ∷ preview_gone ∷ consumer_ready ∷ []

recognises :
    (after recognised).session.sent
    ≡ session_started 7 80000
      ∷ audio_ack 0 2
      ∷ audio_committed 1 (some 0)
      ∷ segment_queued 0 0 2 Boundary.manual
      ∷ transcript_final 0 1 0 2 (97 ∷ 98 ∷ []) (97 ∷ 98 ∷ []) []
      ∷ []
unfolding turns turn on_text on_answer on_ready on_preview_gone on_control on_frame start_session
    handle_frame u64_le handle_control maybe_schedule_preview close_begin take_next settled
    close_open_audio on_decoded on_restored trim_repetitions trim_from match_at find try_unit
    is_space finish_text segment_done apply_pua_filter apply_replacements contains_context_echo
    private_use_warnings
recognises = refl

session_after-ends_once_example :
    (Ledger.ended 0 (after recognised).session ≤ queued 0 (after recognised).session)
    × (queued 0 (after recognised).session ≤ 1)
session_after-ends_once_example = session_after-ends_once ascii silent utterance none 7 recognised 0

session_after-all_ended_example :
    Ledger.ended 0 (after recognised).session ≡ queued 0 (after recognised).session
unfolding turns turn on_text on_answer on_ready on_preview_gone on_control on_frame start_session
    handle_frame u64_le handle_control maybe_schedule_preview close_begin take_next settled
    close_open_audio on_decoded on_restored trim_repetitions trim_from match_at find try_unit
    is_space finish_text segment_done apply_pua_filter apply_replacements contains_context_echo
session_after-all_ended_example =
    session_after-all_ended ascii silent utterance none 7 recognised 0 refl refl refl refl

abbrev at_work : ClosedSegment
at_work = record { segment = 0; pcm = 1 ∷ 2 ∷ 3 ∷ 4 ∷ []; end_sample = 2; boundary = Boundary.stop }

drain_timeout-unreported_example :
    let s = (after stopping).session in
    let s' = (turn ascii silent (after stopping) drain_timeout).session in
    (s'.sent ≡ s.sent ++ session_stopped 1 (some 0) s.failed_segments ∷ [])
    × (queued 0 s' ≡ 1)
    × (Ledger.ended 0 s' ≡ 0)
unfolding turns turn on_ready on_preview_gone on_control on_frame start_session handle_frame u64_le
    handle_control maybe_schedule_preview close_begin take_next settled close_open_audio
drain_timeout-unreported_example =
    drain_timeout-unreported ascii silent utterance none 7 stopping 1 (some 0) at_work
      (1 ∷ 2 ∷ 3 ∷ 4 ∷ []) none refl refl refl

handle_frames-Clocked_example :
    Clocked silent
      (after []).session
      ((0, bytes) ∷ [])
      (handle_frames silent (start_session utterance none 7).session ((0, bytes) ∷ []))
unfolding turns
handle_frames-Clocked_example = handle_frames-Clocked silent utterance none 7 ((0, bytes) ∷ [])

-- "z abcd" and "abcd, ef": the words "abcd, " go.
strip_carried_overlap-IsStripped_example :
    IsStripped ascii
      (122 ∷ 32 ∷ 97 ∷ 98 ∷ 99 ∷ 100 ∷ [])
      (97 ∷ 98 ∷ 99 ∷ 100 ∷ 44 ∷ 32 ∷ 101 ∷ 102 ∷ [])
      (101 ∷ 102 ∷ [])
      4
unfolding strip_carried_overlap normalize_from best_overlap normalize_carry_text is_space costs
strip_carried_overlap-IsStripped_example =
    strip_carried_overlap-IsStripped ascii (122 ∷ 32 ∷ 97 ∷ 98 ∷ 99 ∷ 100 ∷ [])
      (97 ∷ 98 ∷ 99 ∷ 100 ∷ 44 ∷ 32 ∷ 101 ∷ 102 ∷ []) (101 ∷ 102 ∷ []) 4 refl

-- Of two slots, the second is given to 3; 4 finds none, and 1 leaves.
serve-Holds_example :
    let first = serve (empty_within 2) (enter 1 ∷ []) in
    let a = serve (try_acquire first 3).0 (enter 4 ∷ leave 1 ∷ []) in
    (mem 3 a.reserved ≡ true) × (length a.reserved ≤ 2)
unfolding serve try_acquire
serve-Holds_example =
    serve-Holds 2 3 (enter 1 ∷ []) (enter 4 ∷ leave 1 ∷ []) refl (refl, (refl, tt))

-- The `k`th utterance, of two samples, is committed.
abbrev committed : ℕ → List Turn
committed k =
    frame 0 (k ∷ replicate 7 0 ++ (2 * k ∷ replicate 7 0) ++ 1 ∷ 2 ∷ 3 ∷ 4 ∷ [])
    ∷ control (audio_commit (k + 100) k)
    ∷ preview_gone
    ∷ []

abbrev committed_from : ℕ → ℕ → List Turn
committed_from zero k = []
committed_from (suc count) k = committed k ++ committed_from count (suc k)

-- The seventeenth waiting segment is queued and lost, and the session goes on.
queue_is_full :
    let r = after (committed_from 17 0) in
    (r.receiving ≡ listening)
    × (length r.session.pending ≡ 16)
    × (queued 16 r.session ≡ 1)
    × (Ledger.ended 16 r.session ≡ 0)
    × (r.session.failed_segments ≡ [])
unfolding turns turn on_preview_gone on_control on_frame start_session handle_frame u64_le
    handle_control maybe_schedule_preview close_begin settled close_open_audio
queue_is_full = (refl, refl, refl, refl, refl)
