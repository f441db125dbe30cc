-- ===== src/Events/Types.antt =====
-- The types of the events that a session sends (tea_asr/wire.py), and the two sets of
-- tea_asr/api/events.py that say how a pending one may be treated.
use tea_asr_service.Prelude.{ℕ, zero, suc, ◌≡◌, refl, sym, ap, ◌∙◌, Bool, true, false, ◌==◌, ==_iff}

pub data EventType : Type 0 where
  session_started audio_ack speech_started audio_committed segment_queued : EventType
  transcript_partial transcript_final segment_audio_class transcript_stable : EventType
  segment_skipped segment_error flow_control preview_status session_stopped : EventType
  session_cancelled pong error translation_started translation_segment translation_error : EventType

abbrev code : EventType → ℕ
code session_started = 0
code audio_ack = 1
code speech_started = 2
code audio_committed = 3
code segment_queued = 4
code transcript_partial = 5
code transcript_final = 6
code segment_audio_class = 7
code transcript_stable = 8
code segment_skipped = 9
code segment_error = 10
code flow_control = 11
code preview_status = 12
code session_stopped = 13
code session_cancelled = 14
code pong = 15
code error = 16
code translation_started = 17
code translation_segment = 18
code translation_error = 19

-- pending["type"] == event_type
unfoldable pub same_type : EventType → EventType → Bool
same_type t u = code t == code u

-- TERMINAL_TYPES
unfoldable pub is_terminal_type : EventType → Bool
is_terminal_type session_started = true
is_terminal_type audio_committed = true
is_terminal_type segment_queued = true
is_terminal_type transcript_final = true
is_terminal_type segment_skipped = true
is_terminal_type segment_error = true
is_terminal_type session_stopped = true
is_terminal_type session_cancelled = true
is_terminal_type error = true
is_terminal_type pong = true
is_terminal_type translation_started = true
is_terminal_type translation_segment = true
is_terminal_type translation_error = true
is_terminal_type transcript_stable = true
is_terminal_type _ = false

-- COALESCED_TYPES
unfoldable pub is_coalesced : EventType → Bool
is_coalesced audio_ack = true
is_coalesced flow_control = true
is_coalesced preview_status = true
is_coalesced _ = false

-- The types that end a segment's partials.
unfoldable pub ends_segment : EventType → Bool
ends_segment transcript_final = true
ends_segment segment_skipped = true
ends_segment segment_error = true
ends_segment _ = false

-- Different types have different codes.
decode : ℕ → EventType
decode zero = session_started
decode (suc zero) = audio_ack
decode (suc (suc zero)) = speech_started
decode (suc (suc (suc zero))) = audio_committed
decode (suc (suc (suc (suc zero)))) = segment_queued
decode (suc (suc (suc (suc (suc zero))))) = transcript_partial
decode (suc (suc (suc (suc (suc (suc zero)))))) = transcript_final
decode (suc (suc (suc (suc (suc (suc (suc zero))))))) = segment_audio_class
decode (suc (suc (suc (suc (suc (suc (suc (suc zero)))))))) = transcript_stable
decode (suc (suc (suc (suc (suc (suc (suc (suc (suc zero))))))))) = segment_skipped
decode (suc (suc (suc (suc (suc (suc (suc (suc (suc (suc zero)))))))))) = segment_error
decode (suc (suc (suc (suc (suc (suc (suc (suc (suc (suc (suc zero))))))))))) = flow_control
decode (suc (suc (suc (suc (suc (suc (suc (suc (suc (suc (suc (suc zero)))))))))))) = preview_status
decode (suc (suc (suc (suc (suc (suc (suc (suc (suc (suc (suc (suc (suc zero))))))))))))) =
    session_stopped
decode (suc (suc (suc (suc (suc (suc (suc (suc (suc (suc (suc (suc (suc (suc zero)))))))))))))) =
    session_cancelled
decode
      (suc
        (suc (suc (suc (suc (suc (suc (suc (suc (suc (suc (suc (suc (suc (suc zero))))))))))))))) =
    pong
decode
      (suc (
        suc (
          suc
            (suc (suc (suc (suc (suc (suc (suc (suc (suc (suc (suc (suc (suc zero)))))))))))))))) =
    error
decode
      (suc (
        suc (
          suc (
            suc (
              suc
                (suc (suc (suc (suc (suc (suc (suc (suc (suc (suc (suc (suc zero))))))))))))))))) =
    translation_started
decode
      (suc (
        suc (
          suc (
            suc (
              suc (
                suc (
                  suc
                    (suc (suc (suc (suc (suc (suc (suc (suc (suc (suc (suc zero)))))))))))))))))) =
    translation_segment
decode _ = translation_error

decode-code : (t : EventType) → decode (code t) ≡ t
unfolding decode
decode-code session_started = refl
decode-code audio_ack = refl
decode-code speech_started = refl
decode-code audio_committed = refl
decode-code segment_queued = refl
decode-code transcript_partial = refl
decode-code transcript_final = refl
decode-code segment_audio_class = refl
decode-code transcript_stable = refl
decode-code segment_skipped = refl
decode-code segment_error = refl
decode-code flow_control = refl
decode-code preview_status = refl
decode-code session_stopped = refl
decode-code session_cancelled = refl
decode-code pong = refl
decode-code error = refl
decode-code translation_started = refl
decode-code translation_segment = refl
decode-code translation_error = refl

pub same_type→≡ : (t u : EventType) → same_type t u ≡ true → t ≡ u
unfolding same_type
same_type→≡ t u e = sym (decode-code t) ∙ ap decode ((==_iff (code t) (code u)).0 e) ∙ decode-code u

pub same_type_refl : (t : EventType) → same_type t t ≡ true
unfolding same_type
same_type_refl t = (==_iff (code t) (code t)).1 refl

-- What may be replaced need not be delivered.
pub is_coalesced-not_terminal : (t : EventType) → is_coalesced t ≡ true → is_terminal_type t ≡ false
unfolding is_coalesced is_terminal_type
is_coalesced-not_terminal session_started e = cc
is_coalesced-not_terminal audio_ack e = refl
is_coalesced-not_terminal speech_started e = refl
is_coalesced-not_terminal audio_committed e = cc
is_coalesced-not_terminal segment_queued e = cc
is_coalesced-not_terminal transcript_partial e = refl
is_coalesced-not_terminal transcript_final e = cc
is_coalesced-not_terminal segment_audio_class e = refl
is_coalesced-not_terminal transcript_stable e = cc
is_coalesced-not_terminal segment_skipped e = cc
is_coalesced-not_terminal segment_error e = cc
is_coalesced-not_terminal flow_control e = refl
is_coalesced-not_terminal preview_status e = refl
is_coalesced-not_terminal session_stopped e = cc
is_coalesced-not_terminal session_cancelled e = cc
is_coalesced-not_terminal pong e = cc
is_coalesced-not_terminal error e = cc
is_coalesced-not_terminal translation_started e = cc
is_coalesced-not_terminal translation_segment e = cc
is_coalesced-not_terminal translation_error e = cc
