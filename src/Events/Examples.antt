-- ===== src/Events/Examples.antt =====
-- The event queue of api/events.py on a short session, and its theorems there.
use mathlib.Core.List.{map}
use tea_asr_service.Prelude.{
  ℕ, ◌+◌, ◌≡◌, refl, Bool, true, false, none, List, [], ◌∷◌, ◌++◌, length, keep, arith,
}
use tea_asr_service.Events.Types.{
  EventType, audio_ack, transcript_partial, transcript_stable, transcript_final, same_type,
  is_coalesced, ends_segment,
}
use tea_asr_service.Events.{
  Payload, EventWriter, is_partial_of, is_open_stable_of, emit, enqueue, emit_stable, write, append,
  replace_pending, replace_first, discard, check_overflow,
}
use tea_asr_service.Events.Delivery.{terminal}
use tea_asr_service.Events.Session.{
  Turn, emits, writes, emitted, payloads, CountsFrom, run, IsConsistent, run-IsConsistent,
  run-terminal, run-CountsFrom, emit-no_partial,
}

abbrev new : EventWriter
new = record {
  max_items = 3;
  max_bytes = 100;
  overflow_grace_s = 5;
  queue = [];
  bytes = 0;
  over_since = none;
  next_event_id = 0;
  drained = true;
}

abbrev size : Payload → ℕ
size p = 10 + p.body

abbrev event : EventType → ℕ → Bool → ℕ → Payload
event type segment_id is_open body = record {
  type = type;
  segment_id = segment_id;
  is_open = is_open;
  body = body;
}

abbrev turns : List Turn
turns =
    emits 1 (event transcript_partial 0 false 1)
    ∷ emits 1 (event transcript_stable 0 true 1)
    ∷ writes 2
    ∷ emits 2 (event transcript_partial 0 false 2)
    ∷ emits 3 (event audio_ack 0 false 3)
    ∷ emits 3 (event transcript_stable 0 true 4)
    ∷ emits 4 (event transcript_partial 0 false 5)
    ∷ emits 4 (event transcript_stable 0 false 6)
    ∷ emits 5 (event transcript_final 0 false 7)
    ∷ emits 5 (event audio_ack 0 false 8)
    ∷ writes 6
    ∷ []

new-IsConsistent : IsConsistent size new
new-IsConsistent = record { bytes = refl; kinds = λ k. omega arith }

-- The partial and the open stable text are superseded; the first ack leaves with the second's content.
run-turns :
    (map (λ p. p.body) (payloads (run size new turns).1) ≡ 1 ∷ 8 ∷ [])
    × (map (λ p. p.body) (run size new turns).0.queue ≡ 6 ∷ 7 ∷ [])
unfolding run emit enqueue emit_stable write append replace_pending replace_first discard
    check_overflow is_partial_of is_open_stable_of same_type is_coalesced ends_segment
run-turns = (refl, refl)

run-IsConsistent_example : IsConsistent size (run size new turns).0
run-IsConsistent_example = run-IsConsistent size new turns new-IsConsistent

run-terminal_example :
    terminal (payloads (run size new turns).1) ++ terminal (run size new turns).0.queue
    ≡ terminal [] ++ terminal (emitted turns)
run-terminal_example = run-terminal size new turns

run-CountsFrom_example :
    CountsFrom 0 (run size new turns).1
    × ((run size new turns).0.next_event_id ≡ 0 + length (run size new turns).1)
run-CountsFrom_example = run-CountsFrom size new turns

emit-no_partial_example :
    keep
      (is_partial_of 0)
      (emit size 2
        (event transcript_final 0 false 1)
        (run size new (emits 1 (event transcript_partial 0 false 1) ∷ [])).0).queue
    ≡ []
unfolding ends_segment
emit-no_partial_example =
    emit-no_partial size 2 (event transcript_final 0 false 1)
      (run size new (emits 1 (event transcript_partial 0 false 1) ∷ [])).0 refl
