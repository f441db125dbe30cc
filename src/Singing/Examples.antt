-- ===== src/Singing/Examples.antt =====
-- The labels of tea_asr/singing.py and the calls of tea_asr/singing_session.py on short streams.
use tea_asr_service.Prelude.{
  ℕ, ◌+◌, ◌/◌, ◌≡◌, refl, true, false, none, some, List, [], ◌∷◌, ◌++◌, length, take, replicate,
  length-replicate, arith,
}
use tea_asr_service.Singing.Tracker.{
  SingingParams, AudioClass, speech, singing, SingingTracker, new, observe, evaluate, step, switch,
  recent_mean, complete_frames, decide, offset, state_after, local_score, ready, reverse,
}
use tea_asr_service.Singing.Reference.{label}
use tea_asr_service.Singing.Decisions.{evaluate-observe}
use tea_asr_service.Singing.Labeler.{Call, Labels, labels, labeler, update, settle, labels-Labels}
use tea_asr_service.Singing.Frames.{SessionSinging}
use tea_asr_service.Singing.Frames.Windows.{IsValid, CoversFrom}
use tea_asr_service.Singing.Frames.Calls.{
  Turn, pushes, computes, Whole, run, stream, run-CoversFrom,
}

abbrev total : List ℕ → ℕ
total [] = 0
total (x ∷ xs) = x + total xs

abbrev mean : List ℕ → ℕ
mean xs = total xs / length xs

abbrev confidence : AudioClass → ℕ → ℕ
confidence c score = score

abbrev params : SingingParams
params = record {
  enter_frames = 2;
  enter_threshold = 8;
  exit_frames = 2;
  exit_threshold = 4;
  local_frames = 1;
  local_threshold = 5;
}

abbrev scores : List ℕ
scores = 9 ∷ 9 ∷ 6 ∷ 1 ∷ []

-- After two frames, though four have been observed
evaluates :
    evaluate mean confidence (observe mean confidence scores (new params 4)) 23280
    ≡ some (record { audio_class = singing; confidence = 9; revision = 0 })
unfolding evaluate observe step switch recent_mean complete_frames decide offset state_after
    local_score
evaluates = refl

evaluate-observe_example :
    evaluate mean confidence (observe mean confidence scores (new params 4)) 23280
    ≡ some (label mean confidence params (reverse (take (complete_frames 23280) scores)))
unfolding complete_frames
evaluate-observe_example =
    evaluate-observe mean confidence params 4 23280 scores (omega arith) (omega arith) (omega arith)
      (omega arith) (omega arith)

abbrev observed : List ℕ → SingingTracker
observed xs = observe mean confidence xs (new params 4)

-- Nothing is due, then the label of two frames, then the revision of four
abbrev calls : List Call
calls =
    record { tracker = observed []; stream_sample = 9000; closing = false }
    ∷ record { tracker = observed (9 ∷ 9 ∷ 6 ∷ []); stream_sample = 31000; closing = false }
    ∷ record { tracker = observed scores; stream_sample = 39000; closing = true }
    ∷ []

labels_twice :
    labels mean confidence (labeler 0 23280 60000) calls
    ≡ record { audio_class = singing; confidence = 9; revision = 0 }
      ∷ record { audio_class = speech; confidence = 1; revision = 1 }
      ∷ []
unfolding labels update settle ready evaluate observe step switch recent_mean complete_frames decide
    offset state_after local_score
labels_twice = refl

labels-Labels_example : Labels (labels mean confidence (labeler 0 23280 60000) calls)
labels-Labels_example = labels-Labels mean confidence 0 23280 60000 calls

abbrev session : SessionSinging
session = record {
  buffer = [];
  buffer_start = 0;
  end_sample = 0;
  next_frame = 0;
  running = none;
  failed = none;
}

session-IsValid : IsValid [] session
session-IsValid = record {
  whole = omega arith;
  aligned = omega arith;
  inside = omega arith;
  buffered = λ h. refl;
}

abbrev turns : List Turn
turns = pushes 0 (replicate 40000 7) ∷ pushes 20000 (replicate 20000 8) ∷ computes true ∷ []

turns-Whole : Whole turns
turns-Whole = (
  omega (arith, length-replicate {A = ℕ} 40000 7),
  (omega (arith, length-replicate {A = ℕ} 20000 8), tt),
)

run-CoversFrom_example :
    IsValid ([] ++ stream session turns) (run session turns).0
    × CoversFrom ([] ++ stream session turns) 0 (run session turns).1
run-CoversFrom_example = run-CoversFrom [] session turns session-IsValid turns-Whole
