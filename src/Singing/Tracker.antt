-- ===== src/Singing/Tracker.antt =====
-- `SingingTracker` of tea_asr/singing.py. A score is a natural number, in units in which every float is
-- one; `mean` is the float arithmetic of a sum and a division, on scores in the order of the sum, and
-- `confidence` the rounding of the score of a label. The deques are lists, the newest frame first;
-- `none` is a ValueError.
use tea_asr_service.Prelude.{
  ℕ, ◌+◌, ◌-◌, ◌/◌, Bool, false, not, ◌&&◌, Option, none, some, List, [], ◌∷◌, ◌++◌, ltb, leb, ◌==◌,
  if◌then◌else◌, length, take, drop, get_elem?,
}

-- PATCH_SAMPLES and HOP_SAMPLES
abbrev pub patch_samples : ℕ
patch_samples = 15600

abbrev pub hop_samples : ℕ
hop_samples = 7680

unfoldable pub complete_frames : ℕ → ℕ
complete_frames total_samples =
    if ltb total_samples patch_samples then 0 else 1 + (total_samples - patch_samples) / hop_samples

pub record SingingParams : Type 0 where
  pub enter_frames : ℕ
  pub enter_threshold : ℕ
  pub exit_frames : ℕ
  pub exit_threshold : ℕ
  pub local_frames : ℕ
  pub local_threshold : ℕ

pub data AudioClass : Type 0 where
  speech singing : AudioClass

pub record AudioClassDecision : Type 0 where
  pub audio_class : AudioClass
  pub confidence : ℕ
  pub revision : ℕ

-- `history_frames` is the deques' maxlen.
pub record SingingTracker : Type 0 where
  pub params : SingingParams
  pub history_frames : ℕ
  pub scores : List ℕ
  pub states : List Bool
  pub frames_seen : ℕ
  pub is_singing : Bool
  pub last_score : Option ℕ

infixl 5 ◌>>=◌
abbrev pub ◌>>=◌ : {A B : Type 0} → Option A → (A → Option B) → Option B
none >>= f = none
some a >>= f = f a

abbrev pub reverse : List ℕ → List ℕ
reverse [] = []
reverse (x ∷ xs) = reverse xs ++ x ∷ []

-- __init__
abbrev pub new : SingingParams → ℕ → SingingTracker
new params history_frames = record {
  params = params;
  history_frames = history_frames;
  scores = [];
  states = [];
  frames_seen = 0;
  is_singing = false;
  last_score = none;
}

module _ (mean : List ℕ → ℕ) (confidence : AudioClass → ℕ → ℕ) where
  unfoldable pub recent_mean : ℕ → List ℕ → ℕ
  recent_mean count scores = mean (take count scores)

  -- The state after a frame, from the state before it
  unfoldable pub switch : SingingParams → ℕ → List ℕ → Bool → Bool
  unfolding recent_mean
  switch p frames_seen scores before =
      if not before
      then leb p.enter_frames frames_seen
        && leb p.enter_threshold (recent_mean p.enter_frames scores)
      else not (ltb (recent_mean p.exit_frames scores) p.exit_threshold)

  unfoldable pub step : ℕ → SingingTracker → SingingTracker
  unfolding switch
  step probability t =
      let scores = take t.history_frames (probability ∷ t.scores) in
      let is_singing = switch t.params (t.frames_seen + 1) scores t.is_singing in
      record t {
        scores = scores;
        states = take t.history_frames (is_singing ∷ t.states);
        frames_seen = t.frames_seen + 1;
        is_singing = is_singing;
        last_score = some probability;
      }

  -- `observe`, for the scores of the frames
  unfoldable pub observe : List ℕ → SingingTracker → SingingTracker
  observe [] t = t
  observe (probability ∷ more) t = observe more (step probability t)

  unfoldable pub offset : SingingTracker → ℕ → ℕ → Option ℕ
  offset t frame_count history =
      if ltb t.frames_seen frame_count
      then none
      else if leb history (t.frames_seen - frame_count)
      then none
      else some (t.frames_seen - frame_count)

  unfoldable pub state_after : SingingTracker → ℕ → Option Bool
  unfolding offset
  state_after t frame_count =
      if frame_count == 0
      then some false
      else do o ← offset t frame_count (length t.states); get_elem? t.states o

  unfoldable pub local_score : SingingTracker → ℕ → Option ℕ
  unfolding offset
  local_score t frame_count = if frame_count == 0 then some 0 else do
    o ← offset t frame_count (length t.scores)
    some (mean (reverse (take t.params.local_frames (drop o t.scores))))

  unfoldable pub ready : SingingTracker → ℕ → Bool
  ready t sample = leb (complete_frames sample) t.frames_seen

  unfoldable pub decide : SingingParams → ℕ → Bool → AudioClassDecision
  decide p score state =
      let c : AudioClass = if state && leb p.local_threshold score then singing else speech in
      record { audio_class = c; confidence = confidence c score; revision = 0 }

  unfoldable pub evaluate : SingingTracker → ℕ → Option AudioClassDecision
  unfolding state_after local_score decide complete_frames
  evaluate t sample = do
    score ← local_score t (complete_frames sample)
    state ← state_after t (complete_frames sample)
    some (decide t.params score state)
