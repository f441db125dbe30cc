-- ===== src/Singing/Reference.antt =====
-- The label of `SingingTracker` (tea_asr/singing.py) said without its history: a function of the frames
-- that are complete at a sample.
use tea_asr_service.Prelude.{
  take-take, ℕ, zero, suc, ◌+◌, ◌≤◌, ◌≡◌, refl, sym, ap, ap₂, subst, ◌∙◌, Bool, false, List, [],
  ◌∷◌, ◌++◌, length, take, arith, append_assoc,
}
use tea_asr_service.Singing.Tracker.{
  SingingParams, AudioClass, AudioClassDecision, SingingTracker, reverse, recent_mean, switch, step,
  observe, decide,
}

module _ (mean : List ℕ → ℕ) (confidence : AudioClass → ℕ → ℕ) where
  -- The state after the frames, the newest first
  abbrev pub state : SingingParams → List ℕ → Bool
  state p [] = false
  state p (x ∷ xs) = switch mean confidence p (length (x ∷ xs)) (x ∷ xs) (state p xs)

  -- The states after each of the frames, the newest first
  abbrev pub states : SingingParams → List ℕ → List Bool
  states p [] = []
  states p (x ∷ xs) = state p (x ∷ xs) ∷ states p xs

  -- The label that the frames give, the newest first
  abbrev pub label : SingingParams → List ℕ → AudioClassDecision
  label p [] = decide mean confidence p 0 false
  label p (x ∷ xs) =
      decide mean confidence p (mean (reverse (take p.local_frames (x ∷ xs)))) (state p (x ∷ xs))

  pub take-nil : {A : Type 0} (n : ℕ) → take {A = A} n [] ≡ []
  take-nil zero = refl
  take-nil (suc n) = refl

  take-cons_take :
      {A : Type 0} (n : ℕ) (x : A) (xs : List A) → take n (x ∷ take n xs) ≡ take n (x ∷ xs)
  take-cons_take zero x xs = refl
  take-cons_take (suc n) x xs = ap (λ t. x ∷ t) (take-take n (suc n) xs (omega arith))

  -- What the tracker holds after the frames, the newest first: as much of them as its history takes.
  pub record Follows (frames : List ℕ) (t : SingingTracker) : Type 0 where
    pub scored : t.scores ≡ take t.history_frames frames
    pub stated : t.states ≡ take t.history_frames (states t.params frames)
    pub seen : t.frames_seen ≡ length frames
    pub current : t.is_singing ≡ state t.params frames
    pub enters : t.params.enter_frames ≤ t.history_frames
    pub exits : t.params.exit_frames ≤ t.history_frames

  switch_trimmed :
      (p : SingingParams) (n m : ℕ) (frames : List ℕ) (before : Bool)
      → p.enter_frames ≤ n
      → p.exit_frames ≤ n
      → switch mean confidence p m (take n frames) before ≡ switch mean confidence p m frames before
  unfolding switch recent_mean
  switch_trimmed p n m frames before enters exits =
      rw (take-take p.enter_frames n frames enters, take-take p.exit_frames n frames exits) refl

  step-Follows :
      (frames : List ℕ) (x : ℕ) (t : SingingTracker)
      → Follows frames t
      → Follows (x ∷ frames) (step mean confidence x t)
  unfolding step
  step-Follows frames x t f =
      let n = t.history_frames in
      let trimmed : take n (x ∷ t.scores) ≡ take n (x ∷ frames) =
        ap (λ s. take n (x ∷ s)) f.scored ∙ take-cons_take n x frames in
      let after : switch mean confidence t.params (t.frames_seen + 1) (take n (x ∷ t.scores))
            t.is_singing
          ≡ state t.params (x ∷ frames) =
        ap₂ (λ m s. switch mean confidence t.params m s t.is_singing) (omega (arith, f.seen))
          trimmed
        ∙ switch_trimmed t.params n (suc (length frames)) (x ∷ frames) t.is_singing f.enters f.exits
        ∙ ap (switch mean confidence t.params (suc (length frames)) (x ∷ frames)) f.current in
      record {
        scored = trimmed;
        stated =
            ap₂ (λ b s. take n (b ∷ s)) after f.stated
            ∙ take-cons_take n (state t.params (x ∷ frames)) (states t.params frames);
        seen = omega (arith, f.seen);
        current = after;
        enters = f.enters;
        exits = f.exits;
      }

  pub observe-Follows :
      (more frames : List ℕ) (t : SingingTracker)
      → Follows frames t
      → Follows (reverse more ++ frames) (observe mean confidence more t)
  unfolding observe
  observe-Follows [] frames t f = f
  observe-Follows (x ∷ more) frames t f =
      subst (λ s. Follows s (observe mean confidence more (step mean confidence x t)))
        (sym (append_assoc (reverse more) (x ∷ []) frames))
        (observe-Follows more (x ∷ frames) (step mean confidence x t) (step-Follows frames x t f))
