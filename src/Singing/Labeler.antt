-- ===== src/Singing/Labeler.antt =====
-- `SegmentLabeler` of tea_asr/singing.py: the label of one segment, and its one revision.
use tea_asr_service.Prelude.{
  ℕ, ◌+◌, ◌≡◌, refl, sym, subst, inl, inr, Bool, true, false, not, ◌&&◌, ◌||◌, Bool-cases, Option,
  Option-cases, none, some, List, [], ◌∷◌, ◌++◌, append-nil, append_assoc, ltb, if◌then◌else◌,
  arith,
}
use tea_asr_service.Singing.Tracker.{
  AudioClass, speech, singing, AudioClassDecision, SingingTracker, complete_frames, local_score,
  state_after, decide, ready, evaluate,
}

pub record SegmentLabeler : Type 0 where
  pub early_sample : ℕ
  pub revision_sample : ℕ
  pub decision : Option AudioClassDecision
  pub revised : Bool

-- __init__, for decisions that are due so many samples after the start
abbrev pub labeler : ℕ → ℕ → ℕ → SegmentLabeler
labeler start_sample early revision = record {
  early_sample = start_sample + early;
  revision_sample = start_sample + revision;
  decision = none;
  revised = false;
}

abbrev pub same_class : AudioClass → AudioClass → Bool
same_class speech speech = true
same_class singing singing = true
same_class _ _ = false

abbrev pub due : SegmentLabeler → ℕ
due l = elim l.decision [ none ↦ l.early_sample | some d ↦ l.revision_sample ]

-- The sample of the next evaluation
unfoldable pub due_at : SegmentLabeler → ℕ → Bool → ℕ
due_at l stream_sample closing =
    if closing && ltb stream_sample (due l) then stream_sample else due l

-- The candidate becomes the label, or confirms or revises it.
unfoldable pub settle :
    SegmentLabeler
    → Option AudioClassDecision
    → AudioClassDecision
    → SegmentLabeler × Option AudioClassDecision
settle l none candidate = (record l { decision = some candidate }, some candidate)
settle l (some d) candidate =
    if same_class candidate.audio_class d.audio_class
    then (record l { revised = true }, none)
    else (
      record l { revised = true; decision = some (record candidate { revision = 1 }) },
      some (record candidate { revision = 1 }),
    )

module _ (mean : List ℕ → ℕ) (confidence : AudioClass → ℕ → ℕ) where
  -- `none` is a ValueError of the tracker.
  unfoldable pub update :
      SingingTracker
      → ℕ
      → Bool
      → SegmentLabeler
      → Option (SegmentLabeler × Option AudioClassDecision)
  unfolding settle due_at
  update t stream_sample closing l =
      let at = due_at l stream_sample closing in
      if l.revised
      then some (l, none)
      else if ltb stream_sample at || not (ready mean confidence t at)
      then some (l, none)
      else elim (evaluate mean confidence t at) [
        | none ↦ none
        | some candidate ↦ some (settle l l.decision candidate)
      ]

abbrev Updated : Type 0
Updated = Option (SegmentLabeler × Option AudioClassDecision)

abbrev next : Updated → SegmentLabeler → SegmentLabeler
next none l = l
next (some (l', o)) l = l'

abbrev told : Updated → List AudioClassDecision
told none = []
told (some (l', none)) = []
told (some (l', some d)) = d ∷ []

-- A call of `update`, with the tracker as it is then
pub record Call : Type 0 where
  pub tracker : SingingTracker
  pub stream_sample : ℕ
  pub closing : Bool

-- One label of revision 0, and at most one more, of revision 1 and of the other class
abbrev pub Labels : List AudioClassDecision → Type 0
Labels [] = Unit
Labels (d ∷ []) = d.revision ≡ 0
Labels (d ∷ e ∷ []) =
    (d.revision ≡ 0) × (e.revision ≡ 1) × (same_class e.audio_class d.audio_class ≡ false)
Labels (d ∷ e ∷ f ∷ ds) = ⊥

-- What the labeler is after the labels
abbrev After : List AudioClassDecision → SegmentLabeler → Type 0
After [] l = (l.decision ≡ none) × (l.revised ≡ false)
After (d ∷ []) l = (l.decision ≡ some d) × (d.revision ≡ 0)
After (d ∷ e ∷ []) l =
    (l.revised ≡ true)
    × (d.revision ≡ 0)
    × (e.revision ≡ 1)
    × (same_class e.audio_class d.audio_class ≡ false)
After (d ∷ e ∷ f ∷ ds) l = ⊥

After-Labels : (ds : List AudioClassDecision) (l : SegmentLabeler) → After ds l → Labels ds
After-Labels [] l h = tt
After-Labels (d ∷ []) l h = h.1
After-Labels (d ∷ e ∷ []) l h = (h.1, h.2, h.3)
After-Labels (d ∷ e ∷ f ∷ ds) l h = h

module _ (mean : List ℕ → ℕ) (confidence : AudioClass → ℕ → ℕ) where
  evaluate-revision :
      (t : SingingTracker) (at : ℕ) (d : AudioClassDecision)
      → evaluate mean confidence t at ≡ some d
      → d.revision ≡ 0
  unfolding evaluate decide
  evaluate-revision t at d e =
      elim (Option-cases (local_score mean confidence t (complete_frames at))) [
        | inl none' ↦ ground (arith, none', e)
        | inr (score, scored) ↦
            elim (Option-cases (state_after mean confidence t (complete_frames at))) [
              | inl none' ↦ ground (arith, none', scored, e)
              | inr (state, stated) ↦ ground (arith, stated, scored, e)
            ]
      ]

  -- The rule for an update: nothing happens, or a candidate is settled.
  update_ind :
      (P : Updated → Type 0) (t : SingingTracker) (stream_sample : ℕ) (closing : Bool)
      (l : SegmentLabeler)
      → P none
      → P (some (l, none))
      → (l.revised ≡ false
          → (d : AudioClassDecision) → d.revision ≡ 0
          → P (some (settle l l.decision d)))
      → P (update mean confidence t stream_sample closing l)
  unfolding update
  update_ind P t stream_sample closing l raised nothing settled =
      let at = due_at l stream_sample closing in
      elim (Bool-cases l.revised) [
        | inl over ↦ simp over nothing
        | inr open' ↦ elim (Bool-cases (ltb stream_sample at || not (ready mean confidence t at))) [
          | inl waits ↦ simp (open', waits) nothing
          | inr now ↦ elim (Option-cases (evaluate mean confidence t at)) [
            | inl raises ↦ simp (open', now, raises) raised
            | inr (d, found) ↦
                simp (open', now, found) (settled open' d (evaluate-revision t at d found))
          ]
        ]
      ]

  update-After :
      (ds : List AudioClassDecision) (c : Call) (l : SegmentLabeler)
      → After ds l
      → let r = update mean confidence c.tracker c.stream_sample c.closing l in
        After (ds ++ told r) (next r l)
  unfolding settle
  update-After [] c l h =
      update_ind (λ r. After (told r) (next r l)) c.tracker c.stream_sample c.closing l h h
        (λ open' d new. simp h.0 (refl, new))
  update-After (d ∷ []) c l h =
      update_ind (λ r. After (d ∷ told r) (next r l)) c.tracker c.stream_sample c.closing l h h
        (λ open' e new. elim (Bool-cases (same_class e.audio_class d.audio_class)) [
          | inl same ↦ simp (h.0, same) (refl, h.1)
          | inr other ↦ simp (h.0, other) (refl, h.1, refl, refl)
        ])
  update-After (d ∷ e ∷ []) c l h =
      update_ind (λ r. After (d ∷ e ∷ told r) (next r l)) c.tracker c.stream_sample c.closing l h h
        (λ open' f new. ground (arith, open', h.0))
  update-After (d ∷ e ∷ f ∷ ds) c l h = h

  -- The labels that the calls give
  unfoldable pub labels : SegmentLabeler → List Call → List AudioClassDecision
  labels l [] = []
  labels l (c ∷ calls) =
      let r = update mean confidence c.tracker c.stream_sample c.closing l in
      told r ++ labels (next r l) calls

  labels-After :
      (ds : List AudioClassDecision) (l : SegmentLabeler) (calls : List Call)
      → After ds l
      → Labels (ds ++ labels l calls)
  unfolding labels
  labels-After ds l [] h = subst Labels (sym (append-nil ds)) (After-Labels ds l h)
  labels-After ds l (c ∷ calls) h =
      let r = update mean confidence c.tracker c.stream_sample c.closing l in
      subst Labels (append_assoc ds (told r) (labels (next r l) calls))
        (labels-After (ds ++ told r) (next r l) calls (update-After ds c l h))

  -- However often `update` is called, and however the tracker moves between: a segment has at most one
  -- label of revision 0 and then at most one more, of revision 1 and of the other class.
  pub labels-Labels :
      (start_sample early revision : ℕ) (calls : List Call)
      → Labels (labels (labeler start_sample early revision) calls)
  labels-Labels start_sample early revision calls =
      labels-After [] (labeler start_sample early revision) calls (refl, refl)
