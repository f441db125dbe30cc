-- ===== src/Stable/Tracker.antt =====
-- `StablePrefixTracker` of tea_asr/stable.py.
use tea_asr_service.Prelude.{
  ℕ, zero, suc, ◌-◌, ◌≡◌, refl, sym, inl, inr, Bool, true, false, not, ◌||◌, Bool-cases, Option,
  none, some, List, [], ◌∷◌, ◌++◌, append-nil, map, ltb, leb, if◌then◌else◌, length, drop,
}
use tea_asr_service.Translation.Response.{starts_with}
use tea_asr_service.Stable.Chars.{Unicode}
use tea_asr_service.Stable.Cuts.{common_prefix_length, is_safe_cut}
use tea_asr_service.Stable.View.{
  ComparisonView, comparison_view, comparison_key, boundary, project_surface,
}
use tea_asr_service.Stable.Alignment.{alignment_end}

pub data StableState : Type 0 where
  opened final diverged abandoned : StableState

pub record StableUpdate : Type 0 where
  pub text : List ℕ
  pub state : StableState
  pub diverged_chars : ℕ

-- The history is oldest first.
pub record StablePrefixTracker : Type 0 where
  pub agreement : ℕ
  pub history : List (List ℕ)
  pub text : List ℕ
  pub closed : Bool

-- `none` is the ValueError.
unfoldable pub tracker : ℕ → Option StablePrefixTracker
tracker agreement =
    if ltb agreement 2
    then none
    else some (record { agreement = agreement; history = []; text = []; closed = false })

abbrev pub keys : List ComparisonView → List (List ℕ)
keys = map (λ v. v.key)

abbrev pub any_departs : List ℕ → List ComparisonView → Bool
any_departs floor [] = false
any_departs floor (v ∷ views) = not (starts_with floor v.key) || any_departs floor views

abbrev pub last_view : ComparisonView → List ComparisonView → ComparisonView
last_view v [] = v
last_view v (w ∷ views) = last_view w views

module _ (u : Unicode) where
  abbrev pub unsafe_at : List ℕ → Option ℕ → Bool
  unsafe_at hypothesis none = true
  unsafe_at hypothesis (some offset) = not (is_safe_cut u (hypothesis ∷ []) offset)

  abbrev pub any_unsafe : ℕ → List (List ℕ) → Bool
  any_unsafe length' [] = false
  any_unsafe length' (hypothesis ∷ hypotheses) =
      unsafe_at hypothesis (boundary (comparison_view u hypothesis) length')
      || any_unsafe length' hypotheses

  abbrev pub newest : List ComparisonView → ComparisonView
  newest [] = comparison_view u []
  newest (v ∷ views) = last_view v views

  -- The loop over the lengths, from the longest down to more than `floor`: what is added
  unfoldable pub addition_from : List (List ℕ) → ℕ → ℕ → List ℕ
  addition_from hypotheses floor zero = []
  addition_from hypotheses floor (suc n) =
      let shorter = addition_from hypotheses floor n in
      let views = map (comparison_view u) hypotheses in
      if leb (suc n) floor
      then []
      else if any_unsafe (suc n) hypotheses
      then shorter
      else project_surface (newest views) views floor (suc n)

  -- What `observe` adds to the text, when enough hypotheses are at hand
  unfoldable pub addition : List ℕ → List (List ℕ) → List ℕ
  unfolding addition_from
  addition text hypotheses =
      let views = map (comparison_view u) hypotheses in
      let floor = comparison_key u text in
      if any_departs floor views
      then []
      else addition_from hypotheses (length floor) (common_prefix_length (keys views))

  grow : StablePrefixTracker → List ℕ → StablePrefixTracker × Option StableUpdate
  grow t [] = (t, none)
  grow t (c ∷ cs) =
      let text = t.text ++ c ∷ cs in
      (record t { text = text }, some (record { text = text; state = opened; diverged_chars = 0 }))

  unfoldable pub observe : List ℕ → StablePrefixTracker → StablePrefixTracker × Option StableUpdate
  unfolding addition grow
  observe hypothesis t =
      let history = t.history ++ hypothesis ∷ [] in
      let recent = drop (length history - t.agreement) history in
      let t' = record t { history = recent } in
      if t.closed
      then (t, none)
      else if ltb (length recent) t.agreement
      then (t', none)
      else grow t' (addition t.text recent)

  -- The first place from `i` on that is a boundary, `k` places before the end of the key
  unfoldable pub next_boundary : ComparisonView → ℕ → ℕ → ℕ
  next_boundary v i zero = i
  next_boundary v i (suc k) =
      let later = next_boundary v (suc i) k in
      elim (boundary v i) [ none ↦ later | some offset ↦ i ]

  ends : StablePrefixTracker → List ℕ → StableState → ℕ → StablePrefixTracker × StableUpdate
  ends t text state diverged_chars = (
    record t { text = text; closed = true },
    record { text = text; state = state; diverged_chars = diverged_chars },
  )

  or_end : List ℕ → Option ℕ → ℕ
  or_end text none = length text
  or_end text (some offset) = offset

  diverge : StablePrefixTracker → List ℕ → StablePrefixTracker × StableUpdate
  unfolding ends next_boundary or_end
  diverge t text =
      let committed_key = comparison_key u t.text in
      let v = comparison_view u text in
      let end_key = alignment_end committed_key v.key in
      let end = or_end text (boundary v (next_boundary v end_key (length v.key - end_key))) in
      ends t (t.text ++ drop end text) diverged
        (length committed_key - common_prefix_length (committed_key ∷ v.key ∷ []))

  settle : StablePrefixTracker → List ℕ → Option ℕ → StablePrefixTracker × StableUpdate
  unfolding diverge ends
  settle t text none = diverge t text
  settle t text (some end) = ends t (t.text ++ drop end text) final 0

  unfoldable pub finalize : List ℕ → StablePrefixTracker → StablePrefixTracker × StableUpdate
  unfolding settle
  finalize text t =
      let committed_key = comparison_key u t.text in
      let v = comparison_view u text in
      if starts_with committed_key v.key
      then settle t text (boundary v (length committed_key))
      else diverge t text

  unfoldable pub abandon : StablePrefixTracker → StablePrefixTracker × StableUpdate
  unfolding ends
  abandon t = ends t t.text abandoned 0

-- The text goes on: `older` is its beginning.
abbrev pub Extends : List ℕ → List ℕ → Type 0
Extends older newer = (more : List ℕ) × (newer ≡ older ++ more)

-- Each update's text extends the text before it.
abbrev pub Growing : List ℕ → List StableUpdate → Type 0
Growing text [] = Unit
Growing text (up ∷ ups) = Extends text up.text × Growing up.text ups

abbrev told : Option StableUpdate → List StableUpdate
told none = []
told (some up) = up ∷ []

module _ (u : Unicode) where
  -- What becomes of the segment in the end
  pub data End : Type 0 where
    finalizes : (text : List ℕ) → End
    abandons : End

  unfoldable pub close : End → StablePrefixTracker → StablePrefixTracker × StableUpdate
  close (finalizes text) t = finalize u text t
  close abandons t = abandon u t

  -- The updates of a segment: of its partials, and of its end
  unfoldable pub updates : StablePrefixTracker → List (List ℕ) → End → List StableUpdate
  updates t [] end = (close end t).1 ∷ []
  updates t (hypothesis ∷ hypotheses) end =
      let (t', o) = observe u hypothesis t in told o ++ updates t' hypotheses end

  grow-Growing :
      (t : StablePrefixTracker) (more : List ℕ) (ups : List StableUpdate)
      → Growing (grow u t more).0.text ups
      → Growing t.text (told (grow u t more).1 ++ ups)
  unfolding grow
  grow-Growing t [] ups h = h
  grow-Growing t (c ∷ cs) ups h = ((c ∷ cs, refl), h)

  -- What is told before the updates goes with them.
  abbrev Goes : List ℕ → StablePrefixTracker × Option StableUpdate → Type 0
  Goes text r = (ups : List StableUpdate) → Growing r.0.text ups → Growing text (told r.1 ++ ups)

  observe-Goes :
      (hypothesis : List ℕ) (t : StablePrefixTracker) → Goes t.text (observe u hypothesis t)
  unfolding observe
  observe-Goes hypothesis t =
      let history = t.history ++ hypothesis ∷ [] in
      let recent = drop (length history - t.agreement) history in
      elim (Bool-cases t.closed) [
        | inl over ↦ simp over (λ ups h. h)
        | inr on ↦ elim (Bool-cases (ltb (length recent) t.agreement)) [
          | inl few ↦ simp (on, few) (λ ups h. h)
          | inr enough ↦
              simp (on, enough)
                (grow-Growing (record t { history = recent; closed = false })
                  (addition u t.text recent))
        ]
      ]

  settle-Extends :
      (t : StablePrefixTracker) (text : List ℕ) (o : Option ℕ)
      → Extends t.text (settle u t text o).1.text
  unfolding settle diverge ends
  settle-Extends t text none = (_, refl)
  settle-Extends t text (some end) = (drop end text, refl)

  close-Extends : (end : End) (t : StablePrefixTracker) → Extends t.text (close end t).1.text
  unfolding close finalize abandon ends diverge
  close-Extends (finalizes text) t =
      elim (Bool-cases (starts_with (comparison_key u t.text) (comparison_view u text).key)) [
        | inl same ↦ simp same (
            settle-Extends t text
              (boundary (comparison_view u text) (length (comparison_key u t.text))))
        | inr apart ↦ simp apart (_, refl)
      ]
  close-Extends abandons t = ([], sym (append-nil t.text))

  -- Whatever the model writes while a segment is spoken, and however the segment ends: each update's
  -- text extends the text before it, so what is on screen is never taken back.
  pub updates-Growing :
      (t : StablePrefixTracker) (hypotheses : List (List ℕ)) (end : End)
      → Growing t.text (updates t hypotheses end)
  unfolding updates
  updates-Growing t [] end = (close-Extends end t, tt)
  updates-Growing t (hypothesis ∷ hypotheses) end =
      observe-Goes hypothesis t (updates (observe u hypothesis t).0 hypotheses end)
        (updates-Growing (observe u hypothesis t).0 hypotheses end)
