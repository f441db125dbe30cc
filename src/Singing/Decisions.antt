-- ===== src/Singing/Decisions.antt =====
-- The decisions of `SingingTracker` (tea_asr/singing.py) against the label that is said without its history.
use tea_asr_service.Prelude.{
  take-take, ℕ, zero, suc, ◌+◌, ◌-◌, ◌≤◌, ◌<◌, ◌≡◌, refl, sym, ap, ap₂, subst, ◌∙◌, inl, inr, Bool,
  false, Bool-cases, some, List, [], ◌∷◌, ◌++◌, ◌==◌, length, take, drop, get_elem?, length-take,
  length-drop, arith, append_assoc, append-nil, length-append, take-append-drop,
}
use tea_asr_service.Singing.Tracker.{
  complete_frames, SingingParams, AudioClass, SingingTracker, reverse, new, step, observe, offset,
  state_after, local_score, decide, evaluate,
}
use tea_asr_service.Singing.Reference.{state, states, label, Follows, observe-Follows, take-nil}

module _ (mean : List ℕ → ℕ) (confidence : AudioClass → ℕ → ℕ) where
  get_elem?-states :
      (p : SingingParams) (i : ℕ) (frames : List ℕ)
      → i < length frames
      → get_elem? (states mean confidence p frames) i
        ≡ some (state mean confidence p (drop i frames))
  get_elem?-states p i [] h = absurd (omega (arith, h))
  get_elem?-states p zero (x ∷ frames) h = refl
  get_elem?-states p (suc i) (x ∷ frames) h = get_elem?-states p i frames (omega (arith, h))

  get_elem?-take :
      {A : Type 0} (i n : ℕ) (xs : List A) → i < n → get_elem? (take n xs) i ≡ get_elem? xs i
  get_elem?-take i zero xs h = absurd (omega (arith, h))
  get_elem?-take i (suc n) [] h = refl
  get_elem?-take zero (suc n) (x ∷ xs) h = refl
  get_elem?-take (suc i) (suc n) (x ∷ xs) h = get_elem?-take i n xs (omega (arith, h))

  take-drop-take :
      (m i n : ℕ) (xs : List ℕ) → i + m ≤ n → take m (drop i (take n xs)) ≡ take m (drop i xs)
  take-drop-take m zero n xs h = take-take m n xs (omega (arith, h))
  take-drop-take m (suc i) zero xs h = absurd (omega (arith, h))
  take-drop-take m (suc i) (suc n) [] h = refl
  take-drop-take m (suc i) (suc n) (x ∷ xs) h = take-drop-take m i n xs (omega (arith, h))

  length-states :
      (p : SingingParams) (frames : List ℕ)
      → length (states mean confidence p frames) ≡ length frames
  length-states p [] = refl
  length-states p (x ∷ frames) = ap suc (length-states p frames)

  label-cons :
      (p : SingingParams) (frames : List ℕ)
      → 0 < length frames
      → label mean confidence p frames
        ≡ decide mean confidence p
            (mean (reverse (take p.local_frames frames)))
            (state mean confidence p frames)
  label-cons p [] h = absurd (omega (arith, h))
  label-cons p (x ∷ frames) h = refl

  drop-all : (xs : List ℕ) → drop (length xs) xs ≡ []
  drop-all [] = refl
  drop-all (x ∷ xs) = drop-all xs

  offset_late :
      (t : SingingTracker) (n history seen : ℕ)
      → t.frames_seen ≡ seen
      → n ≤ seen
      → seen - n < history
      → offset mean confidence t n history ≡ some (seen - n)
  unfolding offset
  offset_late t n history seen e le kept = rw e (ground arith)

  local_score_late :
      (n : ℕ) (frames : List ℕ) (t : SingingTracker)
      → Follows mean confidence frames t
      → (n == 0) ≡ false
      → n ≤ length frames
      → length frames - n + t.params.local_frames ≤ t.history_frames
      → length frames - n < t.history_frames
      → local_score mean confidence t n
        ≡ some (mean (reverse (take t.params.local_frames (drop (length frames - n) frames))))
  unfolding local_score
  local_score_late n frames t f some' le room kept =
      let late = length frames - n in
      let fits : late < length t.scores = ground (
        arith,
        ap (λ (s : List ℕ). length s) f.scored,
        length-take t.history_frames frames,
        some',
      ) in
      simp (some', offset_late t n (length t.scores) (length frames) f.seen le fits)
        (ap (λ s. some (mean (reverse (take t.params.local_frames (drop late s))))) f.scored
          ∙ ap (λ s. some (mean (reverse s)))
              (take-drop-take t.params.local_frames late t.history_frames frames room))

  state_after_late :
      (n : ℕ) (frames : List ℕ) (t : SingingTracker)
      → Follows mean confidence frames t
      → (n == 0) ≡ false
      → n ≤ length frames
      → length frames - n < t.history_frames
      → state_after mean confidence t n
        ≡ some (state mean confidence t.params (drop (length frames - n) frames))
  unfolding state_after
  state_after_late n frames t f some' le kept =
      let late = length frames - n in
      let all = states mean confidence t.params frames in
      let fits : late < length t.states = ground (
        arith,
        ap (λ (s : List Bool). length s) f.stated,
        length-take t.history_frames all,
        length-states t.params frames,
        some',
      ) in
      simp (some', offset_late t n (length t.states) (length frames) f.seen le fits)
        (ap (λ s. get_elem? s late) f.stated
          ∙ get_elem?-take late t.history_frames all kept
          ∙ get_elem?-states t.params late frames (ground (arith, some', le)))

  -- The label mean confidence at the first `n` of the frames
  evaluate-Follows :
      (sample : ℕ) (frames : List ℕ) (t : SingingTracker)
      → Follows mean confidence frames t
      → let late = length frames - complete_frames sample in
        complete_frames sample ≤ length frames
        → late + t.params.local_frames ≤ t.history_frames
        → late < t.history_frames
        → evaluate mean confidence t sample
          ≡ some (label mean confidence t.params (drop late frames))
  unfolding evaluate
  evaluate-Follows sample frames t f le room kept =
      let n = complete_frames sample in
      let late = length frames - n in
      elim (Bool-cases (n == 0)) [
        | inl zero' ↦
            let all_late : late ≡ length frames = ground (arith, zero') in
            rw (all_late, drop-all frames) (unfold local_score state_after in simp zero' refl)
        | inr some' ↦
            simp
              (
                local_score_late n frames t f some' le room kept,
                state_after_late n frames t f some' le kept,
              )
              (ap some (
                sym (
                  label-cons t.params (drop late frames)
                    (ground (arith, some', le, length-drop late frames)))))
      ]

  reverse-append : (xs ys : List ℕ) → reverse (xs ++ ys) ≡ reverse ys ++ reverse xs
  reverse-append [] ys = sym (append-nil (reverse ys))
  reverse-append (x ∷ xs) ys =
      ap (λ t. t ++ x ∷ []) (reverse-append xs ys) ∙ append_assoc (reverse ys) (reverse xs) (x ∷ [])

  length-reverse : (xs : List ℕ) → length (reverse xs) ≡ length xs
  length-reverse [] = refl
  length-reverse (x ∷ xs) = omega (arith, length-append (reverse xs) (x ∷ []), length-reverse xs)

  drop-length_append : (xs ys : List ℕ) → drop (length xs) (xs ++ ys) ≡ ys
  drop-length_append [] ys = refl
  drop-length_append (x ∷ xs) ys = drop-length_append xs ys

  drop-reverse : (n : ℕ) (xs : List ℕ) → drop (length xs - n) (reverse xs) ≡ reverse (take n xs)
  drop-reverse n xs =
      let later = reverse (drop n xs) in
      let count : length xs - n ≡ length later =
        omega (arith, length-reverse (drop n xs), length-drop n xs) in
      let parts : reverse xs ≡ later ++ reverse (take n xs) =
        ap reverse (sym (take-append-drop n xs)) ∙ reverse-append (take n xs) (drop n xs) in
      ap₂ (λ m t. drop m t) count parts ∙ drop-length_append later (reverse (take n xs))

  observe-params :
      (more : List ℕ) (t : SingingTracker)
      → ((observe mean confidence more t).params ≡ t.params)
        × ((observe mean confidence more t).history_frames ≡ t.history_frames)
  unfolding observe step
  observe-params [] t = (refl, refl)
  observe-params (x ∷ more) t = observe-params more (step mean confidence x t)

  -- A decision at a sample uses the frames that are complete there, and those only, however many more
  -- have been observed since, as long as the history still has the last of them: no error is raised,
  -- and the label mean confidence is the one that these frames alone give.
  pub evaluate-observe :
      (p : SingingParams) (history_frames sample : ℕ) (scores : List ℕ)
      → p.enter_frames ≤ history_frames
      → p.exit_frames ≤ history_frames
      → complete_frames sample ≤ length scores
      → length scores - complete_frames sample + p.local_frames ≤ history_frames
      → length scores - complete_frames sample < history_frames
      → evaluate mean confidence (observe mean confidence scores (new p history_frames)) sample
        ≡ some (label mean confidence p (reverse (take (complete_frames sample) scores)))
  evaluate-observe p history_frames sample scores enters exits le room kept =
      let t = observe mean confidence scores (new p history_frames) in
      let start : Follows mean confidence [] (new p history_frames) = record {
        scored = sym (take-nil mean confidence history_frames);
        stated = sym (take-nil mean confidence history_frames);
        seen = refl;
        current = refl;
        enters = enters;
        exits = exits;
      } in
      let f =
        subst (λ s. Follows mean confidence s t) (append-nil (reverse scores))
          (observe-Follows mean confidence scores [] (new p history_frames) start) in
      let same = observe-params scores (new p history_frames) in
      let n = length-reverse scores in
      evaluate-Follows sample (reverse scores) t f (omega (arith, le, n))
        (omega (arith, room, n, same.1, ap (λ (q : SingingParams). q.local_frames) same.0))
        (omega (arith, kept, n, same.1))
      ∙ ap some (
          ap₂ (λ q s. label mean confidence q s) same.0
            (ap (λ m. drop (m - complete_frames sample) (reverse scores)) n
              ∙ drop-reverse (complete_frames sample) scores))
