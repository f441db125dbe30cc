-- ===== src/Repetition/Search.antt =====
-- The search of tea_asr/repetition.py at one place of a text: over the units, shortest first.
use tea_asr_service.Prelude.{
  ℕ, zero, suc, ◌+◌, ◌-◌, ◌≤◌, ◌<◌, min, max, ◌≡◌, refl, sym, ap, ◌∙◌, subst, inl, inr, Bool, false,
  Bool-cases, Option, List, ◌++◌, ltb, length, length-take, take, drop, take-append-drop, get_elem?,
  get_or, ◌==◌, if◌then◌else◌, arith,
}
use tea_asr_service.Repetition.{
  any, is_repeat_separator, repeat_ends, last_or, Limits, Found, nothing, preserved, matched,
  threshold, limit, can_trim_repeat_run, try_unit, find, upto, match_at,
}
use tea_asr_service.Repetition.Runs.{
  IsPositive, Ascends, Ascends-last, Ascends-get, get-last, repeat_ends-Ascends,
}
use tea_asr_service.Repetition.Copies.{Copies, repeat_ends-Copies, Copies-repeat_ends}
use tea_asr_service.Repetition.Matches.{
  Passes, IsRun, IsWhole, IsTrim, Sound, Passes-iff, limit-Keeps, limit-positive, IsFree-iff,
}

module _ (punctuation decimal : ℕ → Bool) (l : Limits) where
  -- A unit with which no run of too many copies starts is passed over.
  Sound-skip :
      (k : ℕ) (before : Option ℕ) (text : List ℕ) (found : Found)
      → ((e n : ℕ) → ¬ IsRun punctuation decimal l text (take k text) e n)
      → Sound punctuation decimal l (suc k) before text found
      → Sound punctuation decimal l k before text found
  Sound-skip k before text nothing not_here h = λ unit e n le is_run.
      elim (Bool-cases (k == length unit)) [
        | inl same ↦
            let size : length unit ≡ k = ground (arith, same) in
            let here : unit ≡ take k text = sym is_run.first ∙ ap (λ m. take m text) size in
            not_here e n (subst (λ u. IsRun punctuation decimal l text u e n) here is_run)
        | inr longer ↦ h unit e n (ground (arith, longer, le)) is_run
      ]
  Sound-skip k before text (preserved e) not_here h = h
  Sound-skip k before text (matched m r e) not_here h = h

  -- The ends of the copies of the unit of `k` characters that the text starts with
  module _ (before : Option ℕ) (k : ℕ) (text : List ℕ) (some' : 0 < k) (few : k ≤ 6)
      (le : k ≤ length text) where
    unit : List ℕ
    unit = take k text

    ends : List ℕ
    unfolding unit
    ends = repeat_ends punctuation decimal unit text

    size : length unit ≡ k
    unfolding unit
    size = omega (arith, length-take k text, le)

    starts : text ≡ unit ++ drop (length unit) text
    unfolding unit
    starts = rw size (sym (take-append-drop k text))

    ends-some : 0 < length ends
    unfolding ends repeat_ends
    ends-some = omega arith

    ends-IsWhole :
        any (is_repeat_separator punctuation decimal) unit ≡ false
        → IsWhole punctuation decimal l text unit (length ends)
    unfolding ends
    ends-IsWhole solid m e copies =
        Copies-repeat_ends punctuation decimal unit text m e (omega (arith, size, some')) solid
          starts copies

    goes : Ascends 0 (length text) ends
    unfolding ends unit
    goes =
        repeat_ends-Ascends punctuation decimal unit text (omega (arith, size, some'))
          (omega (arith, size, le))

    ends-IsRun :
        any (is_repeat_separator punctuation decimal) unit ≡ false
        → Passes punctuation decimal l unit (length ends)
        → IsRun punctuation decimal l text unit (last_or 0 ends) (length ends)
    unfolding ends unit
    ends-IsRun solid many =
        let any_end : 0 < length ends = omega (arith, ends-some) in
        let count : suc (length ends - 1) ≡ length ends = omega (arith, any_end) in
        record {
          some_unit = omega (arith, size, some');
          short = omega (arith, size, few);
          solid = solid;
          first = rw size refl;
          inside = (Ascends-last 0 (length text) 0 ends (omega arith) goes any_end).1;
          run =
              subst (λ n. Copies punctuation decimal unit n (take (last_or 0 ends) text)) count
                (subst (λ e. Copies punctuation decimal unit (suc (length ends - 1)) (take e text))
                  (get-last 0 ends any_end)
                  (repeat_ends-Copies punctuation decimal unit text (length ends - 1)
                    (omega (arith, size, some')) starts (omega (arith, any_end))));
          many = many;
        }

    found_here : Found
    unfolding ends unit
    found_here =
        if can_trim_repeat_run punctuation decimal before (get_elem? text (last_or 0 ends)) unit
        then matched (length unit) (get_or ends (limit punctuation decimal l unit - 1) 0)
            (last_or 0 ends)
        else preserved (last_or 0 ends)

    found_here-Sound :
        IsPositive l
        → any (is_repeat_separator punctuation decimal) unit ≡ false
        → max (threshold punctuation decimal l unit) (limit punctuation decimal l unit)
          < length ends
        → Sound punctuation decimal l k before text found_here
    unfolding found_here
    found_here-Sound p solid long =
        let n = limit punctuation decimal l unit in
        let e = last_or 0 ends in
        let r = get_or ends (n - 1) 0 in
        let some_unit : 0 < length unit = omega (arith, size, some') in
        let positive = limit-positive punctuation decimal l unit p in
        let is_run =
          ends-IsRun solid
            ((Passes-iff punctuation decimal l unit (length ends) some_unit).1 long) in
        let kept =
          Ascends-get 0 (length text) 0 (n - 1) ends goes (omega (arith, long, positive)) in
        let copies : Copies punctuation decimal unit (suc (n - 1)) (take r text) =
          unfold ends in
          repeat_ends-Copies punctuation decimal unit text (n - 1) some_unit starts
            (omega (arith, long, positive)) in
        elim (Bool-cases (can_trim_repeat_run punctuation decimal before (get_elem? text e) unit)) [
          | inl can ↦ rw can (
              subst
                (λ u.
                  IsTrim punctuation decimal l before text r e
                    (record { unit = u; unit_length = length unit; removed_chars = e - r }))
                (sym is_run.first)
                (record {
                  copies = length ends;
                  run = is_run;
                  whole = ends-IsWhole solid;
                  free = (IsFree-iff punctuation decimal l before (get_elem? text e) unit).0 can;
                  left = n;
                  keeps = limit-Keeps punctuation decimal l unit some_unit;
                  kept =
                      subst (λ m. Copies punctuation decimal unit m (take r text))
                        (omega (arith, positive)) copies;
                  some_kept = kept.0;
                  some_removed = omega (arith, kept.1);
                  removed = omega (arith, kept.1);
                  unit_length = refl;
                }))
          | inr bound ↦ rw bound (record {
            unit = unit;
            copies = length ends;
            run = is_run;
            whole = ends-IsWhole solid;
            bound = λ free. absurd (
                ground (
                  arith,
                  bound,
                  (IsFree-iff punctuation decimal l before (get_elem? text e) unit).1 free,
                ));
            some_left = omega (arith, kept.0, kept.1);
          })
        ]

    try_unit-Sound :
        (rest : Found)
        → IsPositive l
        → Sound punctuation decimal l (suc k) before text rest
        → Sound punctuation decimal l k before text
            (try_unit punctuation decimal l before text (take k text) rest)
    unfolding try_unit unit ends found_here
    try_unit-Sound rest p h =
        let separators = any (is_repeat_separator punctuation decimal) unit in
        let most = max (threshold punctuation decimal l unit) (limit punctuation decimal l unit) in
        elim (Bool-cases separators) [
          | inl apart ↦ rw apart (
              Sound-skip k before text rest
                (λ e n is_run. absurd (ground (arith, apart, is_run.solid))) h)
          | inr solid ↦ elim (Bool-cases (ltb most (length ends))) [
            | inl long ↦ rw (solid, long) (found_here-Sound p solid (ground (arith, long)))
            | inr few' ↦
                rw (solid, few')
                  (Sound-skip k before text rest
                    (λ e n is_run.
                      let fewer : length ends ≤ most = ground (arith, few') in
                      absurd (
                        omega (
                          arith,
                          fewer,
                          (Passes-iff punctuation decimal l unit n is_run.some_unit).0 is_run.many,
                          ends-IsWhole solid n e is_run.run,
                        )))
                    h)
          ]
        ]

  find-Sound :
      (before : Option ℕ) (text : List ℕ) (k m : ℕ)
      → IsPositive l
      → 0 < k
      → k + m ≡ min 6 (length text) + 1
      → Sound punctuation decimal l k before text
          (find punctuation decimal l before text (upto k m))
  unfolding find
  find-Sound before text k zero p some' e = λ unit end n le is_run.
      absurd
        (omega (arith, le, e, is_run.short, length-take (length unit) text, ap length is_run.first))
  find-Sound before text k (suc m) p some' e =
      try_unit-Sound before k text some' (omega (arith, e)) (omega (arith, e))
        (find punctuation decimal l before text (upto (suc k) m)) p
        (find-Sound before text (suc k) m p (omega arith) (omega (arith, e)))

  pub match_at-Sound :
      (before : Option ℕ) (text : List ℕ)
      → IsPositive l
      → Sound punctuation decimal l 1 before text (match_at punctuation decimal l before text)
  unfolding match_at
  match_at-Sound before text p =
      find-Sound before text 1 (min 6 (length text)) p (omega arith) (omega arith)
