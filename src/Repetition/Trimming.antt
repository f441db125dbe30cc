-- ===== src/Repetition/Trimming.antt =====
-- What tea_asr/repetition.py leaves of a text, and what it says it removed.
use mathlib.Core.List.{Sublist, nil-sublist}
use mathlib.Core.List.Sublist
use tea_asr_service.Prelude.{
  ℕ, zero, suc, ◌+◌, ◌-◌, ◌≤◌, min, ◌≡◌, refl, sym, ap, ◌∙◌, subst, Bool, false, Option, none, some,
  List, [], ◌∷◌, ◌++◌, ltb, length, length-append, length-take, length-drop, take, drop, arith,
}
use tea_asr_service.Repetition.{
  TrimmedRepetition, Limits, Found, nothing, preserved, matched, copy_of, skip_of, trims_of,
  match_at, trim_from, trim_repetitions,
}
use tea_asr_service.Repetition.Runs.{IsPositive}
use tea_asr_service.Repetition.Matches.{Quiet, IsLeft, IsTrim, Sound}
use tea_asr_service.Repetition.Search.{match_at-Sound}

abbrev pub removed : List TrimmedRepetition → ℕ
removed [] = 0
removed (t ∷ ts) = t.removed_chars + removed ts

-- The character before what follows `text`
abbrev pub last_of : Option ℕ → List ℕ → Option ℕ
last_of before [] = before
last_of before (c ∷ cs) = last_of (some c) cs

module _ (punctuation decimal : ℕ → Bool) (l : Limits) where
  -- From the left, a character stays where no run of too many copies starts, a run stays whole for its
  -- neighbours, or a run is trimmed to its first copies; `before` is the character before the text.
  pub data Trims : Option ℕ → List ℕ → List ℕ → List TrimmedRepetition → Type 0 where
    ended : (before : Option ℕ) → Trims before [] [] []
    kept :
        (before : Option ℕ) (c : ℕ) (cs out : List ℕ) (ts : List TrimmedRepetition)
        → Quiet punctuation decimal l 1 (c ∷ cs)
        → Trims (some c) cs out ts
        → Trims before (c ∷ cs) (c ∷ out) ts
    left :
        (before : Option ℕ) (text out : List ℕ) (ts : List TrimmedRepetition) (e : ℕ)
        → IsLeft punctuation decimal l before text e
        → Trims (last_of before (take e text)) (drop e text) out ts
        → Trims before text (take e text ++ out) ts
    trimmed :
        (before : Option ℕ) (text out : List ℕ) (ts : List TrimmedRepetition) (r e : ℕ)
        (t : TrimmedRepetition)
        → IsTrim punctuation decimal l before text r e t
        → Trims (last_of before (take e text)) (drop e text) out ts
        → Trims before text (take r text ++ out) (t ∷ ts)

  Trims-removed :
      (before : Option ℕ) (text out : List ℕ) (ts : List TrimmedRepetition)
      → Trims before text out ts
      → length out + removed ts ≡ length text
  Trims-removed before text out ts (ended b) = omega arith
  Trims-removed before text out ts (kept b c cs o us quiet rest) =
      omega (arith, Trims-removed (some c) cs o us rest)
  Trims-removed before text out ts (left b x o us e h rest) = omega (
    arith,
    Trims-removed (last_of b (take e x)) (drop e x) o us rest,
    h.run.inside,
    length-append (take e x) o,
    length-take e x,
    length-drop e x,
  )
  Trims-removed before text out ts (trimmed b x o us r e t h rest) = omega (
    arith,
    Trims-removed (last_of b (take e x)) (drop e x) o us rest,
    h.run.inside,
    h.removed,
    length-append (take r x) o,
    length-take r x,
    length-drop e x,
  )

  -- Of the `n` next characters, `copy` stay, and the text behind them is trimmed.
  record Jumps (before : Option ℕ) (copy n : ℕ) (text out : List ℕ) (ts : List TrimmedRepetition)
      : Type 0 where
    rest : List ℕ
    joined : out ≡ take copy text ++ rest
    behind : Trims (last_of before (take n text)) (drop n text) rest ts

  at_match :
      (before : Option ℕ) (c n : ℕ) (cs out : List ℕ) (ts : List TrimmedRepetition) (found : Found)
      → Sound punctuation decimal l 1 before (c ∷ cs) found
      → n ≡ copy_of found + skip_of found
      → Jumps (some c) (copy_of found) n cs out ts
      → Trims before (c ∷ cs) (c ∷ out) (trims_of (c ∷ cs) found ++ ts)
  at_match before c zero cs out ts nothing h e j =
      subst (λ o. Trims before (c ∷ cs) (c ∷ o) ts) (sym j.joined)
        (kept before c cs j.rest ts h j.behind)
  at_match before c (suc n) cs out ts nothing h e j = absurd (omega (arith, e))
  at_match before c n cs out ts (preserved end) h e j =
      let size : end ≡ suc n = omega (arith, e, h.some_left) in
      let copy : end - 1 ≡ n = omega (arith, e) in
      subst (λ o. Trims before (c ∷ cs) (c ∷ o) ts)
        (sym (j.joined ∙ ap (λ m. take m cs ++ j.rest) copy))
        (left before (c ∷ cs) j.rest ts (suc n)
          (subst (IsLeft punctuation decimal l before (c ∷ cs)) size h) j.behind)
  at_match before c n cs out ts (matched k zero end) h e j = absurd (omega (arith, h.some_kept))
  at_match before c n cs out ts (matched k (suc r) end) h e j =
      let t : TrimmedRepetition = record {
        unit = take k (c ∷ cs);
        unit_length = k;
        removed_chars = end - suc r;
      } in
      let size : end ≡ suc n = omega (arith, e, h.removed) in
      let copy : suc r - 1 ≡ r = omega arith in
      subst (λ o. Trims before (c ∷ cs) (c ∷ o) (t ∷ ts))
        (sym (j.joined ∙ ap (λ m. take m cs ++ j.rest) copy))
        (trimmed before (c ∷ cs) j.rest ts (suc r) (suc n) t
          (subst (λ m. IsTrim punctuation decimal l before (c ∷ cs) (suc r) m t) size h) j.behind)

  -- The jump stays in the text.
  jump-inside :
      (before : Option ℕ) (c : ℕ) (cs : List ℕ) (found : Found)
      → Sound punctuation decimal l 1 before (c ∷ cs) found
      → copy_of found + skip_of found ≤ length cs
  jump-inside before c cs nothing h = omega arith
  jump-inside before c cs (preserved end) h = omega (arith, h.some_left, h.run.inside)
  jump-inside before c cs (matched k r end) h = omega (arith, h.some_kept, h.removed, h.run.inside)

  trim_from-Jumps :
      (before : Option ℕ) (n copy skip : ℕ) (text : List ℕ)
      → IsPositive l
      → n ≡ copy + skip
      → n ≤ length text
      → let (out, ts) = trim_from punctuation decimal l before copy skip text in
        Jumps before copy n text out ts
  unfolding trim_from
  trim_from-Jumps before zero zero skip [] p e le = record {
    rest = [];
    joined = refl;
    behind = ended before;
  }
  trim_from-Jumps before zero (suc copy) skip [] p e le = absurd (omega (arith, e))
  trim_from-Jumps before (suc n) copy skip [] p e le = absurd (omega (arith, le))
  trim_from-Jumps before zero (suc copy) skip (c ∷ cs) p e le = absurd (omega (arith, e))
  trim_from-Jumps before (suc n) (suc copy) skip (c ∷ cs) p e le =
      let on = trim_from-Jumps (some c) n copy skip cs p (omega (arith, e)) (omega (arith, le)) in
      record { rest = on.rest; joined = ap (λ o. c ∷ o) on.joined; behind = on.behind }
  trim_from-Jumps before zero zero (suc skip) (c ∷ cs) p e le = absurd (omega (arith, e))
  trim_from-Jumps before (suc n) zero (suc skip) (c ∷ cs) p e le =
      let on = trim_from-Jumps (some c) n zero skip cs p (omega (arith, e)) (omega (arith, le)) in
      record { rest = on.rest; joined = on.joined; behind = on.behind }
  trim_from-Jumps before (suc n) zero zero (c ∷ cs) p e le = absurd (omega (arith, e))
  trim_from-Jumps before zero zero zero (c ∷ cs) p e le =
      let found = match_at punctuation decimal l before (c ∷ cs) in
      let sound = match_at-Sound punctuation decimal l before (c ∷ cs) p in
      let n = copy_of found + skip_of found in
      let on =
        trim_from-Jumps (some c) n (copy_of found) (skip_of found) cs p refl
          (jump-inside before c cs found sound) in
      record {
        rest = c ∷ (trim_from punctuation decimal l (some c) (copy_of found) (skip_of found) cs).0;
        joined = refl;
        behind = at_match before c n cs _ _ found sound refl on;
      }

  trim_from-Sublist :
      (before : Option ℕ) (copy skip : ℕ) (text : List ℕ)
      → Sublist (trim_from punctuation decimal l before copy skip text).0 text
  unfolding trim_from
  trim_from-Sublist before copy skip [] = nil-sublist []
  trim_from-Sublist before (suc copy) skip (c ∷ cs) =
      Sublist.cons-cons c (trim_from-Sublist (some c) copy skip cs)
  trim_from-Sublist before zero (suc skip) (c ∷ cs) =
      Sublist.cons c (trim_from-Sublist (some c) zero skip cs)
  trim_from-Sublist before zero zero (c ∷ cs) =
      Sublist.cons-cons c (trim_from-Sublist (some c) _ _ cs)

  -- With limits of at least 1, the trimming returns; what is left is the text less some of its
  -- characters, in their order, and the trims count those that are missing. From the left, a character
  -- is kept where no run of too many copies of a unit starts. The run of all copies of a unit is kept
  -- whole when a neighbour is a numeral or, to a unit of letters, a letter or a joiner. Any other run is
  -- trimmed: as many first copies as the limit names stay, and the trim names the unit and counts the
  -- characters of the run behind them. A unit has 1 to 6 characters, none of them a separator; between
  -- its copies there are separators at most. Too many are more copies than the limit of single
  -- characters or that of longer units, which many stay; of a unit with a numeral, of which 3 stay, they
  -- are more than 3 and than the numeral limit, and more than 9 of a single decimal digit.
  pub trim_repetitions-Trims :
      (text : List ℕ)
      → IsPositive l
      → (out : List ℕ) × (trims : List TrimmedRepetition) × (trim_repetitions punctuation decimal l
            text
          ≡ some (out, trims))
        × Sublist out text
        × (length out + removed trims ≡ length text)
        × Trims none text out trims
  unfolding trim_repetitions
  trim_repetitions-Trims text p =
      let whole = trim_from-Jumps none 0 0 0 text p (omega arith) (omega arith) in
      let (out, ts) = trim_from punctuation decimal l none 0 0 text in
      let trims : Trims none text out ts =
        subst (λ o. Trims none text o ts) (sym whole.joined) whole.behind in
      let valid : ltb (min (min l.single_char_limit l.multi_char_limit) l.numeral_loop_limit) 1
          ≡ false =
        ground (arith, p.single, p.multi, p.numeral) in
      (
        out,
        ts,
        rw valid refl,
        trim_from-Sublist none 0 0 text,
        Trims-removed none text out ts trims,
        trims,
      )
