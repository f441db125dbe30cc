-- ===== src/Repetition/Copies.antt =====
-- The offsets of tea_asr/repetition.py's `_repeat_ends` as copies of the unit in the text.
use tea_asr_service.Prelude.{
  ℕ, zero, suc, ◌+◌, ◌-◌, ◌≤◌, ◌<◌, ◌≡◌, refl, sym, ap, ◌∙◌, subst, Bool, true, false, List, [],
  ◌∷◌, ◌++◌, append-nil, append_assoc, length, length-append, if◌then◌else◌, take, drop,
  take-append-drop, get_or, arith,
}
use tea_asr_service.Translation.Response.{starts_with}
use tea_asr_service.Context.Replacements.{starts_with-drop}
use tea_asr_service.Repetition.{any, is_repeat_separator, ends_from, repeat_ends}

module _ (punctuation decimal : ℕ → Bool) where
  -- `n` copies of a unit, with nothing but separators before and between them
  pub data Copies (unit : List ℕ) : ℕ → List ℕ → Type 0 where
    no_copy : Copies unit 0 []
    apart :
        (c n : ℕ) (xs : List ℕ)
        → is_repeat_separator punctuation decimal c ≡ true
        → Copies unit (suc n) xs
        → Copies unit (suc n) (c ∷ xs)
    copy : (n : ℕ) (xs : List ℕ) → Copies unit n xs → Copies unit (suc n) (unit ++ xs)

  -- From the end of the copy that `inside` leads to, `n` copies end at `e`.
  record Reaches (unit : List ℕ) (cursor inside n e : ℕ) (text : List ℕ) : Type 0 where
    run : List ℕ
    behind : List ℕ
    split : drop inside text ≡ run ++ behind
    reached : cursor + inside + length run ≡ e
    copies : Copies unit n run

  -- Where a copy is over: a separator is passed over, and a copy begins, or the run ends.
  over-Reaches :
      (u : ℕ) (us : List ℕ) (cursor c i : ℕ) (cs on again : List ℕ) (s w : Bool)
      → is_repeat_separator punctuation decimal c ≡ s
      → starts_with (u ∷ us) (c ∷ cs) ≡ w
      → ((j : ℕ) → j < length on → Reaches (u ∷ us) (suc cursor) 0 (suc j) (get_or on j 0) cs)
      → ((j : ℕ)
          → j < length again
          → Reaches (u ∷ us) (suc cursor) (length (u ∷ us) - 1) (suc j) (get_or again j 0) cs)
      → let ends = if s then on else if w then (cursor + length (u ∷ us)) ∷ again else [] in
        i < length ends → Reaches (u ∷ us) cursor 0 (suc i) (get_or ends i 0) (c ∷ cs)
  over-Reaches u us cursor c i cs on again true w sep first h k lt =
      let r = h i lt in
      record {
        run = c ∷ r.run;
        behind = r.behind;
        split = ap (λ t. c ∷ t) r.split;
        reached = omega (arith, r.reached);
        copies = apart c i r.run sep r.copies;
      }
  over-Reaches u us cursor c i cs on again false false sep first h k lt = absurd (omega (arith, lt))
  over-Reaches u us cursor c zero cs on again false true sep first h k lt = record {
    run = (u ∷ us) ++ [];
    behind = drop (length us) cs;
    split =
        starts_with-drop (u ∷ us) (c ∷ cs) first
        ∙ ap (λ t. u ∷ t) (ap (λ t. t ++ drop (length us) cs) (sym (append-nil us)));
    reached = omega (arith, length-append us []);
    copies = copy 0 [] no_copy;
  }
  over-Reaches u us cursor c (suc i) cs on again false true sep first h k lt =
      let pred : length (u ∷ us) - 1 ≡ length us = omega arith in
      let r = k i (omega (arith, lt)) in
      record {
        run = (u ∷ us) ++ r.run;
        behind = r.behind;
        split =
            starts_with-drop (u ∷ us) (c ∷ cs) first
            ∙ ap (λ t. u ∷ (us ++ t)) (ap (λ n. drop n cs) (sym pred) ∙ r.split)
            ∙ ap (λ t. u ∷ t) (sym (append_assoc us r.run r.behind));
        reached = omega (arith, r.reached, length-append us r.run);
        copies = copy (suc i) r.run r.copies;
      }

  ends_from-Reaches :
      (u : ℕ) (us : List ℕ) (cursor inside i : ℕ) (text : List ℕ)
      → let ends = ends_from punctuation decimal (u ∷ us) cursor inside text in
        i < length ends → Reaches (u ∷ us) cursor inside (suc i) (get_or ends i 0) text
  unfolding ends_from
  ends_from-Reaches u us cursor inside i [] h = absurd (omega (arith, h))
  ends_from-Reaches u us cursor (suc inside) i (c ∷ cs) h =
      let on = ends_from-Reaches u us (suc cursor) inside i cs h in
      record {
        run = on.run;
        behind = on.behind;
        split = on.split;
        reached = omega (arith, on.reached);
        copies = on.copies;
      }
  ends_from-Reaches u us cursor zero i (c ∷ cs) h =
      over-Reaches u us cursor c i cs (ends_from punctuation decimal (u ∷ us) (suc cursor) 0 cs)
        (ends_from punctuation decimal (u ∷ us) (suc cursor) (length (u ∷ us) - 1) cs)
        (is_repeat_separator punctuation decimal c) (starts_with (u ∷ us) (c ∷ cs)) refl refl
        (λ j lt. ends_from-Reaches u us (suc cursor) 0 j cs lt)
        (λ j lt. ends_from-Reaches u us (suc cursor) (length (u ∷ us) - 1) j cs lt) h

  take-prefix : (xs ys : List ℕ) → take (length xs) (xs ++ ys) ≡ xs
  take-prefix [] ys = refl
  take-prefix (x ∷ xs) ys = ap (λ t. x ∷ t) (take-prefix xs ys)

  -- Up to the offset at the place `i`, the text is `i + 1` copies of the unit that it starts with.
  pub repeat_ends-Copies :
      (unit text : List ℕ) (i : ℕ)
      → let ends = repeat_ends punctuation decimal unit text in
        0 < length unit
        → text ≡ unit ++ drop (length unit) text
        → i < length ends
        → Copies unit (suc i) (take (get_or ends i 0) text)
  unfolding repeat_ends
  repeat_ends-Copies [] text i some' e lt = absurd (omega (arith, some'))
  repeat_ends-Copies (u ∷ us) text zero some' e lt =
      subst (Copies (u ∷ us) 1)
        (append-nil (u ∷ us)
          ∙ sym (take-prefix (u ∷ us) (drop (length (u ∷ us)) text))
          ∙ ap (take (length (u ∷ us))) (sym e))
        (copy 0 [] no_copy)
  repeat_ends-Copies (u ∷ us) text (suc i) some' e lt =
      let r = ends_from-Reaches u us 0 (length (u ∷ us)) i text (omega (arith, lt)) in
      let run = (u ∷ us) ++ r.run in
      let split : text ≡ run ++ r.behind =
        e ∙ ap (λ t. (u ∷ us) ++ t) r.split ∙ sym (append_assoc (u ∷ us) r.run r.behind) in
      let size : length run
          ≡ get_or (ends_from punctuation decimal (u ∷ us) 0 (length (u ∷ us)) text) i 0 =
        omega (arith, r.reached, length-append (u ∷ us) r.run) in
      subst (Copies (u ∷ us) (suc (suc i)))
        (sym (take-prefix run r.behind)
          ∙ ap (take (length run)) (sym split)
          ∙ ap (λ n. take n text) size)
        (copy (suc i) r.run r.copies)

  starts_with-append : (ps text : List ℕ) → starts_with ps (ps ++ text) ≡ true
  starts_with-append [] text = refl
  starts_with-append (p ∷ ps) text = ground (arith, starts_with-append ps text)

  ends_from-inside :
      (unit xs ys : List ℕ) (cursor : ℕ)
      → ends_from punctuation decimal unit cursor (length xs) (xs ++ ys)
        ≡ ends_from punctuation decimal unit (cursor + length xs) 0 ys
  unfolding ends_from
  ends_from-inside unit [] ys cursor =
      ap (λ n. ends_from punctuation decimal unit n 0 ys) (omega arith)
  ends_from-inside unit (x ∷ xs) ys cursor =
      ends_from-inside unit xs ys (suc cursor)
      ∙ ap (λ n. ends_from punctuation decimal unit n 0 ys) (omega arith)

  ends_from-copy :
      (u : ℕ) (us text : List ℕ) (cursor : ℕ)
      → is_repeat_separator punctuation decimal u ≡ false
      → ends_from punctuation decimal (u ∷ us) cursor 0 ((u ∷ us) ++ text)
        ≡ (cursor + length (u ∷ us))
          ∷ ends_from punctuation decimal (u ∷ us) (cursor + length (u ∷ us)) 0 text
  unfolding ends_from
  ends_from-copy u us text cursor mark =
      let pred : length (u ∷ us) - 1 ≡ length us = omega arith in
      let size : suc cursor + length us ≡ cursor + length (u ∷ us) = omega arith in
      let on = ends_from-inside (u ∷ us) us text (suc cursor) in
      rw (mark, starts_with-append (u ∷ us) text, pred, on, size) refl

  -- No copy is missed.
  Copies-ends_from :
      (u : ℕ) (us : List ℕ) (n : ℕ) (xs ys : List ℕ) (cursor : ℕ)
      → is_repeat_separator punctuation decimal u ≡ false
      → Copies (u ∷ us) n xs
      → n ≤ length (ends_from punctuation decimal (u ∷ us) cursor 0 (xs ++ ys))
  unfolding ends_from
  Copies-ends_from u us n xs ys cursor mark no_copy = omega arith
  Copies-ends_from u us n xs ys cursor mark (apart c m zs sep more) =
      rw sep (Copies-ends_from u us (suc m) zs ys (suc cursor) mark more)
  Copies-ends_from u us n xs ys cursor mark (copy m zs more) =
      let rest = Copies-ends_from u us m zs ys (cursor + length (u ∷ us)) mark more in
      let over =
        ap (ends_from punctuation decimal (u ∷ us) cursor 0) (append_assoc (u ∷ us) zs ys)
        ∙ ends_from-copy u us (zs ++ ys) cursor mark in
      subst (λ es. suc m ≤ length es) (sym over) (omega (arith, rest))

  pub Copies-repeat_ends :
      (unit text : List ℕ) (n e : ℕ)
      → 0 < length unit
      → any (is_repeat_separator punctuation decimal) unit ≡ false
      → text ≡ unit ++ drop (length unit) text
      → Copies unit n (take e text)
      → n ≤ length (repeat_ends punctuation decimal unit text)
  unfolding repeat_ends
  Copies-repeat_ends [] text n e some' solid split copies = absurd (omega (arith, some'))
  Copies-repeat_ends (u ∷ us) text n e some' solid split copies =
      let mark : is_repeat_separator punctuation decimal u ≡ false = ground (arith, solid) in
      let behind = drop (length (u ∷ us)) text in
      let found = Copies-ends_from u us n (take e text) (drop e text) 0 mark copies in
      let whole =
        ap (ends_from punctuation decimal (u ∷ us) 0 0) (take-append-drop e text ∙ split)
        ∙ ends_from-copy u us behind 0 mark in
      let others =
        ap (ends_from punctuation decimal (u ∷ us) 0 (length (u ∷ us))) split
        ∙ ends_from-inside (u ∷ us) (u ∷ us) behind 0 in
      omega (arith, found, ap length whole, ap length others)
