-- ===== src/Events/Replace.antt =====
-- What the replacement of a pending event (api/events.py) does to counts, sums and selections.
use tea_asr_service.Prelude.{
  ℕ, ◌+◌, ◌≤◌, ◌≡◌, refl, ap, inl, inr, Bool, true, Bool-cases, Option-cases, none, some, List, [],
  ◌∷◌, ◌++◌, if◌then◌else◌, keep, arith,
}
use tea_asr_service.Events.{Payload, replace_first, total}

abbrev pub bit : Bool → ℕ
bit b = if b then 1 else 0

abbrev pub count : (Payload → Bool) → List Payload → ℕ
count test [] = 0
count test (p ∷ ps) = bit (test p) + count test ps

pub count-append :
    (test : Payload → Bool) (xs ys : List Payload)
    → count test (xs ++ ys) ≡ count test xs + count test ys
count-append test [] ys = omega arith
count-append test (x ∷ xs) ys = omega (arith, count-append test xs ys)

pub count-keep :
    (test p : Payload → Bool) (xs : List Payload) → count test (keep p xs) ≤ count test xs
count-keep test p [] = omega arith
count-keep test p (x ∷ xs) = ground (arith, count-keep test p xs)

pub keep-append :
    (p : Payload → Bool) (xs ys : List Payload) → keep p (xs ++ ys) ≡ keep p xs ++ keep p ys
keep-append p [] ys = refl
keep-append p (x ∷ xs) ys = ground (arith, keep-append p xs ys)

pub total-append :
    (size : Payload → ℕ) (xs ys : List Payload)
    → total size (xs ++ ys) ≡ total size xs + total size ys
total-append size [] ys = omega arith
total-append size (x ∷ xs) ys = omega (arith, total-append size xs ys)

module _ (test : Payload → Bool) (p : Payload) where
  pub replace_first-none :
      (queue : List Payload) → replace_first test p queue ≡ none → count test queue ≡ 0
  unfolding replace_first
  replace_first-none [] e = refl
  replace_first-none (q ∷ queue) e = ground (arith, replace_first-none queue)

  -- What holds of a queue, the queue with the replacement, and the payload that went.
  pub record IsReplaced (queue queue' : List Payload) (old : Payload) : Type 0 where
    pub before : List Payload
    pub after : List Payload
    pub was : queue ≡ before ++ old ∷ after
    pub is : queue' ≡ before ++ p ∷ after
    pub fits : test old ≡ true

  IsReplaced-cons :
      (q : Payload) {queue queue' : List Payload} {old : Payload}
      → IsReplaced queue queue' old
      → IsReplaced (q ∷ queue) (q ∷ queue') old
  IsReplaced-cons q r = record {
    before = q ∷ r.before;
    after = r.after;
    was = ap (λ t. q ∷ t) r.was;
    is = ap (λ t. q ∷ t) r.is;
    fits = r.fits;
  }

  pub replace_first-some :
      (queue queue' : List Payload) (old : Payload)
      → replace_first test p queue ≡ some (queue', old)
      → IsReplaced queue queue' old
  unfolding replace_first
  replace_first-some [] queue' old e = cc
  replace_first-some (q ∷ queue) queue' old e = elim (Bool-cases (test q)) [
    | inl hit ↦ record {
      before = [];
      after = queue;
      was = ground (arith, hit);
      is = ground (arith, hit);
      fits = ground (arith, hit);
    }
    | inr miss ↦ elim (Option-cases (replace_first test p queue)) [
      | inl none' ↦ ground (arith, miss, none')
      | inr ((found, gone), later) ↦
          let same : q ∷ found ≡ queue' = ground (arith, miss, later) in
          let old' : gone ≡ old = ground (arith, miss, later) in
          rw (← same, ← old') (IsReplaced-cons q (replace_first-some queue found gone later))
    ]
  ]
