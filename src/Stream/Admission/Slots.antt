-- ===== src/Stream/Admission/Slots.antt =====
-- The slots of `ContinuousSessionAdmission` of api/stream.py (tea_asr/api/stream.py), as sessions come
-- and go.
use tea_asr_service.Prelude.{
  ℕ, ◌≤◌, ◌<◌, ◌≡◌, refl, sym, ap, subst, ◌∙◌, inl, inr, Bool, true, false, Bool-cases, not, Option,
  none, some, List, [], ◌∷◌, arith, leb, ◌==◌, ==_iff, length, keep, length-keep, All,
}
use tea_asr_service.Repetition.{mem}
use tea_asr_service.Stream.Admission.{
  SessionAdmission, add, acquire_within, try_acquire, release, Request, enter, leave, serve,
}

-- No slot was given beyond the limit.
pub record IsWithin (limit : ℕ) (a : SessionAdmission) : Type 0 where
  pub limited : a.max_sessions ≡ some limit
  pub bounded : length a.reserved ≤ limit

abbrev leaves : ℕ → Request → Bool
leaves session (enter s) = false
leaves session (leave s) = session == s

add-mem : (session : ℕ) (reserved : List ℕ) → mem session (add session reserved) ≡ true
unfolding add
add-mem session reserved = ground (arith, (==_iff session session).1 refl)

mem-add :
    (session s : ℕ) (reserved : List ℕ)
    → mem session reserved ≡ true
    → mem session (add s reserved) ≡ true
unfolding add
mem-add session s reserved h = ground (arith, h)

mem-keep :
    (session s : ℕ) (reserved : List ℕ)
    → (session == s) ≡ false
    → mem session reserved ≡ true
    → mem session (keep (λ r. not (r == s)) reserved) ≡ true
mem-keep session s [] other h = cc
mem-keep session s (r ∷ reserved) other h = ground (arith, mem-keep session s reserved other, h)

length-add :
    (session limit : ℕ) (reserved : List ℕ)
    → length reserved < limit
    → length (add session reserved) ≤ limit
unfolding add
length-add session limit reserved h = ground (arith, h)

acquire_within-IsWithin :
    (limit : ℕ) (a : SessionAdmission) (session : ℕ)
    → IsWithin limit a
    → IsWithin limit (acquire_within a (some limit) session).0
unfolding acquire_within
acquire_within-IsWithin limit a session w = elim (Bool-cases (leb limit (length a.reserved))) [
  | inl full ↦ rw full w
  | inr room ↦ rw room (record {
    limited = w.limited;
    bounded = length-add session limit a.reserved (ground (arith, room));
  })
]

module _ (limit : ℕ) where
  try_acquire-IsWithin :
      (a : SessionAdmission) (session : ℕ)
      → IsWithin limit a
      → IsWithin limit (try_acquire a session).0
  unfolding try_acquire
  try_acquire-IsWithin a session w =
      subst (λ o. IsWithin limit (acquire_within a o session).0) (sym w.limited)
        (acquire_within-IsWithin limit a session w)

  release-IsWithin :
      (a : SessionAdmission) (session : ℕ) → IsWithin limit a → IsWithin limit (release a session)
  unfolding release
  release-IsWithin a session w = record {
    limited = w.limited;
    bounded = omega (arith, w.bounded, length-keep (λ r. not (r == session)) a.reserved);
  }

  serve-IsWithin :
      (a : SessionAdmission) (requests : List Request)
      → IsWithin limit a
      → IsWithin limit (serve a requests)
  unfolding serve
  serve-IsWithin a [] w = w
  serve-IsWithin a (enter s ∷ requests) w =
      serve-IsWithin (try_acquire a s).0 requests (try_acquire-IsWithin a s w)
  serve-IsWithin a (leave s ∷ requests) w =
      serve-IsWithin (release a s) requests (release-IsWithin a s w)

module _ (session : ℕ) where
  abbrev Holds : SessionAdmission → Type 0
  Holds a = mem session a.reserved ≡ true

  acquire_within-mem :
      (a : SessionAdmission) (limit : Option ℕ) (s : ℕ)
      → Holds a
      → Holds (acquire_within a limit s).0
  unfolding acquire_within
  acquire_within-mem a none s h = h
  acquire_within-mem a (some limit) s h = elim (Bool-cases (leb limit (length a.reserved))) [
    | inl full ↦ rw full h
    | inr room ↦ rw room (mem-add session s a.reserved h)
  ]

  serve-mem :
      (a : SessionAdmission) (requests : List Request)
      → All (λ r. leaves session r ≡ false) requests
      → Holds a
      → Holds (serve a requests)
  unfolding serve try_acquire release
  serve-mem a [] others h = h
  serve-mem a (enter s ∷ requests) (o, others) h =
      serve-mem (acquire_within a a.max_sessions s).0 requests others
        (acquire_within-mem a a.max_sessions s h)
  serve-mem a (leave s ∷ requests) (o, others) h =
      serve-mem (release a s) requests others (mem-keep session s a.reserved o h)

  granted-mem :
      (limit : ℕ) (a : SessionAdmission)
      → (acquire_within a (some limit) session).1 ≡ true
      → Holds (acquire_within a (some limit) session).0
  unfolding acquire_within
  granted-mem limit a granted = elim (Bool-cases (leb limit (length a.reserved))) [
    | inl full ↦ ground (arith, granted, full)
    | inr room ↦ rw room (add-mem session a.reserved)
  ]

granted_holds :
    (limit session : ℕ) (a : SessionAdmission)
    → a.max_sessions ≡ some limit
    → (try_acquire a session).1 ≡ true
    → Holds session (try_acquire a session).0
unfolding try_acquire
granted_holds limit session a limited granted =
    subst (λ o. Holds session (acquire_within a o session).0) (sym limited)
      (granted-mem session limit a
        (ap (λ o. (acquire_within a o session).1) (sym limited) ∙ granted))

abbrev pub empty_within : ℕ → SessionAdmission
empty_within limit = record { max_sessions = some limit; reserved = [] }

-- However sessions came and went before, and whatever others ask for after it: a session that
-- `try_acquire` admits holds its slot as long as it does not leave, and never do more than
-- `max_sessions` sessions hold one.
pub serve-Holds :
    (limit session : ℕ) (earlier later : List Request)
    → (try_acquire (serve (empty_within limit) earlier) session).1 ≡ true
    → All (λ r. leaves session r ≡ false) later
    → let a = serve (try_acquire (serve (empty_within limit) earlier) session).0 later in
      (mem session a.reserved ≡ true) × (length a.reserved ≤ limit)
serve-Holds limit session earlier later granted others =
    let a = serve (empty_within limit) earlier in
    let w : IsWithin limit a =
      serve-IsWithin limit (empty_within limit) earlier
        (record { limited = refl; bounded = omega arith }) in
    let b = (try_acquire a session).0 in
    (
      serve-mem session b later others (granted_holds limit session a w.limited granted),
      (serve-IsWithin limit b later (try_acquire-IsWithin limit a session w)).bounded,
    )
