-- ===== src/Scheduler/Order.antt =====
-- The order in which scheduler.py hands the worker over.
use mathlib.Core.List.Perm
use mathlib.Core.List.{Perm, perm_middle}
use tea_asr_service.Prelude.{
  ◌≡◌, ◌≤◌, ◌<◌, ◌⊎◌, refl, inl, inr, Bool, true, false, not, Bool-cases, List, [], ◌∷◌, ◌++◌, keep,
  All, arith,
}
use tea_asr_service.Scheduler.{
  Waiter, Effect, granted, dropped, invalid_state, key_le, insert, sort,
}

insert-perm : (v : Waiter) (ws : List Waiter) → Perm (insert v ws) (v ∷ ws)
unfolding insert
insert-perm v [] = Perm.rfl
insert-perm v (w ∷ ws) = elim (Bool-cases (key_le v w)) [
  | inl le ↦ rw le Perm.rfl
  | inr gt ↦ rw gt (Perm.trans (Perm.cons w (insert-perm v ws)) (Perm.swap v w ws))
]

pub sort-perm : (ws : List Waiter) → Perm (sort ws) ws
unfolding sort
sort-perm [] = Perm.rfl
sort-perm (w ∷ ws) = Perm.trans (insert-perm w (sort ws)) (Perm.cons w (sort-perm ws))

module _ (P : Waiter → Type 0) where
  insert-All : (v : Waiter) (ws : List Waiter) → P v → All P ws → All P (insert v ws)
  unfolding insert
  insert-All v [] h k = (h, k)
  insert-All v (w ∷ ws) h k = ground (arith, insert-All v ws h k.1)

  pub sort-All : (ws : List Waiter) → All P ws → All P (sort ws)
  unfolding sort
  sort-All [] h = tt
  sort-All (w ∷ ws) h = insert-All w (sort ws) h.0 (sort-All ws h.1)

-- `v` may go before `w`: by its priority, and at the same priority by its ticket.
abbrev pub Before : Waiter → Waiter → Type 0
Before v w = (v.priority < w.priority) ⊎ ((v.priority ≡ w.priority) × (v.ticket ≤ w.ticket))

abbrev pub Leads : Waiter → List Waiter → Type 0
Leads v = All (Before v)

abbrev pub IsSorted : List Waiter → Type 0
IsSorted [] = Unit
IsSorted (w ∷ ws) = Leads w ws × IsSorted ws

key_le-Before : (v w : Waiter) → key_le v w ≡ true → Before v w
key_le-Before v w h = ground arith

key_le-total : (v w : Waiter) → key_le v w ≡ false → Before w v
key_le-total v w h = ground arith

Before-trans : (u v w : Waiter) → Before u v → Before v w → Before u w
Before-trans u v w h k = ground arith

Leads-trans : (u v : Waiter) (ws : List Waiter) → Before u v → Leads v ws → Leads u ws
Leads-trans u v [] h k = tt
Leads-trans u v (w ∷ ws) h k = (Before-trans u v w h k.0, Leads-trans u v ws h k.1)

insert-IsSorted : (v : Waiter) (ws : List Waiter) → IsSorted ws → IsSorted (insert v ws)
unfolding insert
insert-IsSorted v [] h = (tt, tt)
insert-IsSorted v (w ∷ ws) h = elim (Bool-cases (key_le v w)) [
  | inl le ↦ let first = key_le-Before v w le in rw le ((first, Leads-trans v w ws first h.0), h)
  | inr gt ↦ rw gt (insert-All (Before w) v ws (key_le-total v w gt) h.0, insert-IsSorted v ws h.1)
]

pub sort-IsSorted : (ws : List Waiter) → IsSorted (sort ws)
unfolding sort
sort-IsSorted [] = tt
sort-IsSorted (w ∷ ws) = insert-IsSorted w (sort ws) (sort-IsSorted ws)

pub keep-perm :
    (p : Waiter → Bool) (ws : List Waiter) → Perm ws (keep p ws ++ keep (λ w. not (p w)) ws)
keep-perm p [] = Perm.rfl
keep-perm p (w ∷ ws) =
    let rest = Perm.cons w (keep-perm p ws) in
    ground (
      arith,
      rest,
      Perm.trans rest (Perm.symm (perm_middle {a = w} (keep p ws) (keep (λ w. not (p w)) ws))),
    )

-- The waiter of an effect.
abbrev pub served : List Effect → List Waiter
served [] = []
served (granted w ∷ es) = w ∷ served es
served (dropped w ∷ es) = w ∷ served es
served (invalid_state w ∷ es) = w ∷ served es

-- A list that has an element is sorted into a list that has a head.
insert-cons :
    (v : Waiter) (ws : List Waiter) → (w : Waiter) × (rest : List Waiter) × (insert v ws ≡ w ∷ rest)
unfolding insert
insert-cons v [] = (v, [], refl)
insert-cons v (w ∷ ws) = elim (Bool-cases (key_le v w)) [
  | inl le ↦ (v, w ∷ ws, rw le)
  | inr gt ↦ (w, insert v ws, rw gt)
]

pub sort-cons :
    (v : Waiter) (vs : List Waiter)
    → (w : Waiter) × (rest : List Waiter) × (sort (v ∷ vs) ≡ w ∷ rest)
unfolding sort
sort-cons v vs = insert-cons v (sort vs)
