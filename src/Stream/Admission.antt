-- ===== src/Stream/Admission.antt =====
-- `ContinuousSessionAdmission` of api/stream.py (tea_asr/api/stream.py): a bounded number of reserved
-- slots. A session is a number; the set of those that hold a slot is a list without repetitions.
pub mod Slots
use tea_asr_service.Prelude.{
  [], ℕ, Bool, true, false, not, Option, none, some, List, ◌∷◌, leb, ◌==◌, if◌then◌else◌, length,
  keep,
}
use tea_asr_service.Repetition.{mem}

pub record SessionAdmission : Type 0 where
  pub max_sessions : Option ℕ
  pub reserved : List ℕ

-- self._reserved.add(session)
unfoldable pub add : ℕ → List ℕ → List ℕ
add session reserved = if mem session reserved then reserved else session ∷ reserved

acquire_within : SessionAdmission → Option ℕ → ℕ → SessionAdmission × Bool
unfolding add
acquire_within a none session = (a, true)
acquire_within a (some limit) session =
    if leb limit (length a.reserved)
    then (a, false)
    else (record a { reserved = add session a.reserved }, true)

unfoldable pub try_acquire : SessionAdmission → ℕ → SessionAdmission × Bool
unfolding acquire_within
try_acquire a session = acquire_within a a.max_sessions session

unfoldable pub release : SessionAdmission → ℕ → SessionAdmission
release a session = record a { reserved = keep (λ r. not (r == session)) a.reserved }

-- What the handshakes and the ends of the connections ask for, one at a time
pub data Request : Type 0 where
  enter leave : (session : ℕ) → Request

unfoldable pub serve : SessionAdmission → List Request → SessionAdmission
unfolding try_acquire release
serve a [] = a
serve a (enter session ∷ requests) = serve (try_acquire a session).0 requests
serve a (leave session ∷ requests) = serve (release a session) requests
