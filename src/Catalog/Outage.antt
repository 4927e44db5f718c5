-- ===== src/Catalog/Outage.antt =====
-- Current while the token endpoint fails (internal/catalogtoken/manager.go).

use gizway.Prelude.{true, List, [], ◌∷◌, All, ◌≡◌, refl, inl, inr, Bool-cases, arith}
use gizway.Int.{ℤ, ◌<ℤ◌}
use gizway.Catalog.{
  Token, Config, Manager, Reply, Result, ok, err, Failure, fetch, is_present, is_current, is_alive,
  refresh, current,
}

-- The answers of a sequence of calls of Current.
pub answers : Manager → List (ℤ × Reply) → List (Result Token)
answers m [] = []
answers m ((now, reply) ∷ calls) = (current m now reply).0 ∷ answers (current m now reply).1 calls

-- A call before the expiry of the token, whose fetch fails.
pub record IsOutage (c : Config) (t : Token) (call : ℤ × Reply) : Type 0 where
  pub before : call.0 <ℤ t.expires_at
  pub failure : Failure
  pub failed : fetch c call.0 call.1 ≡ err failure

alive_lem :
    (t : Token) (now : ℤ) → is_present t ≡ true → now <ℤ t.expires_at → is_alive t now ≡ true
unfolding is_alive
alive_lem t now there before = ground arith

current-outage :
    (m : Manager) (now : ℤ) (reply : Reply)
    → is_present m.token ≡ true
    → IsOutage m.config m.token (now, reply)
    → current m now reply ≡ (ok m.token, m)
unfolding current refresh
current-outage m now reply there o = elim (Bool-cases (is_current m now)) [
  | inl fresh ↦ rw fresh refl
  | inr stale ↦ rw (stale, o.failed, alive_lem m.token now there o.before) refl
]

-- A cached token is what every call of Current returns until it expires, however long the token
-- endpoint fails.
pub current-IsAvailable :
    (m : Manager) (calls : List (ℤ × Reply))
    → is_present m.token ≡ true
    → All (λ call. IsOutage m.config m.token call) calls
    → All (λ r. r ≡ ok m.token) (answers m calls)
unfolding answers
current-IsAvailable m [] there os = tt
current-IsAvailable m ((now, reply) ∷ calls) there (o, os) =
    rw (current-outage m now reply there o) (refl, current-IsAvailable m calls there os)
