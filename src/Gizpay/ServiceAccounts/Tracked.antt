-- ===== src/Gizpay/ServiceAccounts/Tracked.antt =====
-- No credential without a principal (the POST of serviceAccounts, internal/gizpay/handler.go).
use Prim.Native.String
use Prim.Native.String.{String}
use gizway.Prelude.{
  ◌≢◌, ◌⊎◌, All, Bool, true, false, not, ◌||◌, Option, none, some, List, [], ◌∷◌, any, ◌≡◌,
  if◌then◌else◌,
}
use gizway.Text.{is_blank}
use gizway.Gizpay.Store.{Store, ServicePrincipal}
use gizway.Gizpay.Request.{
  World, Outcome, done, reply, violates, Sql, row, no_rows, failed, internal,
}
use gizway.Gizpay.ServiceAccounts.{valid_service_account_roles}
use gizway.Gizpay.ServiceAccounts.Create.{
  Credential, ServiceAccountRequest, Issues, principal_clashes, Compensated,
}

-- The credential that a request makes the provider issue.
abbrev pub issued : Issues → Option ServiceAccountRequest → Option Credential
issued issues none = none
issued issues (some r) =
    if is_blank r.name || not (valid_service_account_roles r.roles)
    then none
    else issues r.name r.roles

abbrev pub revocations : Option Credential → List Credential
revocations none = []
revocations (some c) = c ∷ []

-- A principal of the user with the credential and the names and roles of the request, that is active.
pub record IsPrincipal (issuer user id : String) (r : ServiceAccountRequest) (c : Credential)
    (p : ServicePrincipal) : Type 0 where
  pub named : (p.id ≡ id) × (p.name ≡ r.name) × (p.roles ≡ r.roles)
  pub owned : p.owner_user_id ≡ user
  pub identified : (p.identity_issuer ≡ issuer) × (p.identity_subject ≡ c.subject)
  pub credential : p.credential_key_id ≡ c.key_id
  pub active : (p.status ≡ "active") × (p.revoked_at ≡ none)

-- Two principals with different IDs and different identities.
abbrev pub IsApart : ServicePrincipal → ServicePrincipal → Type 0
IsApart p q =
    (q.id ≢ p.id)
    × (q.identity_issuer ≡ p.identity_issuer → ¬ (q.identity_subject ≡ p.identity_subject))

-- From s to t a principal of the ID is inserted, which is apart from those that were there.
pub record HasPrincipal (issuer user id : String) (r : ServiceAccountRequest) (c : Credential)
    (s t : Store) : Type 0 where
  pub principal : ServicePrincipal
  pub is_principal : IsPrincipal issuer user id r c principal
  pub inserted : t ≡ record s { service_principals = principal ∷ s.service_principals }
  pub apart : All (IsApart principal) s.service_principals

-- Of a request that goes through: the credential is in a new principal with the answered ID, and is
-- answered and not revoked. Of any other: a credential that was issued is asked to be revoked, and the
-- database is as it was, or has the principal where the INSERT took effect and its answer was lost.
abbrev pub Tracks :
    String
    → String
    → Option ServiceAccountRequest
    → Option Credential
    → Store
    → Compensated
    → Type 0
Tracks issuer user (some r) (some c) s ((done a, w), calls) =
    HasPrincipal issuer user a.id r c s w.store × (a.key ≡ c.key_json) × (calls ≡ [])
Tracks issuer user request c s ((done a, w), calls) = ⊥
Tracks issuer user (some r) (some c) s ((reply e, w), calls) =
    ((w.store ≡ s) ⊎ ((e ≡ internal) × (id : String) × HasPrincipal issuer user id r c s w.store))
    × (calls ≡ c ∷ [])
Tracks issuer user request c s ((reply e, w), calls) = (w.store ≡ s) × (calls ≡ revocations c)

pub record IsTracked (issuer user : String) (request : Option ServiceAccountRequest)
    (c : Option Credential) (s : Store) (o : Compensated) : Type 0 where
  pub tracks : Tracks issuer user request c s o

-- The database after the INSERT: the new row beside the old ones, whose keys are free, or no change.
abbrev Inserts : ServicePrincipal → Store → Bool → Store → Type 0
Inserts new s true t =
    (t ≡ record s { service_principals = new ∷ s.service_principals })
    × (any (principal_clashes new) s.service_principals ≡ false)
Inserts new s false t = t ≡ s

abbrev is_row : {A : Type 0} → Sql A → Bool
is_row (row a) = true
is_row no_rows = false
is_row (violates c) = false
is_row failed = false

-- The same of a statement, which may also take effect and fail.
abbrev Leaves : ServicePrincipal → Store → Bool → Store → Type 0
Leaves new s true t = Inserts new s true t
Leaves new s false t = (t ≡ s) ⊎ Inserts new s true t

abbrev Runs : ServicePrincipal → Store → Outcome (Sql (Unit {0})) × World → Type 0
Runs new s (done q, w) = Leaves new s (is_row q) w.store
Runs new s (reply e, w) = w.store ≡ s

abbrev Stores :
    String → String → ServiceAccountRequest → Credential → Store → Outcome String × World → Type 0
Stores issuer user r c s (done id, w) = HasPrincipal issuer user id r c s w.store
Stores issuer user r c s (reply e, w) =
    (w.store ≡ s) ⊎ ((e ≡ internal) × (id : String) × HasPrincipal issuer user id r c s w.store)

record IsStored (issuer user : String) (r : ServiceAccountRequest) (c : Credential) (s : Store)
    (o : Outcome String × World) : Type 0 where
  stores : Stores issuer user r c s o
