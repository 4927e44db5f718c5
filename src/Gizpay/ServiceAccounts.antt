-- ===== src/Gizpay/ServiceAccounts.antt =====
-- validServiceAccountRoles and revokeServiceAccount (internal/gizpay/handler.go).
pub mod Roles
pub mod Create
pub mod Tracked
mod Tests
use Prim.Native.String.{String}
use gizway.Prelude.{
  Bool, true, false, not, ◌&&◌, ◌||◌, Option, none, some, List, [], ◌∷◌, any, if◌then◌else◌,
}
use gizway.Text.{str_eq, is_blank}
use gizway.Gizpay.Store.{Store, Instant, ServicePrincipal}
use gizway.Gizpay.Request.{
  M, ◌>>=◌, ◌>>◌, pure, fail, reply_if, Sql, row, violates, exec, query, new_id, now_utc,
  transaction, error_json, internal, invalid, not_found,
}
use gizway.Gizpay.Charge.{select}

abbrev pub is_role : String → Bool
is_role role = str_eq role "credit_check" || str_eq role "charge"

-- The loop, with the roles seen so far.
unfoldable pub roles_from : List String → List String → Bool
roles_from seen [] = true
roles_from seen (role ∷ roles) =
    let rest = roles_from (role ∷ seen) roles in
    if not (is_role role) || any (λ r. str_eq r role) seen then false else rest

unfoldable pub valid_service_account_roles : List String → Bool
valid_service_account_roles [] = false
valid_service_account_roles (role ∷ roles) = roles_from [] (role ∷ roles)

-- `WHERE id=$1 AND owner_user_id=$2 AND status='active'`
unfoldable pub find_principal : String → String → Store → Sql ServicePrincipal
find_principal user id s =
    select (λ p. str_eq p.id id && str_eq p.owner_user_id user && str_eq p.status "active") (λ p. p)
      s.service_principals

unfoldable pub revoke_principals : Instant → String → List ServicePrincipal → List ServicePrincipal
revoke_principals at id [] = []
revoke_principals at id (p ∷ ps) =
    (if str_eq p.id id then record p { status = "revoked"; revoked_at = some at } else p)
    ∷ revoke_principals at id ps

unfoldable pub update_principal : Instant → String → Store → Sql (Unit {0}) × Store
update_principal at id s =
    (row tt, record s { service_principals = revoke_principals at id s.service_principals })

-- `refuses subject key` says whether the identity provider fails to revoke the credential.
unfoldable pub revoke_body : (String → String → Bool) → String → String → M (Unit {0})
revoke_body refuses user id = do
  p ← exec not_found (query (find_principal user id))
  reply_if (str_eq p.credential_key_id "" || refuses p.identity_subject p.credential_key_id)
      (error_json 502 "identity_provider_unavailable")
  now ← now_utc
  exec internal (update_principal now id)
  exec internal (query (λ s. row tt))

-- A request that goes through is answered with 204.
unfoldable pub revoke_service_account : (String → String → Bool) → String → String → M (Unit {0})
revoke_service_account refuses user id = transaction (revoke_body refuses user id)
