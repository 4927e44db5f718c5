-- ===== src/Gizpay/ServiceAccounts/Tests.antt =====
-- Roles, a Service Account and a revocation on a small database (internal/gizpay/handler.go).
use Prim.Native.String.{String}
use gizway.Prelude.{All, true, false, Option, none, some, List, [], ◌∷◌, any, ◌≡◌, ◌≢◌, ◌↔◌}
use gizway.Gizpay.Store.{Store}
use gizway.Gizpay.Triple.{Post}
use gizway.Gizpay.Fixture.{start, world, healthy}
use gizway.Gizpay.ServiceAccounts.{valid_service_account_roles, revoke_service_account}
use gizway.Gizpay.ServiceAccounts.Create.{ServiceAccountRequest, Issues}
use gizway.Gizpay.ServiceAccounts.Roles.{
  IsRole, IsUnique, is_active, valid_service_account_roles_iff, revoke_service_account-Revokes,
}

abbrev twice : List String
twice = "charge" ∷ "credit_check" ∷ "charge" ∷ []

roles_tested :
    (valid_service_account_roles twice ≡ true) ↔ ((twice ≢ []) × All IsRole twice × IsUnique twice)
roles_tested = valid_service_account_roles_iff twice

abbrev accounts : Store
accounts = record start {
  service_principals =
      record {
        id = "svc_1";
        owner_user_id = "u1";
        identity_issuer = "iss";
        identity_subject = "machine";
        credential_key_id = "c1";
        name = "Robot";
        roles = "charge" ∷ [];
        status = "active";
        revoked_at = none;
      }
      ∷ [];
}

account_revoked :
    Post
      (λ _ t. any (is_active "svc_1") t.service_principals ≡ false)
      (revoke_service_account (λ subject key. false) "u1" "svc_1" (world healthy accounts))
account_revoked =
    revoke_service_account-Revokes (λ subject key. false) "u1" "svc_1" (world healthy accounts)

abbrev robot : Option ServiceAccountRequest
robot = some (record { name = "Second robot"; roles = "charge" ∷ [] })

abbrev provider : Issues
provider name roles = some (record { subject = "machine2"; key_id = "c2"; key_json = "{}" })
