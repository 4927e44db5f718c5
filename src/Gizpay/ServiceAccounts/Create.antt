-- ===== src/Gizpay/ServiceAccounts/Create.antt =====
-- The POST of serviceAccounts (internal/gizpay/handler.go). The identity provider is a parameter; the
-- credentials that it is asked to revoke are returned beside the outcome.
use Prim.Native.String.{String}
use gizway.Prelude.{Bool, not, ◌&&◌, ◌||◌, Option, none, some, List, [], ◌∷◌, any, if◌then◌else◌}
use gizway.Text.{str_eq, is_blank}
use gizway.Gizpay.Store.{Store, ServicePrincipal}
use gizway.Gizpay.Request.{
  World, Outcome, done, reply, M, ◌>>=◌, ◌>>◌, pure, Sql, row, violates, exec, new_id, error_json,
  internal, invalid,
}
use gizway.Gizpay.ServiceAccounts.{valid_service_account_roles}

-- What the identity provider issues.
pub record Credential : Type 0 where
  pub subject : String
  pub key_id : String
  pub key_json : String

pub record ServiceAccountRequest : Type 0 where
  pub name : String
  pub roles : List String

-- The fields of the answer with status 201 that vary.
pub record ServiceAccount : Type 0 where
  pub id : String
  pub name : String
  pub roles : List String
  pub key : String

-- The provider's Create: none where it fails.
abbrev pub Issues : Type 0
Issues = String → List String → Option Credential

abbrev pub new_principal :
    String → String → String → ServiceAccountRequest → Credential → ServicePrincipal
new_principal issuer user id r c = record {
  id = id;
  owner_user_id = user;
  identity_issuer = issuer;
  identity_subject = c.subject;
  credential_key_id = c.key_id;
  name = r.name;
  roles = r.roles;
  status = "active";
  revoked_at = none;
}

-- The primary key and `UNIQUE (identity_issuer, identity_subject)`.
abbrev pub principal_clashes : ServicePrincipal → ServicePrincipal → Bool
principal_clashes new p =
    str_eq p.id new.id
    || str_eq p.identity_issuer new.identity_issuer
      && str_eq p.identity_subject new.identity_subject

-- The check of the table, that the name is not blank, is one of the handler.
unfoldable pub insert_principal : ServicePrincipal → Store → Sql (Unit {0}) × Store
insert_principal new s =
    if any (principal_clashes new) s.service_principals
    then (violates "service_principals_key", s)
    else if any (λ u. str_eq u.id new.owner_user_id) s.users
    then (row tt, record s { service_principals = new ∷ s.service_principals })
    else (violates "service_principals_owner_user_id_fkey", s)

unfoldable pub store_principal : String → String → ServiceAccountRequest → Credential → M String
unfolding insert_principal
store_principal issuer user r c = do
  id ← new_id "svc_"
  exec internal (insert_principal (new_principal issuer user id r c))
  pure id

-- The outcome and the calls of RevokeCredential, whose error is not looked at.
abbrev pub Compensated : Type 0
Compensated = (Outcome ServiceAccount × World) × List Credential

abbrev pub compensate : ServiceAccountRequest → Credential → Outcome String × World → Compensated
compensate r c (done id, w) =
    ((done (record { id = id; name = r.name; roles = r.roles; key = c.key_json }), w), [])
compensate r c (reply e, w) = ((reply e, w), c ∷ [])

abbrev pub with_credential :
    String → String → ServiceAccountRequest → Option Credential → World → Compensated
with_credential issuer user r none w =
    ((reply (error_json 502 "identity_provider_unavailable"), w), [])
with_credential issuer user r (some c) w = compensate r c (store_principal issuer user r c w)

unfoldable pub create_service_account :
    Issues → String → String → Option ServiceAccountRequest → World → Compensated
unfolding store_principal
create_service_account issues issuer user none w = ((reply invalid, w), [])
create_service_account issues issuer user (some r) w =
    if is_blank r.name || not (valid_service_account_roles r.roles)
    then ((reply (error_json 400 "invalid_service_account"), w), [])
    else with_credential issuer user r (issues r.name r.roles) w
