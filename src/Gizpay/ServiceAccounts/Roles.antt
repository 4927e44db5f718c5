-- ===== src/Gizpay/ServiceAccounts/Roles.antt =====
-- The roles of a Service Account, and its revocation (internal/gizpay/handler.go).
use Prim.Native.String.{String}
use gizway.Prelude.{
  All, Bool, true, false, ◌&&◌, ◌||◌, List, [], ◌∷◌, any, ◌≡◌, ◌≢◌, ◌↔◌, some, inl, inr, refl, ap,
  arith, Bool-cases, if◌then◌else◌,
}
use gizway.Text.{str_eq}
use gizway.Gizpay.Store.{Store, ServicePrincipal, Instant}
use gizway.Gizpay.Request.{
  World, reply_if, row, exec, query, now_utc, error_json, internal, not_found,
}
use gizway.Gizpay.Triple.{Post, Post-bind, Post-exec, Post-weaken}
use gizway.Gizpay.Charge.Reading.{query-same, reply_if-same, Post-transaction}
use gizway.Gizpay.Charge.Writing.{now_utc-same}
use gizway.Gizpay.ServiceAccounts.{
  is_role, roles_from, valid_service_account_roles, find_principal, revoke_principals,
  update_principal, revoke_body, revoke_service_account,
}

-- No role twice.
abbrev pub IsUnique : List String → Type 0
IsUnique [] = Unit
IsUnique (r ∷ rs) = All (λ q. str_eq r q ≡ false) rs × IsUnique rs

-- Every role is a known one, and none is among those seen.
abbrev IsNew : List String → String → Type 0
IsNew seen role = any (λ r. str_eq r role) seen ≡ false

abbrev pub IsRole : String → Type 0
IsRole role = is_role role ≡ true

tail-IsNew :
    (seen : List String) (role : String) (rs : List String)
    → All (IsNew (role ∷ seen)) rs ↔ (All (λ q. str_eq role q ≡ false) rs × All (IsNew seen) rs)
tail-IsNew seen role [] = (λ h. (tt, tt), λ h. tt)
tail-IsNew seen role (q ∷ rs) =
    let (there, back) = tail-IsNew seen role rs in
    (
      λ (h, hs). let (a, b) = there hs in ((ground arith, a), (ground arith, b)),
      λ ((a, as'), (b, bs)). (ground arith, back (as', bs)),
    )

roles_from_iff :
    (seen rs : List String)
    → (roles_from seen rs ≡ true) ↔ (All IsRole rs × All (IsNew seen) rs × IsUnique rs)
unfolding roles_from
roles_from_iff seen [] = (λ h. (tt, tt, tt), λ h. refl)
roles_from_iff seen (role ∷ rs) =
    let (step, back) = roles_from_iff (role ∷ seen) rs in
    let (there, here) = tail-IsNew seen role rs in
    (
      λ h.
          let rest : roles_from (role ∷ seen) rs ≡ true = ground arith in
          let (roles, news, unique) = step rest in
          let (apart, old) = there news in
          ((ground arith, roles), (ground arith, old), (apart, unique)),
      λ ((known, roles), (new, news), (apart, unique)).
          let rest = back (roles, here (apart, news), unique) in ground arith,
    )

none_seen : (rs : List String) → All (IsNew []) rs
none_seen [] = tt
none_seen (r ∷ rs) = (refl, none_seen rs)

-- validServiceAccountRoles accepts exactly the lists of roles that are not empty, have the two known
-- roles alone, and none of them twice.
pub valid_service_account_roles_iff :
    (roles : List String)
    → (valid_service_account_roles roles ≡ true)
      ↔ ((roles ≢ []) × All IsRole roles × IsUnique roles)
unfolding valid_service_account_roles
valid_service_account_roles_iff [] =
    (λ h. absurd (cc), λ (some_role, _, _). absurd (some_role refl))
valid_service_account_roles_iff (role ∷ roles) =
    let (step, back) = roles_from_iff [] (role ∷ roles) in
    (
      λ h. let (known, _, unique) = step h in ((λ e. absurd (cc)), known, unique),
      λ (_, known, unique). back (known, none_seen (role ∷ roles), unique),
    )

abbrev pub is_active : String → ServicePrincipal → Bool
is_active id p = str_eq p.id id && str_eq p.status "active"

revoked_row :
    (at : Instant) (id : String) (p : ServicePrincipal)
    → is_active id
        (if str_eq p.id id then record p { status = "revoked"; revoked_at = some at } else p)
      ≡ false
revoked_row at id p = elim (Bool-cases (str_eq p.id id)) [
  | inl own ↦ rw own (rw own refl)
  | inr other ↦ rw other (rw other refl)
]

revoke_principals-inactive :
    (at : Instant) (id : String) (ps : List ServicePrincipal)
    → any (is_active id) (revoke_principals at id ps) ≡ false
unfolding revoke_principals
revoke_principals-inactive at id [] = refl
revoke_principals-inactive at id (p ∷ ps) =
    let rest = revoke_principals-inactive at id ps in
    let first = revoked_row at id p in rw (first, rest) refl

update_principal-inactive :
    (at : Instant) (id : String) (s : Store)
    → any (is_active id) (update_principal at id s).1.service_principals ≡ false
unfolding update_principal
update_principal-inactive at id s = revoke_principals-inactive at id s.service_principals

-- A revocation that goes through leaves no active principal of the ID.
pub revoke_service_account-Revokes :
    (refuses : String → String → Bool) (user id : String) (w : World)
    → Post
        (λ _ t. any (is_active id) t.service_principals ≡ false)
        (revoke_service_account refuses user id w)
unfolding revoke_service_account revoke_body
revoke_service_account-Revokes refuses user id w =
    Post-transaction _ (revoke_body refuses user id) w (λ w0 _.
      Post-bind _ _ (exec not_found (query (find_principal user id))) _ w0
        (query-same not_found (find_principal user id) w0)
        (λ p w1 _.
          Post-bind _ _
            (reply_if
              (str_eq p.credential_key_id "" || refuses p.identity_subject p.credential_key_id)
              (error_json 502 "identity_provider_unavailable"))
            _ w1 (reply_if-same _ _ w1)
            (λ _ w2 _. Post-bind _ _ now_utc _ w2 (now_utc-same w2) (λ now w3 _.
              Post-bind (λ _ t. any (is_active id) t.service_principals ≡ false) _
                (exec internal (update_principal now id)) (λ _. exec internal (query (λ s. row tt)))
                w3
                (Post-exec _ internal (update_principal now id) w3
                  (λ _ t e. rw (← (ap (λ x. x.1) e)) (update_principal-inactive now id w3.store)))
                (λ _ w4 h4.
                  Post-weaken _ _ _ (query-same internal (λ s. row tt) w4)
                    (λ _ t same. rw same h4))))))
