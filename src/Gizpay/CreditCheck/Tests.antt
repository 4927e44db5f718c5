-- ===== src/Gizpay/CreditCheck/Tests.antt =====
-- Credit checks on a small database (creditCheck, internal/gizpay/handler.go).

use gizway.Prelude.{none, some, ◌≡◌, refl}
use gizway.Int.{pos}
use gizway.Gizpay.Store.{SubscriptionKey}
use gizway.Gizpay.Request.{World, reply, Response, subscription_key, exec, statement, now_utc}
use gizway.Gizpay.Triple.{Post}
use gizway.Gizpay.Fixture.{start, world, healthy}
use gizway.Gizpay.Keys.{revoke_key, write_key, find_key, update_revoked, revoke_rows}
use gizway.Gizpay.CreditCheck.{credit_check}
use gizway.Gizpay.CreditCheck.Decision.{Decides, credit_check-Decides}
use gizway.Gizpay.CreditCheck.Revocation.{credit_check_of_revoked}

credit_check-Decides_example :
    Post
      (λ r t. (t ≡ start) × Decides (pos 60) "h1" start r)
      (credit_check (pos 60) (some "h1") (world healthy start))
credit_check-Decides_example = credit_check-Decides (pos 60) "h1" (world healthy start)

abbrev main_key : SubscriptionKey
main_key = record {
  id = "k1";
  subscription_id = "s1";
  name = "main";
  key = "gzk";
  hmac = "h1";
  status = "active";
  created_at = pos 1;
  last_used_at = none;
  revoked_at = none;
}

abbrev after_revocation : World
after_revocation = world healthy (revoke_key "k1" "s1" (world healthy start)).1.store

credit_check_of_revoked_example :
    (e : Response) × ((credit_check (pos 60) (some "h1") after_revocation).0 ≡ reply e)
    × ((credit_check (pos 60) (some "h1") after_revocation).1.store ≡ after_revocation.store)
unfolding revoke_key write_key find_key update_revoked revoke_rows exec statement now_utc
credit_check_of_revoked_example =
    credit_check_of_revoked (pos 60) "k1" "s1" "h1" main_key (world healthy start) after_revocation
      (record {
        status = 200;
        body = subscription_key (record main_key { status = "revoked"; revoked_at = some (pos 9) });
      })
      refl refl refl refl
