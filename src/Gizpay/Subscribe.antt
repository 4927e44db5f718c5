-- ===== src/Gizpay/Subscribe.antt =====
-- createSubscription and subscriptionResource (internal/gizpay/handler.go).
pub mod Unique
pub mod Accepted
mod Tests
use Prim.Native.String.{String}
use gizway.Prelude.{
  Bool, true, false, not, ◌&&◌, ◌||◌, Option, none, some, List, [], ◌∷◌, any, find, if◌then◌else◌,
}
use gizway.Text.{str_eq, is_blank}
use gizway.Gizpay.Store.{Store, Subscription, Product}
use gizway.Gizpay.Request.{
  M, ◌>>=◌, ◌>>◌, pure, fail, reply_if, Sql, row, no_rows, violates, failed, statement, exec, query,
  Response, error_json, internal, invalid, not_found, subscription,
}
use gizway.Gizpay.Charge.{select}

pub record SubscriptionRequest : Type 0 where
  pub id : String
  pub account_id : String
  pub terms_version : String

unfoldable pub find_subscription : String → Store → Sql Subscription
find_subscription id s = select (λ r. str_eq r.id id) (λ r. r) s.subscriptions

-- `SELECT terms_version FROM products WHERE id=$1 AND status='active' AND published=true`
unfoldable pub find_terms : String → Store → Sql String
find_terms product s =
    select (λ p. str_eq p.id product && str_eq p.status "active" && p.published)
      (λ p. p.terms_version) s.products

abbrev pub is_pair : String → String → Subscription → Bool
is_pair account product r = str_eq r.account_id account && str_eq r.product_id product

unfoldable pub find_other : String → String → Store → Sql String
find_other account product s = select (is_pair account product) (λ r. r.id) s.subscriptions

unfoldable pub existing_subscription : String → SubscriptionRequest → Subscription → Response
existing_subscription product body r =
    if str_eq r.account_id body.account_id
      && str_eq r.product_id product
      && str_eq r.terms_version body.terms_version
    then record { status = 200; body = subscription r }
    else error_json 409 "resource_id_conflict"

-- The three places that read the subscription of the ID again: `absent` is what they do without one.
abbrev pub answer_subscription :
    String → SubscriptionRequest → M (Unit {0}) → M (Unit {0}) → Sql Subscription → M (Unit {0})
answer_subscription product body absent broken (row r) = fail (existing_subscription product body r)
answer_subscription product body absent broken no_rows = absent
answer_subscription product body absent broken (violates c) = broken
answer_subscription product body absent broken failed = broken

unfoldable pub replay_subscription :
    String → SubscriptionRequest → M (Unit {0}) → M (Unit {0}) → M (Unit {0})
replay_subscription product body absent broken =
    statement (query (find_subscription body.id)) >>= answer_subscription product body absent broken

abbrev pub answer_other : String → SubscriptionRequest → Sql String → M (Unit {0})
answer_other product body (row other) =
    if str_eq other body.id
    then replay_subscription product body (fail internal) (fail internal)
    else fail (error_json 409 "subscription_already_exists")
answer_other product body no_rows = pure tt
answer_other product body (violates c) = fail internal
answer_other product body failed = fail internal

unfoldable pub check_other : String → String → SubscriptionRequest → M (Unit {0})
check_other account product body =
    statement (query (find_other account product)) >>= answer_other product body

-- The primary key and `UNIQUE (account_id, product_id)`.
unfoldable pub clashes : Subscription → Subscription → Bool
clashes new r = str_eq r.id new.id || is_pair new.account_id new.product_id r

-- `INSERT INTO subscriptions ... ON CONFLICT DO NOTHING`: whether a row was inserted. The references
-- to the account and the product must hold.
unfoldable pub insert_subscription : Subscription → Store → Sql Bool × Store
insert_subscription new s =
    if any (clashes new) s.subscriptions
    then (row false, s)
    else if any (λ a. str_eq a.id new.account_id) s.accounts
        && any (λ p. str_eq p.id new.product_id) s.products
    then (row true, record s { subscriptions = new ∷ s.subscriptions })
    else (violates "foreign_key", s)

abbrev pub new_subscription : String → SubscriptionRequest → Subscription
new_subscription product body = record {
  id = body.id;
  account_id = body.account_id;
  product_id = product;
  status = "active";
  terms_version = body.terms_version;
}

-- The checks before the insertion.
unfoldable pub check_subscription : String → String → SubscriptionRequest → M (Unit {0})
check_subscription account product body = do
  reply_if (is_blank body.id) invalid
  reply_if (not (str_eq body.account_id account)) not_found
  replay_subscription product body (pure tt) (fail internal)
  terms ← exec not_found (query (find_terms product))
  reply_if (is_blank body.terms_version) invalid
  reply_if (not (str_eq body.terms_version terms)) (error_json 409 "terms_version_mismatch")
  check_other account product body

abbrev pub answer_inserted : String → SubscriptionRequest → Bool → M (Unit {0})
answer_inserted product body true = pure tt
answer_inserted product body false =
    replay_subscription product body (fail (error_json 409 "subscription_already_exists"))
      (fail (error_json 409 "subscription_already_exists"))

-- The body is absent where it does not decode.
unfoldable pub create_subscription : String → String → Option SubscriptionRequest → M Response
create_subscription account product none = fail invalid
create_subscription account product (some body) = do
  check_subscription account product body
  inserted ← exec internal (insert_subscription (new_subscription product body))
  answer_inserted product body inserted
  pure (record { status = 201; body = subscription (new_subscription product body) })

-- `SELECT s.* FROM subscriptions s JOIN accounts a ... WHERE s.id=$1 AND a.owner_user_id=$2`
unfoldable pub find_owned : String → String → Store → Sql Subscription
find_owned user id s =
    select
      (λ r.
        str_eq r.id id
        && any (λ a. str_eq a.id r.account_id && str_eq a.owner_user_id user) s.accounts)
      (λ r. r) s.subscriptions

unfoldable pub set_status : String → String → List Subscription → List Subscription
set_status id status [] = []
set_status id status (r ∷ rs) =
    (if str_eq r.id id then record r { status = status } else r) ∷ set_status id status rs

-- `UPDATE subscriptions SET status=$1 WHERE id=$2`: whether a row was updated.
unfoldable pub update_status : String → String → Store → Sql Bool × Store
update_status id status s = (
  row (any (λ r. str_eq r.id id) s.subscriptions),
  record s { subscriptions = set_status id status s.subscriptions },
)

abbrev pub is_status : String → Bool
is_status status = str_eq status "active" || str_eq status "paused" || str_eq status "inactive"

unfoldable pub patch_owned : String → Option String → Subscription → M Response
patch_owned id body r = do
  status ← elim body [ none ↦ fail invalid | some status ↦ pure status ]
  reply_if (not (is_status status)) invalid
  updated ← exec invalid (update_status id status)
  reply_if (not updated) not_found
  pure (record { status = 200; body = subscription (record r { status = status }) })

-- The PATCH of a subscription.
unfoldable pub patch_subscription : String → String → Option String → M Response
patch_subscription user id body =
    exec not_found (query (find_owned user id)) >>= patch_owned id body
