-- ===== src/Gizpay/CreditCheck.antt =====
-- creditCheck (internal/gizpay/handler.go).
pub mod Decision
pub mod Revocation
mod Tests
use Prim.Native.String.{String}
use gizway.Prelude.{
  Bool, true, false, not, ◌&&◌, Option, none, some, List, [], ◌∷◌, find, any, if◌then◌else◌,
}
use gizway.Int.{ℤ, pos, ltb_ℤ}
use gizway.Int64.{fits64}
use gizway.Text.{str_eq, is_blank}
use gizway.Gizpay.Store.{
  Store, User, Account, Product, Subscription, SubscriptionKey, ledger_balance,
}
use gizway.Gizpay.Request.{
  M, ◌>>=◌, ◌>>◌, pure, fail, reply_if, Sql, row, no_rows, violates, join, exec, query, now_utc,
  Response, error_json, invalid, credit, CreditBody,
}

-- The row of the query.
pub record CreditRow : Type 0 where
  pub subscription_key_id : String
  pub account_id : String
  pub subscription_id : String
  pub product_id : String
  pub billing_mode : String
  pub owner_issuer : String
  pub owner_subject : String
  pub key_status : String
  pub subscription_status : String
  pub product_status : String
  pub balance : ℤ

-- The columns of the query.
abbrev pub credit_row : Store → SubscriptionKey → Subscription → Product → User → CreditRow
credit_row s k sub p u = record {
  subscription_key_id = k.id;
  account_id = sub.account_id;
  subscription_id = sub.id;
  product_id = p.id;
  billing_mode = p.billing_mode;
  owner_issuer = u.identity_issuer;
  owner_subject = u.identity_subject;
  key_status = k.status;
  subscription_status = sub.status;
  product_status = p.status;
  balance = ledger_balance s sub.account_id;
}

-- The view account_balances has a cast to BIGINT, which fails out of range.
unfoldable pub credit_columns :
    Store → SubscriptionKey → Subscription → Product → User → Sql CreditRow
credit_columns s k sub p u =
    if fits64 (ledger_balance s sub.account_id)
    then row (credit_row s k sub p u)
    else violates "bigint"

-- The joins, each on a primary key.
unfoldable pub join_user :
    Store → SubscriptionKey → Subscription → Product → Account → Sql CreditRow
join_user s k sub p a =
    join (find (λ u. str_eq u.id a.owner_user_id) s.users) (credit_columns s k sub p)

unfoldable pub join_account : Store → SubscriptionKey → Subscription → Product → Sql CreditRow
join_account s k sub p =
    join (find (λ a. str_eq a.id sub.account_id) s.accounts) (join_user s k sub p)

unfoldable pub join_product : Store → SubscriptionKey → Subscription → Sql CreditRow
join_product s k sub =
    join (find (λ r. str_eq r.id sub.product_id) s.products) (join_account s k sub)

unfoldable pub join_subscription : Store → SubscriptionKey → Sql CreditRow
join_subscription s k =
    join (find (λ r. str_eq r.id k.subscription_id) s.subscriptions) (join_product s k)

unfoldable pub find_credit : String → Store → Sql CreditRow
find_credit hmac s = join (find (λ k. str_eq k.hmac hmac) s.subscription_keys) (join_subscription s)

abbrev pub is_allowed : CreditRow → Bool
is_allowed c =
    str_eq c.subscription_status "active"
    && str_eq c.product_status "active"
    && ltb_ℤ (pos 0) c.balance

unfoldable pub credit_body : ℤ → ℤ → CreditRow → CreditBody
credit_body recheck now c = record {
  allowed = is_allowed c;
  available = if is_allowed c then c.balance else pos 0;
  account_id = c.account_id;
  subscription_id = c.subscription_id;
  subscription_key_id = c.subscription_key_id;
  product_id = c.product_id;
  billing_mode = c.billing_mode;
  owner_issuer = c.owner_issuer;
  owner_subject = c.owner_subject;
  checked_at = now;
  recheck_after_seconds = recheck;
}

abbrev pub unknown_key : Response
unknown_key = error_json 401 "invalid_subscription_key"

-- `recheck` is RecheckInterval in seconds. The body is absent where it does not decode.
unfoldable pub credit_check : ℤ → Option String → M Response
credit_check recheck none = fail invalid
credit_check recheck (some hmac) = do
  reply_if (is_blank hmac) invalid
  c ← exec unknown_key (query (find_credit hmac))
  reply_if (not (str_eq c.key_status "active")) unknown_key
  now ← now_utc
  pure (record { status = 200; body = credit (credit_body recheck now c) })
