-- ===== src/Gizpay/Keys.antt =====
-- subscriptionKeys, writeKey and keyMap (internal/gizpay/handler.go): the revocation, the reading and
-- the creation of one Subscription Key.
pub mod Aging
mod Tests
use Prim.Native.String.{String}
use gizway.Prelude.{
  Bool, true, false, not, ◌&&◌, ◌||◌, Option, none, some, List, [], ◌∷◌, any, if◌then◌else◌,
}
use gizway.Text.{str_eq, is_blank}
use gizway.Gizpay.Store.{Store, Instant, SubscriptionKey}
use gizway.Gizpay.Request.{
  M, ◌>>=◌, ◌>>◌, pure, fail, reply_if, Sql, row, no_rows, violates, failed, statement, exec, query,
  now_utc, Response, error_json, internal, invalid, not_found, subscription_key,
}
use gizway.Gizpay.Charge.{select}

abbrev pub is_key : String → String → SubscriptionKey → Bool
is_key id subscription k = str_eq k.id id && str_eq k.subscription_id subscription

unfoldable pub find_key : String → String → Store → Sql SubscriptionKey
find_key id subscription s = select (is_key id subscription) (λ k. k) s.subscription_keys

-- The response leaves out the HMAC of the key.
unfoldable pub write_key : String → String → M Response
write_key id subscription = do
  k ← exec not_found (query (find_key id subscription))
  pure (record { status = 200; body = subscription_key k })

abbrev pub is_revocable : String → String → SubscriptionKey → Bool
is_revocable id subscription k = is_key id subscription k && str_eq k.status "active"

abbrev pub revoke_row : Instant → String → String → SubscriptionKey → SubscriptionKey
revoke_row at id subscription k =
    if is_revocable id subscription k
    then record k { status = "revoked"; revoked_at = some at }
    else k

unfoldable pub revoke_rows : Instant → String → String → List SubscriptionKey → List SubscriptionKey
revoke_rows at id subscription [] = []
revoke_rows at id subscription (k ∷ ks) =
    revoke_row at id subscription k ∷ revoke_rows at id subscription ks

-- `UPDATE subscription_keys SET status='revoked',...`: whether a row was updated.
unfoldable pub update_revoked : Instant → String → String → Store → Sql Bool × Store
update_revoked at id subscription s = (
  row (any (is_revocable id subscription) s.subscription_keys),
  record s { subscription_keys = revoke_rows at id subscription s.subscription_keys },
)

unfoldable pub is_revoked : String → String → Store → Bool
is_revoked id subscription s =
    any (λ k. is_key id subscription k && str_eq k.status "revoked") s.subscription_keys

-- Where no row was updated: the key has been revoked before, or does not exist.
abbrev pub check_revoked : String → String → Bool → M (Unit {0})
check_revoked id subscription true = pure tt
check_revoked id subscription false =
    exec internal (query (λ s. row (is_revoked id subscription s))) >>= λ exists.
    reply_if (not exists) not_found

unfoldable pub revoke_key : String → String → M Response
revoke_key id subscription = do
  now ← now_utc
  updated ← exec internal (update_revoked now id subscription)
  check_revoked id subscription updated
  write_key id subscription

pub record KeyRequest : Type 0 where
  pub id : String
  pub name : String

-- The key that the request's ID names, of any subscription.
unfoldable pub find_key_id : String → Store → Sql SubscriptionKey
find_key_id id s = select (λ k. str_eq k.id id) (λ k. k) s.subscription_keys

abbrev pub answer_key : String → KeyRequest → M (Unit {0}) → Sql SubscriptionKey → M (Unit {0})
answer_key subscription body absent (row k) =
    if str_eq k.subscription_id subscription && str_eq k.name body.name
    then (write_key body.id subscription >>= λ r. fail r)
    else fail (error_json 409 "resource_id_conflict")
answer_key subscription body absent no_rows = absent
answer_key subscription body absent (violates c) = fail internal
answer_key subscription body absent failed = fail internal

unfoldable pub replay_key : String → KeyRequest → M (Unit {0}) → M (Unit {0})
replay_key subscription body absent =
    statement (query (find_key_id body.id)) >>= answer_key subscription body absent

-- The primary key, and the unique key and HMAC.
unfoldable pub key_clashes : SubscriptionKey → SubscriptionKey → Bool
key_clashes new k = str_eq k.id new.id || str_eq k.key new.key || str_eq k.hmac new.hmac

unfoldable pub insert_key : SubscriptionKey → Store → Sql Bool × Store
insert_key new s =
    if any (key_clashes new) s.subscription_keys
    then (row false, s)
    else if any (λ r. str_eq r.id new.subscription_id) s.subscriptions
    then (row true, record s { subscription_keys = new ∷ s.subscription_keys })
    else (violates "foreign_key", s)

abbrev pub new_key : (String → String) → String → KeyRequest → String → Instant → SubscriptionKey
new_key hmac subscription body raw now = record {
  id = body.id;
  subscription_id = subscription;
  name = body.name;
  key = raw;
  hmac = hmac raw;
  status = "active";
  created_at = now;
  last_used_at = none;
  revoked_at = none;
}

abbrev pub answer_inserted_key : String → KeyRequest → Bool → M (Unit {0})
answer_inserted_key subscription body true = pure tt
answer_inserted_key subscription body false = replay_key subscription body (fail internal)

abbrev pub or_internal : Option String → M String
or_internal none = fail internal
or_internal (some raw) = pure raw

-- `hmac` is subscriptionkey.HMAC with the configured secret, and `raw` the new key, absent where the
-- source of randomness fails. The body is absent where it does not decode.
unfoldable pub create_key :
    (String → String) → Option String → String → Option KeyRequest → M Response
create_key hmac raw subscription none = fail invalid
create_key hmac raw subscription (some body) = do
  reply_if (is_blank body.id || is_blank body.name) invalid
  replay_key subscription body (pure tt)
  key ← or_internal raw
  now ← now_utc
  inserted ← exec internal (insert_key (new_key hmac subscription body key now))
  answer_inserted_key subscription body inserted
  pure (record { status = 201; body = subscription_key (new_key hmac subscription body key now) })
