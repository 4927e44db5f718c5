-- ===== src/Gizpay/CreditCheck/Decision.antt =====
-- The decision of creditCheck (internal/gizpay/handler.go), and what a revocation does to it.
use Prim.Native.String.{String}
use gizway.Prelude.{
  some_injective, true, false, not, Option, none, some, find, ◌≡◌, refl, sym, ap, ◌∙◌, arith,
  Bool-cases, inl, inr,
}
use gizway.Int.{ℤ, pos, ◌<ℤ◌}
use gizway.Int64.{fits64}
use gizway.Text.{str_eq, is_blank}
use gizway.Gizpay.Store.{Store, User, SubscriptionKey, Subscription, Product, ledger_balance}
use gizway.Gizpay.Request.{
  World, reply_if, Response, Sql, row, no_rows, violates, failed, join, exec, query, now_utc,
  invalid, credit, CreditBody,
}
use gizway.Gizpay.Triple.{Post, Post-bind, Post-done}
use gizway.Gizpay.Charge.Reading.{query-row, reply_if-same}
use gizway.Gizpay.Charge.Writing.{now_utc-same}
use gizway.Gizpay.CreditCheck.{
  CreditRow, credit_row, credit_columns, join_user, join_account, join_product, join_subscription,
  find_credit, credit_body, unknown_key, credit_check,
}

-- The key of the HMAC, its subscription and its product are active, and the account of the
-- subscription has a balance above zero, which is what is available.
pub record Funds (hmac : String) (s : Store) (b : CreditBody) : Type 0 where
  pub key : SubscriptionKey
  pub sub : Subscription
  pub product : Product
  pub key_found : find (λ k. str_eq k.hmac hmac) s.subscription_keys ≡ some key
  pub sub_found : find (λ r. str_eq r.id key.subscription_id) s.subscriptions ≡ some sub
  pub product_found : find (λ r. str_eq r.id sub.product_id) s.products ≡ some product
  pub key_active : str_eq key.status "active" ≡ true
  pub sub_active : str_eq sub.status "active" ≡ true
  pub product_active : str_eq product.status "active" ≡ true
  pub positive : pos 0 <ℤ ledger_balance s sub.account_id
  pub available : b.available ≡ ledger_balance s sub.account_id
  pub account : b.account_id ≡ sub.account_id

-- The same of the tables alone.
pub record CanPay (hmac : String) (s : Store) : Type 0 where
  pub key : SubscriptionKey
  pub sub : Subscription
  pub product : Product
  pub key_found : find (λ k. str_eq k.hmac hmac) s.subscription_keys ≡ some key
  pub sub_found : find (λ r. str_eq r.id key.subscription_id) s.subscriptions ≡ some sub
  pub product_found : find (λ r. str_eq r.id sub.product_id) s.products ≡ some product
  pub sub_active : str_eq sub.status "active" ≡ true
  pub product_active : str_eq product.status "active" ≡ true
  pub positive : pos 0 <ℤ ledger_balance s sub.account_id

-- The row of the query comes from the tables.
record Joined (hmac : String) (s : Store) (c : CreditRow) : Type 0 where
  key : SubscriptionKey
  sub : Subscription
  product : Product
  key_found : find (λ k. str_eq k.hmac hmac) s.subscription_keys ≡ some key
  sub_found : find (λ r. str_eq r.id key.subscription_id) s.subscriptions ≡ some sub
  product_found : find (λ r. str_eq r.id sub.product_id) s.products ≡ some product
  key_status : c.key_status ≡ key.status
  sub_status : c.subscription_status ≡ sub.status
  product_status : c.product_status ≡ product.status
  balance : c.balance ≡ ledger_balance s sub.account_id
  account : c.account_id ≡ sub.account_id

module _ {A B : Type 0} where
  join-row :
      (o : Option A) (f : A → Sql B) (b : B)
      → join o f ≡ row b
      → (a : A) × (o ≡ some a) × (f a ≡ row b)
  join-row none f b h = absurd (cc)
  join-row (some a) f b h = (a, refl, h)

module _ (hmac : String) (s : Store) (c : CreditRow) where
  columns-row :
      (k : SubscriptionKey) (sub : Subscription) (p : Product) (u : User)
      → credit_columns s k sub p u ≡ row c
      → c ≡ credit_row s k sub p u
  unfolding credit_columns
  columns-row k sub p u h = elim (Bool-cases (fits64 (ledger_balance s sub.account_id))) [
    | inl fits ↦
        sym (
          ap (λ r. elim r [ row x ↦ x | no_rows ↦ c | violates v ↦ c | failed ↦ c ]) (rw fits at h))
    | inr wide ↦ absurd (ground arith)
  ]

  columns-Joined :
      (k : SubscriptionKey) (sub : Subscription) (p : Product) (u : User)
      → find (λ k. str_eq k.hmac hmac) s.subscription_keys ≡ some k
      → find (λ r. str_eq r.id k.subscription_id) s.subscriptions ≡ some sub
      → find (λ r. str_eq r.id sub.product_id) s.products ≡ some p
      → c ≡ credit_row s k sub p u
      → Joined hmac s c
  columns-Joined k sub p u fk fs fp columns = record {
    key = k;
    sub = sub;
    product = p;
    key_found = fk;
    sub_found = fs;
    product_found = fp;
    key_status = ap (λ x. x.key_status) columns;
    sub_status = ap (λ x. x.subscription_status) columns;
    product_status = ap (λ x. x.product_status) columns;
    balance = ap (λ x. x.balance) columns;
    account = ap (λ x. x.account_id) columns;
  }

  find_credit-Joined : find_credit hmac s ≡ row c → Joined hmac s c
  unfolding find_credit join_subscription join_product join_account join_user
  find_credit-Joined h =
      let (k, fk, h1) =
        join-row (find (λ k. str_eq k.hmac hmac) s.subscription_keys) (join_subscription s) c h in
      let (sub, fs, h2) =
        join-row (find (λ r. str_eq r.id k.subscription_id) s.subscriptions) (join_product s k) c
          h1 in
      let (p, fp, h3) =
        join-row (find (λ r. str_eq r.id sub.product_id) s.products) (join_account s k sub) c h2 in
      let (a, _, h4) =
        join-row (find (λ a. str_eq a.id sub.account_id) s.accounts) (join_user s k sub p) c h3 in
      let (u, _, h5) =
        join-row (find (λ u. str_eq u.id a.owner_user_id) s.users) (credit_columns s k sub p) c
          h4 in
      columns-Joined k sub p u fk fs fp (columns-row k sub p u h5)

  decide-Funds :
      (recheck now : ℤ)
      → Joined hmac s c
      → str_eq c.key_status "active" ≡ true
      → (credit_body recheck now c).allowed ≡ true
      → Funds hmac s (credit_body recheck now c)
  unfolding credit_body
  decide-Funds recheck now j active allowed = record {
    key = j.key;
    sub = j.sub;
    product = j.product;
    key_found = j.key_found;
    sub_found = j.sub_found;
    product_found = j.product_found;
    key_active = rw (← j.key_status) active;
    sub_active = rw (← j.sub_status) (ground arith);
    product_active = rw (← j.product_status) (ground arith);
    positive = rw (← j.balance) (ground arith);
    available = rw allowed j.balance;
    account = j.account;
  }

  decide-CanPay :
      (recheck now : ℤ)
      → Joined hmac s c
      → CanPay hmac s
      → (credit_body recheck now c).allowed ≡ true
  unfolding credit_body
  decide-CanPay recheck now j h =
      let k : h.key ≡ j.key = some_injective (sym h.key_found ∙ j.key_found) in
      let r : h.sub ≡ j.sub = some_injective (
        sym h.sub_found
        ∙ ap (λ x. find (λ r. str_eq r.id x.subscription_id) s.subscriptions) k
        ∙ j.sub_found) in
      let p : h.product ≡ j.product = some_injective (
        sym h.product_found
        ∙ ap (λ x. find (λ r. str_eq r.id x.product_id) s.products) r
        ∙ j.product_found) in
      let sub_up : str_eq c.subscription_status "active" ≡ true =
        rw (j.sub_status, ← r) h.sub_active in
      let product_up : str_eq c.product_status "active" ≡ true =
        rw (j.product_status, ← p) h.product_active in
      let above : pos 0 <ℤ c.balance = rw (j.balance, ← r) h.positive in
      rw (sub_up, product_up) (ground arith)

  decide-Nothing :
      (recheck now : ℤ)
      → (credit_body recheck now c).allowed ≡ false
      → (credit_body recheck now c).available ≡ pos 0
  unfolding credit_body
  decide-Nothing recheck now refused = rw refused refl

-- The HMAC finds a key, which is active.
abbrev pub IsLive : String → Store → Type 0
IsLive hmac s =
    (key : SubscriptionKey) × (find (λ k. str_eq k.hmac hmac) s.subscription_keys ≡ some key)
    × (str_eq key.status "active" ≡ true)

-- What a check decides from a store.
abbrev pub Decides : ℤ → String → Store → Response → Type 0
Decides recheck hmac s r =
    (b : CreditBody) × (r ≡ record { status = 200; body = credit b })
    × (b.allowed ≡ true → Funds hmac s b)
    × (CanPay hmac s → b.allowed ≡ true)
    × (b.allowed ≡ false → b.available ≡ pos 0)
    × (b.recheck_after_seconds ≡ recheck)
    × IsLive hmac s

decided-Decides :
    (recheck now : ℤ) (hmac : String) (s : Store) (c : CreditRow)
    → find_credit hmac s ≡ row c
    → not (str_eq c.key_status "active") ≡ false
    → Decides recheck hmac s (record { status = 200; body = credit (credit_body recheck now c) })
unfolding credit_body
decided-Decides recheck now hmac s c found active =
    let j = find_credit-Joined hmac s c found in
    let live : str_eq c.key_status "active" ≡ true = ground arith in
    (
      credit_body recheck now c,
      refl,
      decide-Funds hmac s c recheck now j live,
      decide-CanPay hmac s c recheck now j,
      decide-Nothing hmac s c recheck now,
      refl,
      (j.key, j.key_found, ap (λ x. str_eq x "active") (sym j.key_status) ∙ live),
    )

-- A check that goes through writes nothing and answers 200, for an active key alone. It allows exactly
-- where the subscription and the product of the key are active and the balance of the ledger is
-- positive, which is then what is available; what it does not allow has 0 available. The answer carries the interval to the next check.
pub credit_check-Decides :
    (recheck : ℤ) (hmac : String) (w : World)
    → Post
        (λ r t. (t ≡ w.store) × Decides recheck hmac w.store r)
        (credit_check recheck (some hmac) w)
unfolding credit_check
credit_check-Decides recheck hmac w =
    Post-bind _ _ (reply_if (is_blank hmac) invalid) _ w (reply_if-same (is_blank hmac) invalid w)
      (λ _ w1 (s1, _).
        Post-bind _ _ (exec unknown_key (query (find_credit hmac))) _ w1
          (query-row unknown_key (find_credit hmac) w1)
          (λ c w2 (s2, found).
            Post-bind _ _ (reply_if (not (str_eq c.key_status "active")) unknown_key) _ w2
              (reply_if-same (not (str_eq c.key_status "active")) unknown_key w2)
              (λ _ w3 (s3, active). Post-bind _ _ now_utc _ w3 (now_utc-same w3) (λ now w4 s4.
                Post-done _ _ w4 (
                  s4 ∙ s3 ∙ s2 ∙ s1,
                  decided-Decides recheck now hmac w.store c (rw (← s1) found) active,
                )))))
