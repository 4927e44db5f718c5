-- ===== src/Gizpay/Charge/Create.antt =====
-- The statements in the transaction of createCharge (internal/gizpay/handler.go): the rows that it
-- writes, and the projections for the client.
use Prim.Native.String
use Prim.Native.String.{String}
use gizway.Prelude.{false, not, ◌&&◌, ◌||◌, Option, none, some, List, [], ◌∷◌, any, if◌then◌else◌}
use gizway.Int.{ℤ, pos, ltb_ℤ, leb_ℤ, ◌-ℤ◌}
use gizway.Int64.{neg64}
use gizway.Text.{str_eq}
use gizway.Gizpay.Store.{
  Store, Instant, SubscriptionKey, ChargeRow, CommissionRow, SyncCommission, SyncCharge,
  SyncTransaction, LedgerTransaction, post_transaction, is_posted, transaction_net, add_to_balance,
  all_fit,
}
use gizway.Gizpay.Request.{
  M, ◌>>=◌, ◌>>◌, pure, fail, Sql, row, no_rows, violates, failed, statement, exec, query,
  insert_unique, error_json, internal,
}
use gizway.Gizpay.Charge.{ResolvedCommission, Payer, select}
use gizway.Gizpay.Charge.Validation.{ChargeRequest}

-- `INSERT INTO ledger_transactions ... 'pending'`
unfoldable pub insert_pending : String → String → Instant → M (Unit {0})
insert_pending id kind now = exec internal (λ s.
    let new : LedgerTransaction = record {
      id = id;
      transaction_type = kind;
      posted = false;
      created_at = now;
    } in
    let (r, rows) =
      insert_unique (λ t. str_eq t.id id) "ledger_transactions_pkey" new s.ledger_transactions in
    (r, record s { ledger_transactions = rows }))

-- `UPDATE ledger_transactions SET status='posted' WHERE id=$1`
unfoldable pub mark_posted : String → M (Unit {0})
mark_posted id =
    exec internal
      (λ s. (row tt, record s { ledger_transactions = post_transaction id s.ledger_transactions }))

-- `UPDATE client_sync.account_balances`, refused where a balance leaves the range of BIGINT.
unfoldable pub update_balance : String → ℤ → M (Unit {0})
update_balance account delta = exec internal (λ s.
    let rows = add_to_balance account delta s.balances in
    if all_fit rows then (row tt, record s { balances = rows }) else (violates "bigint", s))

-- The deferred constraint trigger on the transactions that a database transaction has touched.
unfoldable pub commit : String → M (Unit {0})
commit id = exec internal (λ s.
    let net = transaction_net id s.ledger_entries in
    if is_posted s.ledger_transactions id && not (leb_ℤ net (pos 0) && leb_ℤ (pos 0) net)
    then (violates "ledger_transaction_balance", s)
    else (row tt, s))

abbrev pub insert_charge_row : ChargeRow → Store → Sql (Unit {0}) × Store
insert_charge_row c s =
    if any (λ r. str_eq r.external_order_id c.external_order_id) s.payg_charges
    then (violates "payg_charges_external_order_id_key", s)
    else if any (λ r. str_eq r.id c.id) s.payg_charges
        || any (λ r. str_eq r.ledger_transaction_id c.ledger_transaction_id) s.payg_charges
        || leb_ℤ c.gross (pos 0)
        || ltb_ℤ c.platform_fee (pos 0)
        || not (any (λ p. str_eq p.id c.service_principal_id) s.service_principals)
    then (violates "payg_charges", s)
    else (row tt, record s { payg_charges = c ∷ s.payg_charges })

-- The handler's answer to the insertion of the charge, 23505 on the external order ID included.
abbrev pub answer_insert : Sql (Unit {0}) → M (Unit {0})
answer_insert (row a) = pure tt
answer_insert no_rows = fail internal
answer_insert (violates constraint) = fail (
    if str_eq constraint "payg_charges_external_order_id_key"
    then error_json 409 "duplicate_external_order_id"
    else internal)
answer_insert failed = fail internal

unfoldable pub insert_charge : ChargeRow → M (Unit {0})
unfolding statement
insert_charge c = statement (insert_charge_row c) >>= answer_insert

unfoldable pub insert_commission : String → ResolvedCommission → M (Unit {0})
insert_commission charge_id c = exec internal (λ s.
    let new : CommissionRow = record {
      charge_id = charge_id;
      merchant_id = c.merchant_id;
      settlement_account_id = c.settlement;
      amount = c.amount;
    } in
    let (r, rows) =
      insert_unique
        (λ o.
          str_eq o.charge_id charge_id && str_eq o.merchant_id c.merchant_id
          || ltb_ℤ c.amount (pos 0))
        "charge_commissions" new s.charge_commissions in
    (r, record s { charge_commissions = rows }))

unfoldable pub insert_commissions : String → List ResolvedCommission → M (Unit {0})
insert_commissions charge_id [] = pure tt
insert_commissions charge_id (c ∷ cs) = do
  insert_commission charge_id c
  insert_commissions charge_id cs

-- `CASE WHEN last_used_at IS NULL OR last_used_at < $1 THEN $1 ELSE last_used_at END`
abbrev later_use : Option Instant → Instant → Option Instant
later_use none at = some at
later_use (some before) at = if ltb_ℤ before at then some at else some before

unfoldable pub use_key : String → Instant → List SubscriptionKey → List SubscriptionKey
use_key id at [] = []
use_key id at (k ∷ ks) =
    (if str_eq k.id id then record k { last_used_at = later_use k.last_used_at at } else k)
    ∷ use_key id at ks

-- `SELECT u.identity_issuer,u.identity_subject FROM accounts a JOIN users u ...`
unfoldable pub resolve_owner : String → M (String × String)
resolve_owner account = exec internal (
    query (λ s. elim (select (λ a. str_eq a.id account) (λ a. a.owner_user_id) s.accounts) [
      | row user ↦
          select (λ u. str_eq u.id user) (λ u. (u.identity_issuer, u.identity_subject)) s.users
      | no_rows ↦ no_rows
      | violates c ↦ no_rows
      | failed ↦ failed
    ]))

unfoldable pub insert_sync_commission : String → ResolvedCommission → M (Unit {0})
insert_sync_commission charge_id c = exec internal (λ s.
    let id = String.◌++◌ charge_id (String.◌++◌ ":" c.merchant_id) in
    let new : SyncCommission = record {
      id = id;
      merchant_id = c.merchant_id;
      charge_id = charge_id;
      amount = c.amount;
    } in
    let (r, rows) = insert_unique (λ o. str_eq o.id id) "commissions_pkey" new s.sync_commissions in
    (r, record s { sync_commissions = rows }))

-- The last loop: balance, owner and client row of each commission.
unfoldable pub project_commissions : String → List ResolvedCommission → M (Unit {0})
project_commissions charge_id [] = pure tt
project_commissions charge_id (c ∷ cs) = do
  update_balance c.settlement c.amount
  owner ← resolve_owner c.settlement
  insert_sync_commission charge_id c
  project_commissions charge_id cs

-- `UPDATE subscription_keys SET last_used_at=...`
unfoldable pub touch_key : String → Instant → M (Unit {0})
touch_key id at =
    exec internal
      (λ s. (row tt, record s { subscription_keys = use_key id at s.subscription_keys }))

unfoldable pub insert_sync_transaction : SyncTransaction → M (Unit {0})
insert_sync_transaction new = exec internal (λ s.
    let (r, rows) =
      insert_unique (λ o. str_eq o.id new.id) "transactions_pkey" new s.sync_transactions in
    (r, record s { sync_transactions = rows }))

unfoldable pub insert_sync_charge : SyncCharge → M (Unit {0})
insert_sync_charge new = exec internal (λ s.
    let (r, rows) = insert_unique (λ o. str_eq o.id new.id) "charges_pkey" new s.sync_charges in
    (r, record s { sync_charges = rows }))

abbrev pub payer_transaction : String → ChargeRequest → Payer → SyncTransaction
payer_transaction transaction_id body payer = record {
  id = transaction_id;
  account_id = payer.payer_account_id;
  transaction_type = "payg_charge";
  amount = neg64 body.gross;
}

abbrev pub payer_charge : String → ChargeRequest → Payer → SyncCharge
payer_charge charge_id body payer = record {
  id = charge_id;
  account_id = payer.payer_account_id;
  subscription_id = payer.subscription_id;
  external_order_id = body.external_order_id;
  gross = body.gross;
}

-- From the UPDATE of the key to the loop over the commissions: what the client's projections get.
unfoldable pub project_charge :
    String → String → ChargeRequest → Payer → ℤ → List ResolvedCommission → M (Unit {0})
project_charge charge_id transaction_id body payer main_net resolved = do
  touch_key payer.subscription_key_id body.completed
  owner ← resolve_owner payer.payer_account_id
  update_balance payer.payer_account_id (pos 0 -ℤ body.gross)
  update_balance payer.main_account_id main_net
  insert_sync_transaction (payer_transaction transaction_id body payer)
  insert_sync_charge (payer_charge charge_id body payer)
  project_commissions charge_id resolved
