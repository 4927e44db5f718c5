-- ===== src/Gizpay/Charge.antt =====
-- createCharge, postLedger and insertEntry (internal/gizpay/handler.go).
pub mod Validation
pub mod Create
pub mod Handler
pub mod Posting
pub mod Postings
pub mod Legs
pub mod Balanced
pub mod Books
pub mod Effects
pub mod Projection
pub mod Consistency
pub mod Writing
pub mod Reading
pub mod Result
pub mod Once
mod Tests
use Prim.Native.String
use Prim.Native.String.{String}
use gizway.Prelude.{
  ℕ, Bool, true, false, not, ◌&&◌, ◌||◌, Option, none, some, List, [], ◌∷◌, map, any, find, length,
  ltb, if◌then◌else◌,
}
use gizway.Int.{ℤ, pos, ltb_ℤ, leb_ℤ, ◌-ℤ◌}
use gizway.Int64.{sub64, neg64, fits64}
use gizway.Text.{str_eq, is_blank}
use gizway.Gizpay.Store.{
  Store, Instant, Direction, debit, credit, LedgerEntry, LedgerAccount, LedgerTransaction, Merchant,
  SubscriptionKey, Subscription, Product, Account, User, BalanceRow, is_credit_of, post_transaction,
  transaction_net, add_to_balance, all_fit,
}
use gizway.Gizpay.Request.{
  M, ◌>>=◌, ◌>>◌, pure, fail, reply_if, Sql, row, no_rows, violates, failed, join, statement,
  or_reply, exec, query, new_id, now_utc, transaction, insert_unique, Response, error_json,
  internal, invalid, charge,
}
use gizway.Gizpay.Fee.{platform_fee}
use gizway.Gizpay.Metadata.{validate_order_metadata}
use Validation.{
  Config, CommissionRequest, ChargeRequest, check_request, check_commissions, of_check,
}

-- resolvedCommission
pub record ResolvedCommission : Type 0 where
  pub request : CommissionRequest
  pub open request use {merchant_id, amount}
  pub settlement : String

-- `SELECT id FROM t WHERE ...`, of the first row that passes.
abbrev pub select : {A B : Type 0} → (A → Bool) → (A → B) → List A → Sql B
select p f [] = no_rows
select p f (a ∷ as') = if p a then row (f a) else select p f as'

-- The INSERT of insertEntry, with the checks of ledger_entries.
unfoldable pub insert_entry_row : LedgerEntry → Store → Sql (Unit {0}) × Store
insert_entry_row e s =
    if any (λ l. str_eq l.id e.ledger_account_id) s.ledger_accounts
      && any (λ t. str_eq t.id e.transaction_id) s.ledger_transactions
      && ltb_ℤ (pos 0) e.amount
      && not (any (λ r. str_eq r.id e.id) s.ledger_entries)
    then (row tt, record s { ledger_entries = e ∷ s.ledger_entries })
    else (violates "ledger_entries", s)

-- insertEntry; its error is answered by `on_error`.
unfoldable pub insert_entry : Response → String → String → Direction → ℤ → M (Unit {0})
insert_entry on_error transaction_id ledger_id direction amount =
    if leb_ℤ amount (pos 0) && leb_ℤ (pos 0) amount then pure tt else do
      id ← new_id "entry_"
      exec on_error (
          insert_entry_row (record {
            id = id;
            transaction_id = transaction_id;
            ledger_account_id = ledger_id;
            direction = direction;
            amount = amount;
          }))

-- The closure `ledger` of postLedger: of an account, or of a system asset.
unfoldable pub ledger_of_account : String → M String
ledger_of_account account =
    exec internal (query (λ s. select (is_credit_of account) (λ l. l.id) s.ledger_accounts))

unfoldable pub ledger_of_asset : String → M String
ledger_of_asset asset =
    exec internal
      (query (λ s. select (λ l. str_eq l.asset_code asset) (λ l. l.id) s.ledger_accounts))

unfoldable pub post_commissions : String → List ResolvedCommission → M (Unit {0})
post_commissions transaction_id [] = pure tt
post_commissions transaction_id (c ∷ cs) = do
  target ← ledger_of_account c.settlement
  insert_entry internal transaction_id target credit c.amount
  post_commissions transaction_id cs

unfoldable pub post_main : String → String → ℤ → M (Unit {0})
post_main transaction_id ledger main_net =
    if ltb_ℤ (pos 0) main_net
    then insert_entry internal transaction_id ledger credit main_net
    else if ltb_ℤ main_net (pos 0)
    then insert_entry internal transaction_id ledger debit (neg64 main_net)
    else pure tt

unfoldable pub post_fee : String → ℤ → M (Unit {0})
post_fee transaction_id fee =
    if ltb_ℤ (pos 0) fee
    then (ledger_of_asset "platform_fee" >>= λ platform.
        insert_entry internal transaction_id platform credit fee)
    else pure tt

unfoldable pub post_ledger :
    String → String → String → ℤ → ℤ → ℤ → List ResolvedCommission → M (Unit {0})
post_ledger transaction_id payer main gross main_net fee commissions = do
  payer_ledger ← ledger_of_account payer
  insert_entry internal transaction_id payer_ledger debit gross
  main_ledger ← ledger_of_account main
  post_main transaction_id main_ledger main_net
  post_commissions transaction_id commissions
  post_fee transaction_id fee

-- `k.status='active' OR (k.status='revoked' AND $2 <= k.revoked_at)`
unfoldable pub is_chargeable : String → Instant → SubscriptionKey → Bool
is_chargeable hmac started k =
    str_eq k.hmac hmac
    && (str_eq k.status "active"
        || (str_eq k.status "revoked"
            && elim k.revoked_at [ none ↦ false | some at ↦ leb_ℤ started at ]))

-- The row of the first query: the key with its subscription, product and main Merchant.
pub record Payer : Type 0 where
  pub subscription_key_id : String
  pub subscription_id : String
  pub payer_account_id : String
  pub main_merchant_id : String
  pub main_account_id : String
  pub main_merchant_status : String

unfoldable pub find_payer : String → Instant → Store → Sql Payer
find_payer hmac started s = join (find (is_chargeable hmac started) s.subscription_keys) (λ k.
    join (find (λ r. str_eq r.id k.subscription_id) s.subscriptions) (λ sub.
      join (find (λ r. str_eq r.id sub.product_id) s.products) (λ p.
        join (find (λ r. str_eq r.id p.merchant_id) s.merchants) (λ m. row (record {
          subscription_key_id = k.id;
          subscription_id = sub.id;
          payer_account_id = sub.account_id;
          main_merchant_id = m.id;
          main_account_id = m.settlement_account_id;
          main_merchant_status = m.status;
        })))))

-- The loop that resolves the commission Merchants.
unfoldable pub resolve_commissions : List CommissionRequest → M (List ResolvedCommission)
resolve_commissions [] = pure []
resolve_commissions (c ∷ cs) = do
  m ←
      exec (error_json 400 "invalid_commission_merchant")
        (query (λ s. select (λ r. str_eq r.id c.merchant_id) (λ r. r) s.merchants))
  reply_if (not (str_eq m.status "active")) (error_json 400 "commission_merchant_inactive")
  rest ← resolve_commissions cs
  pure (record { request = c; settlement = m.settlement_account_id } ∷ rest)
