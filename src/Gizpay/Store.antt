-- ===== src/Gizpay/Store.antt =====
-- The tables of GizPay (data/sql/gizpay/migrations/000001_schema.sql) that its handlers read and
-- write, each a list of rows, and the rows' constraints as tests of an insertion.
use Prim.Native.String.{String}
use gizway.Prelude.{Bool, true, false, ◌&&◌, Option, none, some, List, [], ◌∷◌, any, if◌then◌else◌}
use gizway.Int.{ℤ, pos, ◌+ℤ◌, ◌-ℤ◌}
use gizway.Int64.{fits64}
use gizway.Text.{str_eq}

-- A time.Time, as nanoseconds from Go's zero time.
abbrev pub Instant : Type 0
Instant = ℤ

pub data Direction : Type 0 where
  debit credit : Direction

pub record User : Type 0 where
  pub id : String
  pub identity_issuer : String
  pub identity_subject : String
  pub email : String
  pub display_name : String

pub record Account : Type 0 where
  pub id : String
  pub owner_user_id : String

pub record ServicePrincipal : Type 0 where
  pub id : String
  pub owner_user_id : String
  pub identity_issuer : String
  pub identity_subject : String
  pub credential_key_id : String
  pub name : String
  pub roles : List String
  pub status : String
  pub revoked_at : Option Instant

pub record LedgerAccount : Type 0 where
  pub id : String
  pub owner_account_id : Option String
  pub asset_code : String

pub record LedgerTransaction : Type 0 where
  pub id : String
  pub transaction_type : String
  pub posted : Bool
  pub created_at : Instant

pub record LedgerEntry : Type 0 where
  pub id : String
  pub transaction_id : String
  pub ledger_account_id : String
  pub direction : Direction
  pub amount : ℤ

pub record Merchant : Type 0 where
  pub id : String
  pub settlement_account_id : String
  pub legal_name : String
  pub public_name : String
  pub is_default : Bool
  pub status : String

pub record Product : Type 0 where
  pub id : String
  pub merchant_id : String
  pub name : String
  pub billing_mode : String
  pub published : Bool
  pub status : String
  pub terms_version : String

pub record Subscription : Type 0 where
  pub id : String
  pub account_id : String
  pub product_id : String
  pub status : String
  pub terms_version : String

pub record SubscriptionKey : Type 0 where
  pub id : String
  pub subscription_id : String
  pub name : String
  pub key : String
  pub hmac : String
  pub status : String
  pub created_at : Instant
  pub last_used_at : Option Instant
  pub revoked_at : Option Instant

pub record ChargeRow : Type 0 where
  pub id : String
  pub external_order_id : String
  pub subscription_id : String
  pub service_principal_id : String
  pub gross : ℤ
  pub platform_fee : ℤ
  pub main_merchant_net : ℤ
  pub ledger_transaction_id : String
  pub created_at : Instant

pub record CommissionRow : Type 0 where
  pub charge_id : String
  pub merchant_id : String
  pub settlement_account_id : String
  pub amount : ℤ

pub record TopupRow : Type 0 where
  pub id : String
  pub account_id : String
  pub channel : String
  pub external_reference : String
  pub amount : ℤ
  pub ledger_transaction_id : String
  pub created_at : Instant

-- client_sync.user_profiles
pub record UserProfile : Type 0 where
  pub id : String
  pub identity_issuer : String
  pub identity_subject : String
  pub email : String
  pub display_name : String
  pub merchant_id : String

-- client_sync.account_balances
pub record BalanceRow : Type 0 where
  pub account_id : String
  pub balance : ℤ

-- client_sync.transactions
pub record SyncTransaction : Type 0 where
  pub id : String
  pub account_id : String
  pub transaction_type : String
  pub amount : ℤ

-- client_sync.charges
pub record SyncCharge : Type 0 where
  pub id : String
  pub account_id : String
  pub subscription_id : String
  pub external_order_id : String
  pub gross : ℤ

-- client_sync.commissions
pub record SyncCommission : Type 0 where
  pub id : String
  pub merchant_id : String
  pub charge_id : String
  pub amount : ℤ

pub record Store : Type 0 where
  pub users : List User
  pub accounts : List Account
  pub service_principals : List ServicePrincipal
  pub ledger_accounts : List LedgerAccount
  pub ledger_transactions : List LedgerTransaction
  pub ledger_entries : List LedgerEntry
  pub merchants : List Merchant
  pub products : List Product
  pub subscriptions : List Subscription
  pub subscription_keys : List SubscriptionKey
  pub payg_charges : List ChargeRow
  pub charge_commissions : List CommissionRow
  pub topups : List TopupRow
  pub user_profiles : List UserProfile
  pub balances : List BalanceRow
  pub sync_transactions : List SyncTransaction
  pub sync_charges : List SyncCharge
  pub sync_commissions : List SyncCommission

-- `ledger_accounts WHERE owner_account_id=$1 AND asset_code='credit'`
abbrev pub is_credit_of : String → LedgerAccount → Bool
is_credit_of account l =
    elim l.owner_account_id [ none ↦ false | some o ↦ str_eq o account ]
    && str_eq l.asset_code "credit"

-- The account that a row of ledger_accounts counts for in the view account_balances.
abbrev pub owner_of : LedgerAccount → Option String
owner_of l = if str_eq l.asset_code "credit" then l.owner_account_id else none

-- The view account_balances: the account to which a ledger account's entries count.
unfoldable pub holder : List LedgerAccount → String → Option String
holder [] ledger = none
holder (l ∷ ls) ledger = if str_eq l.id ledger then owner_of l else holder ls ledger

unfoldable pub is_posted : List LedgerTransaction → String → Bool
is_posted transactions id = any (λ t. str_eq t.id id && t.posted) transactions

-- `CASE WHEN e.direction='credit' THEN e.amount_microcredits ... ELSE -e.amount_microcredits`
abbrev pub signed_amount : Direction → ℤ → ℤ
signed_amount credit amount = amount
signed_amount debit amount = pos 0 -ℤ amount

abbrev pub holds : Option String → String → Bool
holds none account = false
holds (some a) account = str_eq account a

-- The contribution of one entry to the balance of an account.
unfoldable pub entry_share : List LedgerAccount → List LedgerTransaction → String → LedgerEntry → ℤ
entry_share ledgers transactions account e =
    if is_posted transactions e.transaction_id && holds (holder ledgers e.ledger_account_id) account
    then signed_amount e.direction e.amount
    else pos 0

unfoldable pub sum_shares :
    List LedgerAccount → List LedgerTransaction → String → List LedgerEntry → ℤ
sum_shares ledgers transactions account [] = pos 0
sum_shares ledgers transactions account (e ∷ es) =
    entry_share ledgers transactions account e +ℤ sum_shares ledgers transactions account es

-- The view account_balances, of one account.
unfoldable pub ledger_balance : Store → String → ℤ
ledger_balance s account =
    sum_shares s.ledger_accounts s.ledger_transactions account s.ledger_entries

-- assert_ledger_transaction_balanced: the debits of a transaction less its credits.
unfoldable pub transaction_net : String → List LedgerEntry → ℤ
transaction_net id [] = pos 0
transaction_net id (e ∷ es) =
    if str_eq e.transaction_id id
    then (pos 0 -ℤ signed_amount e.direction e.amount) +ℤ transaction_net id es
    else transaction_net id es

-- `UPDATE client_sync.account_balances SET balance_microcredits=balance_microcredits+$1`
unfoldable pub add_to_balance : String → ℤ → List BalanceRow → List BalanceRow
add_to_balance account delta [] = []
add_to_balance account delta (b ∷ bs) =
    (if str_eq b.account_id account then record b { balance = b.balance +ℤ delta } else b)
    ∷ add_to_balance account delta bs

-- The range check of a BIGINT column.
abbrev pub all_fit : List BalanceRow → Bool
all_fit [] = true
all_fit (b ∷ bs) = fits64 b.balance && all_fit bs

-- `UPDATE ledger_transactions SET status='posted' WHERE id=$1`
unfoldable pub post_transaction : String → List LedgerTransaction → List LedgerTransaction
post_transaction id [] = []
post_transaction id (t ∷ ts) =
    (if str_eq t.id id then record t { posted = true } else t) ∷ post_transaction id ts
