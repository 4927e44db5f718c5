-- ===== src/Gizpay/Identity.antt =====
-- initializeIdentity (internal/gizpay/handler.go): the user, account, ledger account, default Merchant
-- and projections of a person who signs in.
pub mod Initial
pub mod Tied
pub mod Signature
pub mod Webhook
pub mod Values
pub mod Signed
pub mod Authentic
mod Tests
use Prim.Native.String.{String}
use gizway.Prelude.{
  Bool, true, false, not, ◌&&◌, ◌||◌, Option, none, some, List, [], ◌∷◌, any, find, if◌then◌else◌,
}
use gizway.Int.{pos}
use gizway.Text.{str_eq, is_blank}
use gizway.Gizpay.Store.{
  Store, User, Account, LedgerAccount, Merchant, UserProfile, BalanceRow, is_credit_of,
}
use gizway.Gizpay.Request.{
  M, ◌>>=◌, ◌>>◌, pure, fail, reply_if, Sql, row, no_rows, violates, failed, statement, exec, query,
  new_id, transaction, Response, error_json, internal,
}
use gizway.Gizpay.Charge.{select}
use gizway.Gizpay.Merchants.{merchant_clashes}

pub record Identity : Type 0 where
  pub issuer : String
  pub subject : String
  pub email : String
  pub display_name : String
  pub requested_merchant : String

-- What it returns.
pub record Initialized : Type 0 where
  pub user_id : String
  pub account_id : String
  pub ledger_id : String
  pub merchant_id : String

-- errIdentityInitializationConflict; every other error is an internal one.
abbrev pub identity_conflict : Response
identity_conflict = error_json 409 "identity_initialization_conflict"

abbrev pub is_user : Identity → User → Bool
is_user i u = str_eq u.identity_issuer i.issuer && str_eq u.identity_subject i.subject

abbrev pub owns : Identity → Store → String → Bool
owns i s account =
    any (λ a. str_eq a.id account && any (λ u. str_eq u.id a.owner_user_id && is_user i u) s.users)
      s.accounts

-- `SELECT m.id FROM merchants m JOIN accounts a ... JOIN users u ... AND m.is_default=true`
unfoldable pub find_existing : Identity → Store → Sql String
find_existing i s =
    select (λ m. owns i s m.settlement_account_id && m.is_default) (λ m. m.id) s.merchants

abbrev pub is_none : String → Bool
is_none x = str_eq x ""

-- sql.ErrNoRows leaves the empty string.
abbrev pub or_empty : Sql String → M String
or_empty (row id) = pure id
or_empty no_rows = pure ""
or_empty (violates c) = fail internal
or_empty failed = fail internal

-- A requested Merchant that exists is another one's.
abbrev pub answer_requested : Sql String → M (Unit {0})
answer_requested (row account) = fail identity_conflict
answer_requested no_rows = pure tt
answer_requested (violates c) = fail internal
answer_requested failed = fail internal

unfoldable pub find_merchant_account : String → Store → Sql String
find_merchant_account id s = select (λ m. str_eq m.id id) (λ m. m.settlement_account_id) s.merchants

unfoldable pub check_new : Identity → String → M (Unit {0})
check_new i existing =
    if not (is_none i.requested_merchant) && is_none existing
    then (statement (query (find_merchant_account i.requested_merchant)) >>= answer_requested)
    else pure tt

unfoldable pub check_requested : Identity → M (Unit {0})
check_requested i = do
  existing ← statement (query (find_existing i)) >>= or_empty
  reply_if
      (not (is_none existing)
        && not (is_none i.requested_merchant)
        && not (str_eq existing i.requested_merchant))
      identity_conflict
  check_new i existing

unfoldable pub rename_users : Identity → List User → List User
rename_users i [] = []
rename_users i (u ∷ us) =
    (if is_user i u then record u { email = i.email; display_name = i.display_name } else u)
    ∷ rename_users i us

-- `ON CONFLICT(identity_issuer,identity_subject) DO UPDATE`
unfoldable pub upsert_user : Identity → String → Store → Sql (Unit {0}) × Store
upsert_user i id s =
    if any (is_user i) s.users
    then (row tt, record s { users = rename_users i s.users })
    else if any (λ u. str_eq u.id id) s.users
    then (violates "users_pkey", s)
    else (
      row tt,
      record s {
        users =
            record {
              id = id;
              identity_issuer = i.issuer;
              identity_subject = i.subject;
              email = i.email;
              display_name = i.display_name;
            }
            ∷ s.users;
      },
    )

unfoldable pub find_user : Identity → Store → Sql String
find_user i s = select (is_user i) (λ u. u.id) s.users

-- `ON CONFLICT(owner_user_id) DO NOTHING`
unfoldable pub insert_account : String → String → Store → Sql (Unit {0}) × Store
insert_account id user s =
    if any (λ a. str_eq a.owner_user_id user) s.accounts
    then (row tt, s)
    else if any (λ a. str_eq a.id id) s.accounts
    then (violates "accounts_pkey", s)
    else (row tt, record s { accounts = record { id = id; owner_user_id = user } ∷ s.accounts })

unfoldable pub find_account : String → Store → Sql String
find_account user s = select (λ a. str_eq a.owner_user_id user) (λ a. a.id) s.accounts

-- `ON CONFLICT(owner_account_id,asset_code) DO NOTHING`
unfoldable pub insert_ledger_account : String → String → Store → Sql (Unit {0}) × Store
insert_ledger_account id account s =
    if any (is_credit_of account) s.ledger_accounts
    then (row tt, s)
    else if any (λ l. str_eq l.id id) s.ledger_accounts
    then (violates "ledger_accounts_pkey", s)
    else (
      row tt,
      record s {
        ledger_accounts =
            record { id = id; owner_account_id = some account; asset_code = "credit" }
            ∷ s.ledger_accounts;
      },
    )

unfoldable pub find_ledger : String → Store → Sql String
find_ledger account s = select (is_credit_of account) (λ l. l.id) s.ledger_accounts

abbrev pub default_merchant : String → String → String → Merchant
default_merchant id account name = record {
  id = id;
  settlement_account_id = account;
  legal_name = name;
  public_name = name;
  is_default = true;
  status = "active";
}

-- `ON CONFLICT DO NOTHING`
unfoldable pub insert_default : Merchant → Store → Sql (Unit {0}) × Store
insert_default m s =
    if any (merchant_clashes m) s.merchants
    then (row tt, s)
    else (row tt, record s { merchants = m ∷ s.merchants })

unfoldable pub find_default : String → Store → Sql String
find_default account s =
    select (λ m. str_eq m.settlement_account_id account && m.is_default) (λ m. m.id) s.merchants

abbrev pub answer_default : Identity → Sql String → M String
answer_default i (row id) = pure id
answer_default i no_rows =
    fail (if is_none i.requested_merchant then internal else identity_conflict)
answer_default i (violates c) = fail internal
answer_default i failed = fail internal

-- `ON CONFLICT(id) DO UPDATE`
unfoldable pub refresh_profiles : UserProfile → List UserProfile → List UserProfile
refresh_profiles new [] = []
refresh_profiles new (p ∷ ps) =
    (if str_eq p.id new.id
      then record p {
        email = new.email;
        display_name = new.display_name;
        merchant_id = new.merchant_id;
      }
      else p)
    ∷ refresh_profiles new ps

unfoldable pub upsert_profile : UserProfile → Store → Sql (Unit {0}) × Store
upsert_profile new s =
    if any (λ p. str_eq p.id new.id) s.user_profiles
    then (row tt, record s { user_profiles = refresh_profiles new s.user_profiles })
    else if any
        (λ p.
          str_eq p.identity_issuer new.identity_issuer
          && str_eq p.identity_subject new.identity_subject)
        s.user_profiles
    then (violates "user_profiles", s)
    else (row tt, record s { user_profiles = new ∷ s.user_profiles })

-- `ON CONFLICT(account_id) DO NOTHING`
unfoldable pub insert_balance : String → Store → Sql (Unit {0}) × Store
insert_balance account s =
    if any (λ b. str_eq b.account_id account) s.balances then (row tt, s) else (
      row tt,
      record s { balances = record { account_id = account; balance = pos 0 } ∷ s.balances },
    )

-- uuid.NewString where no Merchant is requested.
abbrev pub choose_merchant : Identity → M String
choose_merchant i = if is_none i.requested_merchant then new_id "" else pure i.requested_merchant

-- The Merchant of the account: it is inserted unless there is one, and is then the requested one.
unfoldable pub initialize_merchant : Identity → String → M String
initialize_merchant i account = do
  chosen ← choose_merchant i
  exec internal (insert_default (default_merchant chosen account i.display_name))
  merchant ← statement (query (find_default account)) >>= answer_default i
  reply_if (not (is_none i.requested_merchant) && not (str_eq merchant i.requested_merchant))
      identity_conflict
  pure merchant

-- The projections for the client.
unfoldable pub project_identity : Identity → String → String → String → M (Unit {0})
project_identity i user account merchant = do
  exec internal (
      upsert_profile (record {
        id = user;
        identity_issuer = i.issuer;
        identity_subject = i.subject;
        email = i.email;
        display_name = i.display_name;
        merchant_id = merchant;
      }))
  exec internal (insert_balance account)

-- From the Merchant to the commit.
unfoldable pub finish_identity : Identity → String → String → String → M Initialized
finish_identity i user account ledger = do
  merchant ← initialize_merchant i account
  project_identity i user account merchant
  exec internal (query (λ s. row tt))
  pure (record { user_id = user; account_id = account; ledger_id = ledger; merchant_id = merchant })

unfoldable pub initialize_rows : Identity → M Initialized
initialize_rows i = do
  new_user ← new_id "usr_"
  exec internal (upsert_user i new_user)
  user ← exec internal (query (find_user i))
  new_account ← new_id "acct_"
  exec internal (insert_account new_account user)
  account ← exec internal (query (find_account user))
  new_ledger ← new_id "ledger_"
  exec internal (insert_ledger_account new_ledger account)
  ledger ← exec internal (query (find_ledger account))
  finish_identity i user account ledger

unfoldable pub initialize_identity : Identity → M Initialized
initialize_identity i = do
  reply_if (is_blank i.issuer || is_blank i.subject || is_blank i.display_name) internal
  transaction (check_requested i >> initialize_rows i)
