-- ===== src/Gizpay/Topup.antt =====
-- accountTopups (internal/gizpay/handler.go): the POST of a top-up.
pub mod Settled
pub mod Replay
mod Tests
use Prim.Native.String
use Prim.Native.String.{String}
use gizway.Prelude.{
  Bool, true, false, not, ◌&&◌, ◌||◌, Option, none, some, List, [], ◌∷◌, any, find, if◌then◌else◌,
}
use gizway.Int.{ℤ, pos, leb_ℤ}
use gizway.Text.{str_eq, is_blank}
use gizway.Gizpay.Store.{Store, Instant, TopupRow, SyncTransaction, debit, credit, is_credit_of}
use gizway.Gizpay.Request.{
  M, ◌>>=◌, ◌>>◌, pure, fail, reply_if, Sql, row, no_rows, violates, failed, statement, exec, query,
  new_id, now_utc, transaction, Response, error_json, internal, invalid, not_found, topup,
}
use gizway.Gizpay.Charge.{select, insert_entry}
use gizway.Gizpay.Charge.Create.{
  insert_pending, mark_posted, update_balance, insert_sync_transaction, commit,
}

pub record TopupRequest : Type 0 where
  pub id : String
  pub channel : String
  pub external_reference : String
  pub amount : ℤ

unfoldable pub is_valid_topup : TopupRequest → Bool
is_valid_topup body = not (
    is_blank body.id
    || not (str_eq body.channel "fake")
    || is_blank body.external_reference
    || leb_ℤ body.amount (pos 0))

unfoldable pub find_topup : String → Store → Sql TopupRow
find_topup id s = select (λ t. str_eq t.id id) (λ t. t) s.topups

unfoldable pub same_topup : String → TopupRequest → TopupRow → Bool
same_topup account body t =
    str_eq t.account_id account
    && str_eq t.channel body.channel
    && str_eq t.external_reference body.external_reference
    && (leb_ℤ t.amount body.amount && leb_ℤ body.amount t.amount)

-- The answer to a top-up whose ID exists.
unfoldable pub existing_topup : String → TopupRequest → TopupRow → Response
existing_topup account body t =
    if same_topup account body t
    then record { status = 200; body = topup t }
    else error_json 409 "resource_id_conflict"

abbrev pub answer_topup : String → TopupRequest → Sql TopupRow → M (Unit {0})
answer_topup account body (row t) = fail (existing_topup account body t)
answer_topup account body no_rows = pure tt
answer_topup account body (violates c) = fail internal
answer_topup account body failed = fail internal

-- The SELECT of the top-up by its ID, before the transaction and in it.
unfoldable pub replay_topup : String → TopupRequest → M (Unit {0})
replay_topup account body = statement (query (find_topup body.id)) >>= answer_topup account body

unfoldable pub has_reference : String → String → Store → Bool
has_reference channel reference s =
    any (λ t. str_eq t.channel channel && str_eq t.external_reference reference) s.topups

-- `SELECT l.id,... FROM ledger_accounts l JOIN accounts a ... JOIN users u ...`
unfoldable pub find_credit_ledger : String → Store → Sql String
find_credit_ledger account s = elim (find (λ a. str_eq a.id account) s.accounts) [
  | none ↦ no_rows
  | some a ↦
      if any (λ u. str_eq u.id a.owner_user_id) s.users
      then select (is_credit_of account) (λ l. l.id) s.ledger_accounts
      else no_rows
]

-- The unique constraints of topups, and its check of the amount.
abbrev pub insert_topup_row : TopupRow → Store → Sql (Unit {0}) × Store
insert_topup_row t s =
    if any (λ r. str_eq r.id t.id) s.topups
      || has_reference t.channel t.external_reference s
      || any (λ r. str_eq r.ledger_transaction_id t.ledger_transaction_id) s.topups
    then (violates "unique", s)
    else if leb_ℤ t.amount (pos 0)
    then (violates "check", s)
    else (row tt, record s { topups = t ∷ s.topups })

abbrev pub answer_insert_topup : Sql (Unit {0}) → M (Unit {0})
answer_insert_topup (row a) = pure tt
answer_insert_topup no_rows = fail internal
answer_insert_topup (violates constraint) =
    fail (
      if str_eq constraint "unique"
      then error_json 409 "duplicate_external_reference"
      else internal)
answer_insert_topup failed = fail internal

unfoldable pub insert_topup : TopupRow → M (Unit {0})
insert_topup t = statement (insert_topup_row t) >>= answer_insert_topup

unfoldable pub post_topup : String → String → ℤ → M (Unit {0})
post_topup transaction_id ledger amount = do
  insert_entry internal transaction_id "led_clearing" debit amount
  insert_entry internal transaction_id ledger credit amount

abbrev pub topup_row : String → TopupRequest → String → Instant → TopupRow
topup_row account body transaction_id now = record {
  id = body.id;
  account_id = account;
  channel = body.channel;
  external_reference = body.external_reference;
  amount = body.amount;
  ledger_transaction_id = transaction_id;
  created_at = now;
}

abbrev pub topup_transaction_row : String → ℤ → String → SyncTransaction
topup_transaction_row account amount transaction_id = record {
  id = transaction_id;
  account_id = account;
  transaction_type = "topup";
  amount = amount;
}

-- From the pending ledger transaction to the commit.
unfoldable pub write_topup : String → TopupRow → M (Unit {0})
write_topup ledger t = do
  insert_pending t.ledger_transaction_id "topup" t.created_at
  post_topup t.ledger_transaction_id ledger t.amount
  mark_posted t.ledger_transaction_id
  insert_topup t
  update_balance t.account_id t.amount
  insert_sync_transaction (topup_transaction_row t.account_id t.amount t.ledger_transaction_id)
  commit t.ledger_transaction_id

-- The database transaction: the two locks, the tests under them, and the writes.
unfoldable pub topup_transaction : String → TopupRequest → M TopupRow
topup_transaction account body = do
  exec internal (query (λ s. row tt))
  exec internal (query (λ s. row tt))
  replay_topup account body
  exists ← exec internal (query (λ s. row (has_reference body.channel body.external_reference s)))
  reply_if exists (error_json 409 "duplicate_external_reference")
  ledger ← exec not_found (query (find_credit_ledger account))
  transaction_id ← new_id "txn_"
  now ← now_utc
  write_topup ledger (topup_row account body transaction_id now)
  pure (topup_row account body transaction_id now)

-- The body is absent where it does not decode.
unfoldable pub account_topup : String → Option TopupRequest → M Response
account_topup account none = fail invalid
account_topup account (some body) = do
  reply_if (not (is_valid_topup body)) invalid
  replay_topup account body
  t ← transaction (topup_transaction account body)
  pure (record { status = 201; body = topup t })
