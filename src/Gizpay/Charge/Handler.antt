-- ===== src/Gizpay/Charge/Handler.antt =====
-- createCharge (internal/gizpay/handler.go), from the decoded body to the response.
use Prim.Native.String.{String}
use gizway.Prelude.{Bool, false, not, Option, none, some, List, any}
use gizway.Int.{ℤ}
use gizway.Int64.{sub64}
use gizway.Text.{str_eq}
use gizway.Gizpay.Store.{Store, Instant, ChargeRow}
use gizway.Gizpay.Request.{
  M, ◌>>=◌, ◌>>◌, pure, fail, reply_if, Sql, row, no_rows, violates, failed, statement, exec, query,
  new_id, now_utc, transaction, Response, error_json, internal, invalid, charge, ChargeBody,
}
use gizway.Gizpay.Fee.{platform_fee}
use gizway.Gizpay.Charge.{ResolvedCommission, Payer, find_payer, resolve_commissions, post_ledger}
use gizway.Gizpay.Charge.Create.{
  insert_pending, insert_charge, insert_commissions, mark_posted, project_charge, commit,
}
use gizway.Gizpay.Charge.Validation.{
  Config, ChargeRequest, check_request, check_commissions, of_check,
}

-- `_ = h.config.DB.Get(&duplicate, ...)`: a failed query leaves `duplicate` false.
abbrev pub or_false : Sql Bool → M Bool
or_false (row b) = pure b
or_false no_rows = pure false
or_false (violates c) = pure false
or_false failed = pure false

unfoldable pub has_charge : String → Store → Bool
has_charge external_order_id s =
    any (λ c. str_eq c.external_order_id external_order_id) s.payg_charges

unfoldable pub is_duplicate : String → M Bool
is_duplicate external_order_id =
    statement (query (λ s. row (has_charge external_order_id s))) >>= or_false

-- The rows of the transaction before its ledger entries; `failpoint` is the header
-- X-Gizway-Test-Failpoint.
unfoldable pub insert_rows : String → ChargeRow → List ResolvedCommission → M (Unit {0})
insert_rows failpoint c resolved = do
  insert_pending c.ledger_transaction_id "payg_charge" c.created_at
  insert_charge c
  insert_commissions c.id resolved
  reply_if (str_eq failpoint "after_commission_before_ledger_commit")
      (error_json 500 "injected_transaction_failure")

-- The entries, the posting, the projections and the commit.
unfoldable pub settle_charge :
    String → String → ChargeRequest → Payer → ℤ → ℤ → List ResolvedCommission → M (Unit {0})
settle_charge charge_id transaction_id body payer fee main_net resolved = do
  post_ledger transaction_id payer.payer_account_id payer.main_account_id body.gross main_net fee
      resolved
  mark_posted transaction_id
  project_charge charge_id transaction_id body payer main_net resolved
  commit transaction_id

abbrev pub charge_row :
    String → ChargeRequest → Payer → ℤ → ℤ → String → String → Instant → ChargeRow
charge_row principal_id body payer fee main_net charge_id transaction_id now = record {
  id = charge_id;
  external_order_id = body.external_order_id;
  subscription_id = payer.subscription_id;
  service_principal_id = principal_id;
  gross = body.gross;
  platform_fee = fee;
  main_merchant_net = main_net;
  ledger_transaction_id = transaction_id;
  created_at = now;
}

abbrev pub charge_body : ChargeRequest → ℤ → ℤ → String → String → ChargeBody
charge_body body fee main_net charge_id transaction_id = record {
  charge_id = charge_id;
  external_order_id = body.external_order_id;
  gross = body.gross;
  platform_fee = fee;
  main_merchant_net = main_net;
  ledger_transaction_id = transaction_id;
}

unfoldable pub write_charge :
    String → String → ChargeRequest → Payer → ℤ → ℤ → List ResolvedCommission → M ChargeBody
write_charge principal_id failpoint body payer fee main_net resolved = do
  charge_id ← new_id "chg_"
  transaction_id ← new_id "txn_"
  now ← now_utc
  insert_rows failpoint
      (charge_row principal_id body payer fee main_net charge_id transaction_id now) resolved
  settle_charge charge_id transaction_id body payer fee main_net resolved
  pure (charge_body body fee main_net charge_id transaction_id)

-- The database transaction, for a checked body whose commissions sum to `sum`.
unfoldable pub charge_transaction : Config → String → String → ChargeRequest → ℤ → M ChargeBody
charge_transaction config principal_id failpoint body sum = do
  payer ←
      exec (error_json 404 "subscription_key_not_found")
        (query (find_payer body.subscription_key_hmac body.started))
  reply_if (not (str_eq payer.main_merchant_status "active"))
      (error_json 400 "main_merchant_inactive")
  -- pg_advisory_xact_lock
  exec internal (query (λ s. row tt))
  resolved ← resolve_commissions body.commissions
  let fee = platform_fee body.gross config.platform_fee_bps
  let main_net = sub64 (sub64 body.gross sum) fee
  write_charge principal_id failpoint body payer fee main_net resolved

-- The body is absent where it does not decode.
unfoldable pub create_charge : Config → String → String → Option ChargeRequest → M Response
create_charge config principal_id failpoint none = fail invalid
create_charge config principal_id failpoint (some body) = do
  of_check (check_request config body)
  sum ← of_check (check_commissions body.gross body.commissions)
  duplicate ← is_duplicate body.external_order_id
  reply_if duplicate (error_json 409 "duplicate_external_order_id")
  result ← transaction (charge_transaction config principal_id failpoint body sum)
  pure (record { status = 201; body = charge result })
