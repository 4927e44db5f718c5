-- ===== src/Gizpay/Charge/Tests.antt =====
-- Charges on a small database (createCharge, internal/gizpay/handler.go): one that goes through, one
-- that fails on the way, one that comes twice.

use gizway.Prelude.{ℕ, Bool, true, some, [], ◌∷◌, ◌≡◌, ◌↔◌, refl, arith}
use gizway.Int.{pos, ◌≤ℤ◌}
use gizway.Text.{is_blank}
use gizway.Gizpay.Store.{Store}
use gizway.Gizpay.Request.{World, Outcome, done, reply, Response}
use gizway.Gizpay.Fixture.{start, world, healthy, ninth, first_down, start-IsConsistent}
use gizway.Gizpay.Triple.{Post}
use gizway.Gizpay.Charge.Reading.{IsAtomic}
use gizway.Gizpay.Metadata.{object, end}
use gizway.Int.{◌+ℤ◌, ◌-ℤ◌, ◌*ℤ◌}
use gizway.Int64.{sub64, wrap64, add64, mul64, neg64}
use gizway.Gizpay.Store.{post_transaction, add_to_balance, is_posted, transaction_net}
use gizway.Gizpay.Request.{statement, transaction, exec, new_id, now_utc}
use gizway.Gizpay.Fee.{platform_fee}
use gizway.Gizpay.Metadata.{validate_order_metadata, is_clean_object, inspect_fields}
use gizway.Gizpay.Charge.{
  find_payer, is_chargeable, resolve_commissions, post_ledger, ledger_of_account, ledger_of_asset,
  insert_entry, insert_entry_row, post_main, post_commissions, post_fee,
}
use gizway.Gizpay.Charge.Create.{
  insert_pending, insert_charge, insert_commissions, insert_commission, mark_posted, project_charge,
  touch_key, use_key, resolve_owner, update_balance, insert_sync_transaction, insert_sync_charge,
  project_commissions, insert_sync_commission, commit,
}
use gizway.Gizpay.Charge.Validation.{check_request, check_from}
use gizway.Gizpay.Charge.Handler.{
  is_duplicate, charge_transaction, write_charge, insert_rows, settle_charge,
}
use gizway.Gizpay.Charge.Validation.{Config, ChargeRequest, pass, check_commissions}
use gizway.Gizpay.Charge.Validation.Laws.{check_commissions_iff, IsStated, IsDistinct, amount_sum}
use gizway.Gizpay.Charge.Handler.{create_charge, has_charge}
use gizway.Gizpay.Charge.Result.{KeepsBooks, create_charge-KeepsBooks, create_charge-IsAtomic}
use gizway.Gizpay.Charge.Once.{create_charge_once}

abbrev config : Config
config = record { platform_fee_bps = pos 250; max_order_metadata_bytes = 4096; max_commissions = 8 }

abbrev body : ChargeRequest
body = record {
  external_order_id = "order-1";
  subscription_key_hmac = "h1";
  gross = pos 1000;
  commissions = record { merchant_id = "m2"; amount = pos 100 } ∷ [];
  order = record { size = 2; value = some (object end) };
  started = pos 5;
  completed = pos 7;
}

abbrev status_of : Outcome Response → ℕ
status_of (done r) = r.status
status_of (reply e) = e.status

abbrev run : (ℕ → Bool) → Store → Outcome Response × World
run down s = create_charge config "gizway" "" (some body) (world down s)

abbrev after_charge : Store
after_charge = (run healthy start).1.store

-- The charge goes through, and is in the database after it.
run_created : (status_of (run healthy start).0 ≡ 201) × (has_charge "order-1" after_charge ≡ true)
unfolding create_charge check_request check_commissions check_from is_duplicate statement has_charge
    transaction charge_transaction exec find_payer is_chargeable resolve_commissions platform_fee
    sub64 wrap64 add64 mul64 neg64 write_charge new_id now_utc insert_rows insert_pending
    insert_charge insert_commissions insert_commission settle_charge post_ledger ledger_of_account
    ledger_of_asset insert_entry insert_entry_row post_main post_commissions post_fee mark_posted
    post_transaction project_charge touch_key use_key resolve_owner update_balance add_to_balance
    ◌+ℤ◌ ◌-ℤ◌ ◌*ℤ◌ insert_sync_transaction insert_sync_charge project_commissions
    insert_sync_commission commit is_posted transaction_net validate_order_metadata is_clean_object
    inspect_fields is_blank
run_created = (refl, refl)

create_charge-KeepsBooks_example :
    Post
      (λ r t. (r.status ≡ 201) × KeepsBooks start t)
      (create_charge config "gizway" "" (some body) (world healthy start))
create_charge-KeepsBooks_example =
    create_charge-KeepsBooks config "gizway" "" body (world healthy start)
      (omega arith, omega arith) (omega arith, omega arith) start-IsConsistent

create_charge-IsAtomic_example :
    IsAtomic
      (λ t. KeepsBooks start t)
      start
      (create_charge config "gizway" "" (some body) (world ninth start))
create_charge-IsAtomic_example =
    create_charge-IsAtomic config "gizway" "" body (world ninth start) (omega arith, omega arith)
      (omega arith, omega arith) start-IsConsistent

create_charge_once_example :
    (e : Response) × ((create_charge config "gizway" ""
        (some body)
        (world first_down after_charge)).0
      ≡ reply e)
    × ((create_charge config "gizway" "" (some body) (world first_down after_charge)).1.store
        ≡ after_charge)
create_charge_once_example =
    create_charge_once config "gizway" "" body (world first_down after_charge) run_created.1

check_commissions_iff_example : (check_commissions (pos 1000) body.commissions ≡ pass (pos 100)) ↔ (
    IsStated body.commissions
    × IsDistinct [] body.commissions
    × (amount_sum body.commissions ≤ℤ pos 1000)
    × (pos 100 ≡ amount_sum body.commissions))
check_commissions_iff_example =
    check_commissions_iff (pos 1000) (pos 100) body.commissions (omega arith, omega arith)
      (omega arith)
