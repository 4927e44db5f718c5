-- ===== src/Credit/FundedTests.antt =====
-- A credit check of GizPay that GizWay admits on (creditCheck, internal/gizpay/handler.go; checkCredit
-- and admit, internal/gizway/protocol.go).

use gizway.Prelude.{none, some, true, [], ◌∷◌, refl}
use gizway.Int.{pos, ◌+ℤ◌, ◌*ℤ◌}
use gizway.Int64.{mul64, wrap64}
use gizway.Text.{is_blank, is_space}
use gizway.Gizpay.Store.{
  Store, Direction, ledger_balance, sum_shares, entry_share, holder, is_posted,
}
use gizway.Gizpay.Request.{done, reply, Response, exec, statement, now_utc}
use gizway.Gizpay.Fixture.{start, world, healthy}
use gizway.Gizpay.CreditCheck.{
  credit_check, find_credit, join_subscription, join_product, join_account, join_user,
  credit_columns, credit_body,
}
use gizway.Credit.{CreditAdmission, Credits, no_admission, no_state, leave, snapshot}
use gizway.Credit.Check.{check_credit, read_reply, check_result}
use gizway.Credit.Agreement.{IsFunded, leaves, admission-IsFunded}

-- The payer of the fixture, after a top-up of 500.
abbrev funded : Store
funded = record start {
  ledger_transactions =
      record { id = "t1"; transaction_type = "topup"; posted = true; created_at = pos 1 } ∷ [];
  ledger_entries =
      record {
        id = "e1";
        transaction_id = "t1";
        ledger_account_id = "l1";
        direction = Direction.credit;
        amount = pos 500;
      }
      ∷ [];
}

abbrev response : Response
response = elim (credit_check (pos 60) (some "h1") (world healthy funded)).0 [
  | done r ↦ r
  | reply e ↦ e
]

abbrev credits : Credits
credits = record { states = λ p. no_state; credits = λ k. some 0; fresh = 1 }

abbrev admission : CreditAdmission
admission = elim (leaves "h1" 0 "https://pay" none response credits).0 [
  | none ↦ no_admission
  | some a ↦ a
]

admission-IsFunded_example :
    IsFunded "h1"
      (pos 60)
      funded
      admission
      ((leaves "h1" 0 "https://pay" none response credits).1.states 0)
unfolding credit_check find_credit join_subscription join_product join_account join_user
    credit_columns credit_body ledger_balance exec statement now_utc is_blank is_space sum_shares
    entry_share holder is_posted mul64 wrap64 leave snapshot check_credit read_reply check_result
    ◌+ℤ◌ ◌*ℤ◌
admission-IsFunded_example =
    admission-IsFunded (pos 60) "h1" (world healthy funded) response 0 "https://pay" none credits
      admission refl refl refl
