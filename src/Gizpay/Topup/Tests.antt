-- ===== src/Gizpay/Topup/Tests.antt =====
-- A top-up on the small database of the charges (accountTopups, internal/gizpay/handler.go).

use gizway.Prelude.{none, some, [], ◌∷◌, ◌≡◌, inr, refl}
use gizway.Int.{pos}
use gizway.Text.{is_blank}
use gizway.Gizpay.Store.{Store, TopupRow, holder}
use gizway.Gizpay.Request.{reply, Response}
use gizway.Gizpay.Triple.{Post}
use gizway.Gizpay.Fixture.{start, world, healthy, start-IsConsistent}
use gizway.Gizpay.Charge.Posting.{delta}
use gizway.Gizpay.Charge.Consistency.{Settles}
use gizway.Gizpay.Topup.{TopupRequest, is_valid_topup, find_topup, has_reference, account_topup}
use gizway.Gizpay.Topup.Settled.{account_topup-Settles}
use gizway.Gizpay.Topup.Replay.{IsReplayed, account_topup_once, account_topup_again}

abbrev body : TopupRequest
body = record { id = "t1"; channel = "fake"; external_reference = "ref-1"; amount = pos 500 }

no_clearing : holder start.ledger_accounts "led_clearing" ≡ none
unfolding holder
no_clearing = refl

account_topup-Settles_example :
    Post
      (λ r t. (r.status ≡ 201) × Settles start t (delta "a1" (pos 500)) (pos 0))
      (account_topup "a1" (some body) (world healthy start))
account_topup-Settles_example =
    account_topup-Settles "a1" body (world healthy start) start-IsConsistent no_clearing

abbrev topped_up : TopupRow
topped_up = record {
  id = "t0";
  account_id = "a1";
  channel = "fake";
  external_reference = "ref-1";
  amount = pos 500;
  ledger_transaction_id = "txn_0";
  created_at = pos 3;
}

abbrev before : Store
before = record start { topups = topped_up ∷ [] }

account_topup_once_example :
    (e : Response) × ((account_topup "a1" (some body) (world healthy before)).0 ≡ reply e)
    × ((account_topup "a1" (some body) (world healthy before)).1.store ≡ before)
unfolding has_reference
account_topup_once_example = account_topup_once "a1" body (world healthy before) (inr refl)

abbrev again : TopupRequest
again = record { id = "t0"; channel = "fake"; external_reference = "ref-1"; amount = pos 500 }

account_topup_again_example :
    (r : Response) × ((account_topup "a1" (some again) (world healthy before)).0 ≡ reply r)
    × IsReplayed "a1" again topped_up r
unfolding is_valid_topup find_topup is_blank
account_topup_again_example =
    account_topup_again "a1" again topped_up (world healthy before) refl refl refl
