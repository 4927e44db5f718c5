-- ===== src/Outbox/Report/Tests.antt =====
-- Reports to a small GizPay that keeps the external order IDs of its charges (reportOutbox,
-- internal/gizway/protocol.go).

use Prim.Native.String.{String}
use gizway.Prelude.{List, [], if◌then◌else◌, refl, ℕ, ◌==◌, ◌∷◌, ◌≡◌}
use gizway.Int.{pos, ◌+ℤ◌}
use gizway.Outbox.{Fault, Site, attempt, charged, in_transaction, lost, must, reported, works}
use gizway.Outbox.Report.{
  find_open, mark_sending, set_pending, complete_row, charge_order, update_orders, earn,
  earns_too_much, find_order, earn_commission, complete, mark_outbox_reported, finish, recover,
  send_row, report_outbox,
}
use gizway.Outbox.Report.Rules.{Ends}
use gizway.Outbox.Report.Kept.{Inv}
use gizway.Outbox.Fixture.{
  queue, gizpay, gizpay-IsFaithful, has, order, queued, key_row, site, fifth, queue-IsSound,
}
use gizway.Outbox.Report.Settled.{IsSettled, mark_outbox_reported-IsSettled}
use gizway.Outbox.Report.Safe.{report_outbox-IsSound}

report_outbox-IsSound_example :
    Ends (Inv has) (λ _. Inv has) (report_outbox gizpay "ord_1" (site fifth))
report_outbox-IsSound_example =
    report_outbox-IsSound has gizpay gizpay-IsFaithful "ord_1" (site fifth) queue-IsSound

-- With every statement working, one report charges the order and earns the commission.
report_outbox_run : (report_outbox gizpay "ord_1" (site (λ n. works))).1.db ≡ record {
  ai_orders = record order { status = charged } ∷ [];
  ai_usage = [];
  charge_outbox = record queued { status = reported; updated_at = pos 9 } ∷ [];
  provider_key_billing = record key_row { earned = pos 100; updated_at = pos 9 } ∷ [];
  provider_keys = record key_row { earned = pos 100; updated_at = pos 9 } ∷ [];
}
unfolding report_outbox send_row find_open mark_sending finish mark_outbox_reported complete
    find_order complete_row charge_order update_orders earn_commission earn earns_too_much attempt
    must in_transaction ◌+ℤ◌
report_outbox_run = refl

-- The answer of the commit is lost: the row is set pending, and the next report earns the commission
-- again.
abbrev commit_lost : ℕ → Fault
commit_lost n = if n == 8 then lost else works

report_outbox_twice :
    (report_outbox gizpay "ord_1"
      (report_outbox gizpay "ord_1" (site commit_lost)).1).1.db.provider_key_billing
    ≡ record key_row { earned = pos 180; updated_at = pos 9 } ∷ []
unfolding report_outbox send_row find_open mark_sending finish mark_outbox_reported complete
    find_order complete_row charge_order update_orders earn_commission earn earns_too_much attempt
    must in_transaction ◌+ℤ◌ recover set_pending
report_outbox_twice = refl

mark_outbox_reported-IsSettled_example :
    IsSettled "out_1" "aio_1"
      (pos 9)
      queue
      (mark_outbox_reported "out_1" "aio_1" (pos 9) (site (λ n. works))).1.db
unfolding mark_outbox_reported complete find_order complete_row charge_order update_orders
    earn_commission earn earns_too_much attempt must in_transaction ◌+ℤ◌
mark_outbox_reported-IsSettled_example =
    mark_outbox_reported-IsSettled "out_1" "aio_1" (pos 9) (site (λ n. works)) refl

abbrev after_report : Site (List String)
after_report = record {
  db = (mark_outbox_reported "out_1" "aio_1" (pos 9) (site (λ n. works))).1.db;
  remote = [];
  fault = λ n. works;
  ran = 0;
  now = pos 10;
}
