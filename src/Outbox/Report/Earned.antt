-- ===== src/Outbox/Report/Earned.antt =====
-- What markOutboxReported (internal/gizway/protocol.go) does when it returns without an error.
use Prim.Native.String.{String}
use gizway.Prelude.{
  ◌+◌, Bool, true, false, not, ◌&&◌, Option, none, some, any, ◌≡◌, refl, sym, ap, ◌∙◌,
}
use gizway.Text.{str_eq}
use gizway.Gizpay.Store.{Instant}
use gizway.Outbox.{
  OutboxRow, AiOrder, Db, Fault, works, fails, lost, Site, stop_if, must, reading, committed, ended,
  begun, in_transaction,
}
use gizway.Outbox.Report.{
  open_row, complete_row, charge_order, earn_billing, earn_sync, find_order, some_row,
  earn_commission, complete, mark_outbox_reported,
}
use gizway.Outbox.Report.Rules.{Ends, Ends-some_row, Ends-bind, Ends-must, Ends-weaken}

-- The tables after the four updates.
abbrev pub settled : AiOrder → String → String → Instant → Db → Db
settled order id order_id now db =
    (earn_sync order.provider_key_id order.commission now
      (earn_billing order.provider_key_id order.commission now
        (charge_order order_id (complete_row id order_id now db).1).1).1).1

abbrev pub is_own_open : String → String → OutboxRow → Bool
is_own_open id order_id r = open_row id r && str_eq r.ai_order_id order_id

-- The order is there, the row was open, and the tables are updated.
pub record Earned (id order_id : String) (now : Instant) (before after : Db) : Type 0 where
  pub order : AiOrder
  pub found : find_order order_id before ≡ some order
  pub was_open : any (is_own_open id order_id) before.charge_outbox ≡ true
  pub tables : after ≡ settled order id order_id now before

not-false : (b : Bool) → not b ≡ false → b ≡ true
not-false true h = refl
not-false false h = absurd (cc)

complete_row-hit :
    (id order_id : String) (now : Instant) (db : Db)
    → any (is_own_open id order_id) db.charge_outbox ≡ (complete_row id order_id now db).0
unfolding complete_row
complete_row-hit id order_id now db = refl

module _ {R : Type 0} where
  U : Db → R → Type 0
  U db s = Unit

  must-eq :
      {A : Type 0} (f : Db → A × Db) (w : Site R) → Ends U (λ a db s. f w.db ≡ (a, db)) (must f w)
  unfolding U
  must-eq f w = Ends-must U (λ a db s. f w.db ≡ (a, db)) f w tt tt refl

  stop_if-eq : (b : Bool) (w : Site R) → Ends U (λ _ db s. (db ≡ w.db) × (b ≡ false)) (stop_if b w)
  unfolding U
  stop_if-eq true w = record { cases = tt }
  stop_if-eq false w = record { cases = (refl, refl) }

  earn_commission-eq :
      (order : AiOrder) (now : Instant) (w : Site R)
      → Ends U
          (λ _ db s.
            db
            ≡ (earn_sync order.provider_key_id order.commission now
                (earn_billing order.provider_key_id order.commission now w.db).1).1)
          (earn_commission order now w)
  unfolding earn_commission
  earn_commission-eq order now w =
      let billing = earn_billing order.provider_key_id order.commission now in
      let sync = earn_sync order.provider_key_id order.commission now in
      Ends-bind U _ _ (must billing) _ w (must-eq billing w) (λ over w1 e1.
        Ends-bind U _ _ (stop_if over) _ w1 (stop_if-eq over w1) (λ _ w2 (e2, _).
          Ends-bind U _ _ (must sync) stop_if w2 (must-eq sync w2) (λ over' w3 e3.
            Ends-weaken U _ _ (stop_if over' w3)
              (λ _ db s (e4, _).
                e4 ∙ sym (ap (λ x. x.1) e3) ∙ ap (λ d. (sync d).1) (e2 ∙ sym (ap (λ x. x.1) e1)))
              (stop_if-eq over' w3))))

  module _ (id order_id : String) (now : Instant) where
    assemble :
        (w w2 w3 w4 w5 : Site R) (db : Db) (found : Option AiOrder) (order : AiOrder)
        (updated : Bool)
        → w2.db ≡ w.db
        → find_order order_id w.db ≡ some order
        → complete_row id order_id now w2.db ≡ (updated, w3.db)
        → w4.db ≡ w3.db
        → not updated ≡ false
        → charge_order order_id w4.db ≡ (tt, w5.db)
        → db
          ≡ (earn_sync order.provider_key_id order.commission now
              (earn_billing order.provider_key_id order.commission now w5.db).1).1
        → Earned id order_id now w.db db
    assemble w w2 w3 w4 w5 db found order updated start is_order e3 e4 hit e5 e6 =
        let after : Db → Db = λ d.
          (earn_sync order.provider_key_id order.commission now
            (earn_billing order.provider_key_id order.commission now d).1).1 in
        record {
          order = order;
          found = is_order;
          was_open =
              complete_row-hit id order_id now w.db
              ∙ ap (λ d. (complete_row id order_id now d).0) (sym start)
              ∙ ap (λ x. x.0) e3
              ∙ not-false updated hit;
          tables =
              e6
              ∙ ap after (
                  sym (ap (λ x. x.1) e5)
                  ∙ ap (λ d. (charge_order order_id d).1)
                      (e4
                        ∙ sym (ap (λ x. x.1) e3)
                        ∙ ap (λ d. (complete_row id order_id now d).1) start));
        }

    complete-Earned :
        (w : Site R)
        → Ends U (λ _ db s. Earned id order_id now w.db db) (complete id order_id now w)
    unfolding complete U
    complete-Earned w =
        Ends-bind U _ _ (must (reading (find_order order_id))) _ w
          (must-eq (reading (find_order order_id)) w)
          (λ found w1 e1.
            Ends-bind U (λ order db s. (db ≡ w1.db) × (found ≡ some order)) _ (some_row found) _ w1
              (Ends-some_row U (λ order db s. (db ≡ w1.db) × (found ≡ some order)) found w1 tt
                (λ order e. (refl, e)))
              (λ order w2 (e2, is_order).
                Ends-bind U _ _ (must (complete_row id order_id now)) _ w2
                  (must-eq (complete_row id order_id now) w2)
                  (λ updated w3 e3.
                    Ends-bind U _ _ (stop_if (not updated)) _ w3 (stop_if-eq (not updated) w3)
                      (λ _ w4 (e4, some_row_updated).
                        Ends-bind U _ _ (must (charge_order order_id))
                          (λ _. earn_commission order now) w4 (must-eq (charge_order order_id) w4)
                          (λ _ w5 e5.
                            Ends-weaken U _ _ (earn_commission order now w5)
                              (λ _ db s e6.
                                assemble w w2 w3 w4 w5 db found order updated
                                  (e2 ∙ sym (ap (λ x. x.1) e1)) (ap (λ x. x.0) e1 ∙ is_order) e3 e4
                                  some_row_updated e5 e6)
                              (earn_commission-eq order now w5))))))

    -- A transaction that returns without an error has run its body and committed it.
    committed-true :
        (P : Db → Type 0) (fault : Fault) (before : Db) (w : Site R)
        → P w.db
        → Ends U (λ ok db s. ok ≡ true → P db) (committed fault before w)
    committed-true P works before w h = record { cases = λ e. h }
    committed-true P fails before w h = record { cases = λ e. absurd (cc) }
    committed-true P lost before w h = record { cases = λ e. absurd (cc) }

    ended-true :
        (P : Db → Type 0) (before : Db) (o : Option (Unit {0}) × Site R)
        → Ends U (λ _ db s. P db) o
        → Ends U (λ ok db s. ok ≡ true → P db) (ended before o.0 o.1)
    ended-true P before (none, w) h = record { cases = λ e. absurd (cc) }
    ended-true P before (some u, w) h = committed-true P (w.fault w.ran) before w h.cases

    mark-Earned :
        (w : Site R)
        → Ends U
            (λ ok db s. ok ≡ true → Earned id order_id now w.db db)
            (mark_outbox_reported id order_id now w)
    unfolding mark_outbox_reported in_transaction
    mark-Earned w =
        elim (w.fault w.ran)
          as (λ x.
            Ends U (λ ok db s. ok ≡ true → Earned id order_id now w.db db)
              (begun x (complete id order_id now) w)) [
                | works ↦
                    ended-true (Earned id order_id now w.db) w.db
                      (complete id order_id now (record w { ran = w.ran + 1 }))
                      (complete-Earned (record w { ran = w.ran + 1 }))
                | fails ↦ record { cases = λ e. absurd (cc) }
                | lost ↦ record { cases = λ e. absurd (cc) }
              ]

    returned :
        (before : Db) (o : Option Bool × Site R)
        → Ends U (λ ok db s. ok ≡ true → Earned id order_id now before db) o
        → o.0 ≡ some true
        → Earned id order_id now before o.1.db
    returned before (none, w') h e = absurd (cc)
    returned before (some b, w') h e = h.cases (ap (λ x. elim x [ none ↦ b | some y ↦ y ]) e)

    -- Where markOutboxReported returns without an error, the order was there and its row open, and
    -- then the row is reported, the order charged, and its commission earned by its key in both
    -- tables.
    pub mark_outbox_reported-Earned :
        (w : Site R)
        → (mark_outbox_reported id order_id now w).0 ≡ some true
        → Earned id order_id now w.db (mark_outbox_reported id order_id now w).1.db
    mark_outbox_reported-Earned w ok =
        returned w.db (mark_outbox_reported id order_id now w) (mark-Earned w) ok
