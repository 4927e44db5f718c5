-- ===== src/Gizpay/Charge/Projection.antt =====
-- The projections of one charge (createCharge, internal/gizpay/handler.go), statement by statement.
use Prim.Native.String.{String}
use gizway.Prelude.{List, [], ◌∷◌, ◌≡◌, refl, arith, inl, inr}
use gizway.Int.{ℤ, pos, ◌+ℤ◌, ◌-ℤ◌, zero-+ℤ, +ℤ-zero}
use gizway.Gizpay.Store.{Store, Instant, ChargeRow}
use gizway.Gizpay.Request.{World, internal, row, no_rows, violates, failed, Sql, statement}
use gizway.Gizpay.Triple.{
  Post, Post-bind, Post-done, Post-reply, Post-weaken, Post-statement, Returned,
}
use gizway.Gizpay.Charge.{ResolvedCommission, Payer}
use gizway.Gizpay.Charge.Validation.{ChargeRequest}
use gizway.Gizpay.Charge.Create.{
  insert_charge, insert_charge_row, answer_insert, insert_commissions, resolve_owner,
  project_commissions, update_balance, payer_transaction, payer_charge, insert_sync_transaction,
  insert_sync_charge, project_charge, insert_commission, insert_sync_commission, touch_key,
}
use gizway.Gizpay.Charge.Posting.{delta}
use gizway.Gizpay.Charge.Legs.{commission_share}
use gizway.Gizpay.Charge.Balanced.{charge_share}
use gizway.Gizpay.Charge.Effects.{
  Adjusts, Adjusts-frame, Adjusts-same, Moves, Moves-then, exec-Moves, resolve_owner-Moves,
  insert_sync_transaction-Moves, insert_sync_charge-Moves, update_balance-Moves,
}

insert_commission-Moves :
    (id : String) (c : ResolvedCommission) (w : World)
    → Post (Moves (λ a. pos 0) w.store) (insert_commission id c w)
unfolding insert_commission
insert_commission-Moves id c w =
    exec-Moves internal _ w (λ s. refl) (λ s. refl) (λ s. refl) (λ s. refl)

pub insert_commissions-Moves :
    (id : String) (cs : List ResolvedCommission) (w : World)
    → Post (Moves (λ a. pos 0) w.store) (insert_commissions id cs w)
unfolding insert_commissions
insert_commissions-Moves id [] w =
    Post-done _ tt w (Adjusts-frame w.store w.store refl refl refl refl)
insert_commissions-Moves id (c ∷ cs) w =
    Post-weaken _ (Moves (λ a. pos 0 +ℤ pos 0) w.store) (insert_commissions id (c ∷ cs) w)
      (Moves-then (insert_commission id c) (λ _. insert_commissions id cs) w
        (insert_commission-Moves id c w) (λ _ w'. insert_commissions-Moves id cs w'))
      (λ _ t p. Adjusts-same p (λ a. zero-+ℤ (pos 0)))

insert_sync_commission-Moves :
    (id : String) (c : ResolvedCommission) (w : World)
    → Post (Moves (λ a. pos 0) w.store) (insert_sync_commission id c w)
unfolding insert_sync_commission
insert_sync_commission-Moves id c w =
    exec-Moves internal _ w (λ s. refl) (λ s. refl) (λ s. refl) (λ s. refl)

touch_key-Moves :
    (id : String) (at : Instant) (w : World) → Post (Moves (λ a. pos 0) w.store) (touch_key id at w)
unfolding touch_key
touch_key-Moves id at w = exec-Moves internal _ w (λ s. refl) (λ s. refl) (λ s. refl) (λ s. refl)

pub project_commissions-Moves :
    (id : String) (cs : List ResolvedCommission) (w : World)
    → Post (Moves (commission_share cs) w.store) (project_commissions id cs w)
unfolding project_commissions
project_commissions-Moves id [] w =
    Post-done _ tt w (Adjusts-frame w.store w.store refl refl refl refl)
project_commissions-Moves id (c ∷ cs) w =
    Post-weaken _
      (Moves (λ a. delta c.settlement c.amount a +ℤ (pos 0 +ℤ (pos 0 +ℤ commission_share cs a)))
        w.store)
      (project_commissions id (c ∷ cs) w)
      (Moves-then (update_balance c.settlement c.amount) _ w
        (update_balance-Moves c.settlement c.amount w)
        (λ _ w1.
          Moves-then (resolve_owner c.settlement) _ w1 (resolve_owner-Moves c.settlement w1)
            (λ _ w2.
              Moves-then (insert_sync_commission id c) (λ _. project_commissions id cs) w2
                (insert_sync_commission-Moves id c w2)
                (λ _ w3. project_commissions-Moves id cs w3))))
      (λ _ t p. Adjusts-same p (λ a. share (delta c.settlement c.amount a) (commission_share cs a)))
  where
    share : (x y : ℤ) → x +ℤ (pos 0 +ℤ (pos 0 +ℤ y)) ≡ x +ℤ y
    share x y = rw (zero-+ℤ (pos 0 +ℤ y), zero-+ℤ y) refl

insert_charge_row-frame :
    (c : ChargeRow) (s t : Store) (u : Unit {0})
    → insert_charge_row c s ≡ (row u, t)
    → Adjusts (λ a. pos 0) s t
insert_charge_row-frame c s t u h =
    Adjusts-frame s t (ground arith) (ground arith) (ground arith) (ground arith)

answer_insert-Moves :
    (c : ChargeRow) (s : Store) (r : Sql (Unit {0})) (w : World)
    → Returned (insert_charge_row c) s r w.store
    → Post (Moves (λ a. pos 0) s) (answer_insert r w)
answer_insert-Moves c s (row u) w (inl down) = absurd (cc)
answer_insert-Moves c s (row u) w (inr p) =
    Post-done _ tt w (insert_charge_row-frame c s w.store u p)
answer_insert-Moves c s no_rows w p = Post-reply _ internal w
answer_insert-Moves c s (violates constraint) w p = Post-reply _ _ w
answer_insert-Moves c s failed w p = Post-reply _ internal w

pub insert_charge-Moves :
    (c : ChargeRow) (w : World) → Post (Moves (λ a. pos 0) w.store) (insert_charge c w)
unfolding insert_charge
insert_charge-Moves c w =
    Post-bind (Returned (insert_charge_row c) w.store) _ (statement (insert_charge_row c))
      answer_insert w (Post-statement (insert_charge_row c) w)
      (λ r w' p. answer_insert-Moves c w.store r w' p)

-- The projections of a charge move every projected balance by its share of the charge.
pub project_charge-Moves :
    (charge_id transaction_id : String) (body : ChargeRequest) (payer : Payer) (main_net : ℤ)
    (cs : List ResolvedCommission) (w : World)
    → Post
        (Moves
          (charge_share payer.payer_account_id payer.main_account_id body.gross main_net cs)
          w.store)
        (project_charge charge_id transaction_id body payer main_net cs w)
unfolding project_charge
project_charge-Moves charge_id transaction_id body payer main_net cs w =
    let from = delta payer.payer_account_id (pos 0 -ℤ body.gross) in
    let to = delta payer.main_account_id main_net in
    Post-weaken _
      (Moves
        (λ a. pos 0 +ℤ (pos 0 +ℤ (from a +ℤ (to a +ℤ (pos 0 +ℤ (pos 0 +ℤ commission_share cs a))))))
        w.store)
      (project_charge charge_id transaction_id body payer main_net cs w)
      (Moves-then (touch_key payer.subscription_key_id body.completed) _ w (touch_key-Moves _ _ w)
        (λ _ w1.
          Moves-then (resolve_owner payer.payer_account_id) _ w1
            (resolve_owner-Moves payer.payer_account_id w1)
            (λ _ w2.
              Moves-then (update_balance payer.payer_account_id (pos 0 -ℤ body.gross)) _ w2
                (update_balance-Moves payer.payer_account_id (pos 0 -ℤ body.gross) w2)
                (λ _ w3.
                  Moves-then (update_balance payer.main_account_id main_net) _ w3
                    (update_balance-Moves payer.main_account_id main_net w3)
                    (λ _ w4.
                      Moves-then
                        (insert_sync_transaction (payer_transaction transaction_id body payer)) _ w4
                        (insert_sync_transaction-Moves (payer_transaction transaction_id body payer)
                          w4)
                        (λ _ w5.
                          Moves-then (insert_sync_charge (payer_charge charge_id body payer)) _ w5
                            (insert_sync_charge-Moves (payer_charge charge_id body payer) w5)
                            (λ _ w6. project_commissions-Moves charge_id cs w6)))))))
      (λ _ t p. Adjusts-same p (λ a. share (from a) (to a) (commission_share cs a)))
  where
    share :
        (x y z : ℤ)
        → pos 0 +ℤ (pos 0 +ℤ (x +ℤ (y +ℤ (pos 0 +ℤ (pos 0 +ℤ z))))) ≡ x +ℤ (y +ℤ (z +ℤ pos 0))
    share x y z =
        rw
          (
            zero-+ℤ (x +ℤ (y +ℤ (pos 0 +ℤ (pos 0 +ℤ z)))),
            zero-+ℤ (x +ℤ (y +ℤ (pos 0 +ℤ (pos 0 +ℤ z)))),
            zero-+ℤ (pos 0 +ℤ z),
            zero-+ℤ z,
            +ℤ-zero z,
          )
          refl
