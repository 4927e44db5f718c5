-- ===== src/Outbox/Worker/Calls.antt =====
-- The transaction of completeCall (internal/gizway/protocol.go) and an invariant of its statements.
use Prim.Native.String.{String}
use gizway.Prelude.{Bool, not, ◌&&◌, if◌then◌else◌}
use gizway.Int.{ℤ, pos, ltb_ℤ, leb_ℤ}
use gizway.Text.{str_eq}
use gizway.Gizpay.Store.{Instant}
use gizway.Outbox.{Db, Site, pure, stop_if, must}
use gizway.Outbox.Report.Rules.{
  Ends, Ends-pure, Ends-stop_if, Ends-branch, Ends-bind, Ends-must, Local,
}
use gizway.Outbox.Worker.{
  Completion, new_order, new_row, insert_order, insert_usage, insert_outbox, insert, queue_charge,
  write_call,
}

-- An invariant of the database through the body of a transaction.
module _ {R : Type 0} (J : Db → Type 0) (s : R) where
  unfoldable pub L : Db → R → Type 0
  L = Local J s

  insert-L :
      (f : Db → Bool × Db) (w : Site R)
      → ((db : Db) → J db → J (f db).1)
      → L w.db w.remote
      → Ends L (λ _. L) (insert f w)
  unfolding L
  insert-L f w kept (same, h) =
      Ends-bind (Local J s) (λ _. Local J s) (λ _. Local J s) (must f)
        (λ inserted. stop_if (not inserted)) w
        (Ends-must (Local J s) (λ _. Local J s) f w (same, h) (same, kept w.db h)
          (same, kept w.db h))
        (λ inserted w' h'. Ends-stop_if (Local J s) (Local J s) (not inserted) w' h' h')

  module _ (c : Completion) (failpoint : String) (now : Instant)
      (order : (db : Db) → J db → J (insert_order (new_order c) db).1)
      (usage : (metric : String) (n : ℤ) (db : Db)
        → J db
        → J (insert_usage c.order_id metric n db).1)
      (queue : (db : Db) → J db → J (insert_outbox (new_row c now) db).1) where
    queue_charge-L :
        (w : Site R) → L w.db w.remote → Ends L (λ _. L) (queue_charge c failpoint now w)
    unfolding queue_charge
    queue_charge-L w h =
        Ends-bind L (λ _. L) (λ _. L) (stop_if (str_eq failpoint "charge_outbox_write"))
          (λ _. insert (insert_outbox (new_row c now))) w
          (Ends-stop_if L L (str_eq failpoint "charge_outbox_write") w h h)
          (λ _ w' h'. insert-L (insert_outbox (new_row c now)) w' queue h')

    pub write_call-L :
        (w : Site R) → L w.db w.remote → Ends L (λ _. L) (write_call c failpoint now w)
    unfolding write_call
    write_call-L w h =
        let K : Unit {0} → Db → R → Type 0 = λ _. L in
        Ends-bind L K K (stop_if (str_eq failpoint "ai_order_write")) _ w
          (Ends-stop_if L L (str_eq failpoint "ai_order_write") w h h)
          (λ _ w1 h1.
            Ends-bind L K K (insert (insert_order (new_order c))) _ w1
              (insert-L (insert_order (new_order c)) w1 order h1)
              (λ _ w2 h2.
                Ends-bind L K K (insert (insert_usage c.order_id "input_tokens" c.prompt_tokens)) _
                  w2
                  (insert-L (insert_usage c.order_id "input_tokens" c.prompt_tokens) w2
                    (usage "input_tokens" c.prompt_tokens) h2)
                  (λ _ w3 h3.
                    Ends-bind L K K
                      (insert (insert_usage c.order_id "output_tokens" c.completion_tokens))
                      (λ _.
                        if ltb_ℤ (pos 0) c.gross && leb_ℤ c.commission c.gross
                        then queue_charge c failpoint now
                        else pure tt)
                      w3
                      (insert-L (insert_usage c.order_id "output_tokens" c.completion_tokens) w3
                        (usage "output_tokens" c.completion_tokens) h3)
                      (λ _ w4 h4.
                        Ends-branch L K (ltb_ℤ (pos 0) c.gross && leb_ℤ c.commission c.gross)
                          (queue_charge c failpoint now) (pure tt) w4 (λ _. queue_charge-L w4 h4)
                          (λ _. Ends-pure L K tt w4 h4)))))
