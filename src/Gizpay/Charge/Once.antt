-- ===== src/Gizpay/Charge/Once.antt =====
-- The external order ID of createCharge (internal/gizpay/handler.go): the check for duplicates, and
-- the unique constraint behind it.
use Prim.Native.String.{String}
use gizway.Prelude.{true, not, some, List, ◌≡◌, refl, ◌∙◌, arith, inl, inr}
use gizway.Int.{ℤ}
use gizway.Int64.{sub64}
use gizway.Text.{str_eq}
use gizway.Gizpay.Store.{Store, Instant, ChargeRow}
use gizway.Gizpay.Request.{
  World, Outcome, done, reply, Response, ◌>>◌, internal, reply_if, error_json, Sql, row, no_rows,
  violates, failed, pure, charge, statement, new_id, now_utc, exec, query, transaction,
}
use gizway.Gizpay.Fee.{platform_fee}
use gizway.Gizpay.Triple.{
  Post, Post-bind, Post-exec, Post-reply, Post-statement, Returned, new_id-same,
}
use gizway.Gizpay.Charge.{ResolvedCommission, Payer, find_payer, resolve_commissions}
use gizway.Gizpay.Charge.Validation.{
  Config, ChargeRequest, check_request, check_commissions, of_check,
}
use gizway.Gizpay.Charge.Create.{
  insert_pending, insert_commissions, insert_charge, insert_charge_row, answer_insert,
}
use gizway.Gizpay.Charge.Handler.{
  charge_row, charge_body, insert_rows, settle_charge, write_charge, charge_transaction,
  create_charge, has_charge, is_duplicate,
}
use gizway.Gizpay.Charge.Writing.{now_utc-same}
use gizway.Gizpay.Charge.Reading.{
  query-same, reply_if-same, of_check-same, resolve_commissions-sum, Reads-Post, is_duplicate-Reads,
  IsAtomic, Post-transaction,
}
use gizway.Gizpay.Charge.Result.{create_charge-Undone}

-- The postcondition of what always replies.
abbrev pub Never : {A : Type 0} → A → Store → Type 0
Never a s = ⊥

module _ (c : ChargeRow) where
  answer_insert-Never :
      (s : Store) (r : Sql (Unit {0})) (w : World)
      → has_charge c.external_order_id s ≡ true
      → Returned (insert_charge_row c) s r w.store
      → Post Never (answer_insert r w)
  unfolding has_charge
  answer_insert-Never s (row u) w h (inl down) = absurd (cc)
  answer_insert-Never s (row u) w h (inr p) = absurd (ground arith)
  answer_insert-Never s no_rows w h p = Post-reply Never internal w
  answer_insert-Never s (violates constraint) w h p = Post-reply Never _ w
  answer_insert-Never s failed w h p = Post-reply Never internal w

  insert_charge-Never :
      (w : World) → has_charge c.external_order_id w.store ≡ true → Post Never (insert_charge c w)
  unfolding insert_charge
  insert_charge-Never w h =
      Post-bind (Returned (insert_charge_row c) w.store) Never (statement (insert_charge_row c))
        answer_insert w (Post-statement (insert_charge_row c) w)
        (λ r w' p. answer_insert-Never w.store r w' h p)

  insert_pending-charges :
      (id kind : String) (now : Instant) (w : World)
      → Post (λ _ t. t.payg_charges ≡ w.store.payg_charges) (insert_pending id kind now w)
  unfolding insert_pending
  insert_pending-charges id kind now w = Post-exec _ internal _ w (λ r t h. ground arith)

  insert_rows-Never :
      (failpoint : String) (cs : List ResolvedCommission) (w : World)
      → has_charge c.external_order_id w.store ≡ true
      → Post Never (insert_rows failpoint c cs w)
  unfolding insert_rows has_charge
  insert_rows-Never failpoint cs w h =
      Post-bind _ Never (insert_pending c.ledger_transaction_id "payg_charge" c.created_at) _ w
        (insert_pending-charges c.ledger_transaction_id "payg_charge" c.created_at w)
        (λ _ w1 same.
          Post-bind Never Never (insert_charge c)
            (λ _.
              insert_commissions c.id cs
              >> reply_if (str_eq failpoint "after_commission_before_ledger_commit")
                  (error_json 500 "injected_transaction_failure"))
            w1 (insert_charge-Never w1 (rw same h)) (λ _ w2 no. absurd no))

write_charge-Never :
    (principal_id failpoint : String) (body : ChargeRequest) (payer : Payer) (fee main_net : ℤ)
    (cs : List ResolvedCommission) (w : World)
    → has_charge body.external_order_id w.store ≡ true
    → Post Never (write_charge principal_id failpoint body payer fee main_net cs w)
unfolding write_charge
write_charge-Never principal_id failpoint body payer fee main_net cs w h =
    Post-bind _ Never (new_id "chg_") _ w (new_id-same "chg_" w) (λ charge_id w1 e1.
      Post-bind _ Never (new_id "txn_") _ w1 (new_id-same "txn_" w1) (λ id w2 e2.
        Post-bind _ Never now_utc _ w2 (now_utc-same w2) (λ now w3 e3.
          let c : ChargeRow = charge_row principal_id body payer fee main_net charge_id id now in
          Post-bind Never Never (insert_rows failpoint c cs)
            (λ _.
              settle_charge charge_id id body payer fee main_net cs
              >> pure (charge_body body fee main_net charge_id id))
            w3 (insert_rows-Never c failpoint cs w3 (rw (e3 ∙ e2 ∙ e1) h)) (λ _ w4 no. absurd no))))

charge_transaction-Never :
    (config : Config) (principal_id failpoint : String) (body : ChargeRequest) (sum : ℤ) (w : World)
    → has_charge body.external_order_id w.store ≡ true
    → Post Never (charge_transaction config principal_id failpoint body sum w)
unfolding charge_transaction
charge_transaction-Never config principal_id failpoint body sum w h =
    Post-bind _ Never
      (exec (error_json 404 "subscription_key_not_found")
        (query (find_payer body.subscription_key_hmac body.started)))
      _ w (query-same _ _ w)
      (λ payer w1 e1.
        Post-bind _ Never
          (reply_if (not (str_eq payer.main_merchant_status "active"))
            (error_json 400 "main_merchant_inactive"))
          _ w1 (reply_if-same _ _ w1)
          (λ _ w2 e2.
            Post-bind _ Never (exec internal (query (λ s. row tt))) _ w2 (query-same _ _ w2)
              (λ _ w3 e3.
                Post-bind _ Never (resolve_commissions body.commissions) _ w3
                  (resolve_commissions-sum body.commissions w3)
                  (λ cs w4 found.
                    let fee = platform_fee body.gross config.platform_fee_bps in
                    write_charge-Never principal_id failpoint body payer fee
                      (sub64 (sub64 body.gross sum) fee) cs w4 (rw (found.0 ∙ e3 ∙ e2.0 ∙ e1) h)))))

create_charge-Never :
    (config : Config) (principal_id failpoint : String) (body : ChargeRequest) (w : World)
    → has_charge body.external_order_id w.store ≡ true
    → Post Never (create_charge config principal_id failpoint (some body) w)
unfolding create_charge
create_charge-Never config principal_id failpoint body w h =
    Post-bind _ Never (of_check (check_request config body)) _ w (of_check-same _ w) (λ _ w1 e1.
      Post-bind _ Never (of_check (check_commissions body.gross body.commissions)) _ w1
        (of_check-same _ w1)
        (λ sum w2 e2.
          Post-bind _ Never (is_duplicate body.external_order_id) _ w2
            (Reads-Post w2.store _ (is_duplicate-Reads body.external_order_id w2))
            (λ duplicate w3 e3.
              Post-bind _ Never (reply_if duplicate (error_json 409 "duplicate_external_order_id"))
                _ w3 (reply_if-same _ _ w3)
                (λ _ w4 e4.
                  Post-bind Never Never
                    (transaction (charge_transaction config principal_id failpoint body sum))
                    (λ result. pure (record { status = 201; body = charge result })) w4
                    (Post-transaction Never _ w4 (λ w5 same.
                      charge_transaction-Never config principal_id failpoint body sum w5
                        (rw (same ∙ e4.0 ∙ e3 ∙ e2.0 ∙ e1.0) h)))
                    (λ result w6 no. absurd no)))))

pub refusal :
    {A : Type 0} (s : Store) (o : Outcome A × World)
    → Post Never o
    → IsAtomic (λ t. ⊥) s o
    → (e : Response) × (o.0 ≡ reply e) × (o.1.store ≡ s)
refusal s (done a, w) p q = absurd p.cases
refusal s (reply e, w) p q =
    (e, refl, elim q.undone [ inl same ↦ same | inr (_, _, none) ↦ absurd none ])

-- An external order ID that the database holds is not charged again: whichever statements fail, the
-- check for duplicates included, createCharge replies with an error and leaves the database as it
-- was.
pub create_charge_once :
    (config : Config) (principal_id failpoint : String) (body : ChargeRequest) (w : World)
    → has_charge body.external_order_id w.store ≡ true
    → (e : Response) × ((create_charge config principal_id failpoint (some body) w).0 ≡ reply e)
      × ((create_charge config principal_id failpoint (some body) w).1.store ≡ w.store)
create_charge_once config principal_id failpoint body w h =
    refusal w.store (create_charge config principal_id failpoint (some body) w)
      (create_charge-Never config principal_id failpoint body w h)
      (create_charge-Undone config principal_id failpoint body w (λ t. ⊥)
        (λ sum v same _ _.
          charge_transaction-Never config principal_id failpoint body sum v (rw same h)))
