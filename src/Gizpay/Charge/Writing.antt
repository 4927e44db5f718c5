-- ===== src/Gizpay/Charge/Writing.antt =====
-- The writes of createCharge (internal/gizpay/handler.go), from the pending row to the commit, and
-- the books.
use Prim.Native.String.{String}
use gizway.Prelude.{Bool, true, false, List, [], ◌∷◌, ◌≡◌, refl, ◌∙◌, arith}
use gizway.Int.{ℤ, pos, ◌-ℤ◌, ◌≤ℤ◌}
use gizway.Int64.{IsInt64}
use gizway.Text.{str_eq}
use gizway.Gizpay.Store.{Store, Instant, ChargeRow, LedgerTransaction, post_transaction}
use gizway.Gizpay.Request.{World, internal, reply_if, Response, error_json, new_id, now_utc}
use gizway.Gizpay.Triple.{
  Post, Post-bind, Post-exec, Post-done, Post-reply, Post-weaken, new_id-same,
}
use gizway.Gizpay.Charge.{ResolvedCommission, Payer, post_ledger}
use gizway.Gizpay.Charge.Validation.{ChargeRequest}
use gizway.Gizpay.Charge.Create.{
  insert_pending, insert_charge, insert_commissions, mark_posted, project_charge, commit,
}
use gizway.Gizpay.Charge.Handler.{charge_row, charge_body, insert_rows, settle_charge, write_charge}
use gizway.Gizpay.Charge.Posting.{Appends}
use gizway.Gizpay.Charge.Balanced.{charge_share, charge_net, post_ledger-Run}
use gizway.Gizpay.Charge.Books.{has_transaction, IsConsistent}
use gizway.Gizpay.Charge.Projection.{
  insert_charge-Moves, insert_commissions-Moves, project_charge-Moves,
}
use gizway.Gizpay.Charge.Consistency.{
  Opens, Closes, Settles, Opens-pending, Opens-frame, Opens-entries, Closes-posted,
  Settles-projected,
}

reply_if-same : (b : Bool) (e : Response) (w : World) → Post (λ _ t. t ≡ w.store) (reply_if b e w)
reply_if-same true e w = Post-reply _ e w
reply_if-same false e w = Post-done _ tt w refl

pub now_utc-same : (w : World) → Post (λ _ t. t ≡ w.store) (now_utc w)
unfolding now_utc
now_utc-same w = Post-done _ w.now w refl

pub insert_pending-Opens :
    (id kind : String) (now : Instant) (w : World)
    → IsConsistent w.store
    → Post (λ _ t. Opens id w.store t []) (insert_pending id kind now w)
unfolding insert_pending
insert_pending-Opens id kind now w c = Post-exec _ internal _ w (λ r t h.
    let new : LedgerTransaction = record {
      id = id;
      transaction_type = kind;
      posted = false;
      created_at = now;
    } in
    let fresh : has_transaction w.store.ledger_transactions id ≡ false = ground arith in
    let same : t ≡ record w.store { ledger_transactions = new ∷ w.store.ledger_transactions } =
      ground arith in
    rw same (Opens-pending id w.store new c refl refl fresh))

insert_rows-Opens :
    (failpoint : String) (c : ChargeRow) (cs : List ResolvedCommission) (w : World)
    → IsConsistent w.store
    → Post (λ _ t. Opens c.ledger_transaction_id w.store t []) (insert_rows failpoint c cs w)
unfolding insert_rows
insert_rows-Opens failpoint c cs w h =
    let id = c.ledger_transaction_id in
    Post-bind _ _ (insert_pending id "payg_charge" c.created_at) _ w
      (insert_pending-Opens id "payg_charge" c.created_at w h)
      (λ _ w1 o1. Post-bind _ _ (insert_charge c) _ w1 (insert_charge-Moves c w1) (λ _ w2 p2.
        Post-bind _ _ (insert_commissions c.id cs) _ w2 (insert_commissions-Moves c.id cs w2)
          (λ _ w3 p3.
            Post-weaken _ _ _
              (reply_if-same (str_eq failpoint "after_commission_before_ledger_commit")
                (error_json 500 "injected_transaction_failure") w3)
              (λ _ t same. rw same (Opens-frame (Opens-frame o1 p2) p3)))))

pub mark_posted-Closes :
    (id : String) (s : Store) (share : String → ℤ) (net : ℤ) (w : World) (t : Store)
    → IsConsistent s
    → Opens id s t []
    → Appends id t w.store share net
    → Post (λ _ u. Closes s u share net) (mark_posted id w)
unfolding mark_posted
mark_posted-Closes id s share net w t c o p = Post-exec _ internal _ w (λ r u h.
    let same : u
        ≡ record w.store { ledger_transactions = post_transaction id w.store.ledger_transactions } =
      ground arith in
    rw same (Closes-posted c (Opens-entries o p) (λ a. rw (← o.accounts) (p.shares a)) p.net_of))

pub commit-same : (id : String) (w : World) → Post (λ _ t. t ≡ w.store) (commit id w)
unfolding commit
commit-same id w = Post-exec _ internal _ w (λ r t h. ground arith)

-- The ledger entries of a charge, its posting and its projections settle the books.
module _ (charge_id id : String) (body : ChargeRequest) (payer : Payer) (fee main_net : ℤ)
    (cs : List ResolvedCommission) (s : Store) (c : IsConsistent s) where
  settle_charge-Settles :
      (w : World)
      → Opens id s w.store []
      → IsInt64 (pos 0 -ℤ main_net)
      → pos 0 ≤ℤ fee
      → Post
          (λ _ t.
            Settles s t
              (charge_share payer.payer_account_id payer.main_account_id body.gross main_net cs)
              (charge_net body.gross main_net fee cs))
          (settle_charge charge_id id body payer fee main_net cs w)
  unfolding settle_charge
  settle_charge-Settles w o range nonneg =
      let from = payer.payer_account_id in
      let to = payer.main_account_id in
      Post-bind _ _ (post_ledger id from to body.gross main_net fee cs) _ w
        (post_ledger-Run id from to body.gross main_net fee cs w (rw o.accounts c.keyed) range
          nonneg)
        (λ _ w1 p.
          Post-bind _ _ (mark_posted id) _ w1 (mark_posted-Closes id s _ _ w1 w.store c o p)
            (λ _ w2 q.
              Post-bind _ _ (project_charge charge_id id body payer main_net cs) _ w2
                (project_charge-Moves charge_id id body payer main_net cs w2)
                (λ _ w3 m.
                  Post-weaken _ _ _ (commit-same id w3)
                    (λ _ t same. rw same (Settles-projected q m)))))

-- The writes of a charge, from consistent books on.
pub write_charge-Settles :
    (principal_id failpoint : String) (body : ChargeRequest) (payer : Payer) (fee main_net : ℤ)
    (cs : List ResolvedCommission) (w : World)
    → IsConsistent w.store
    → IsInt64 (pos 0 -ℤ main_net)
    → pos 0 ≤ℤ fee
    → Post
        (λ _ t.
          Settles w.store t
            (charge_share payer.payer_account_id payer.main_account_id body.gross main_net cs)
            (charge_net body.gross main_net fee cs))
        (write_charge principal_id failpoint body payer fee main_net cs w)
unfolding write_charge
write_charge-Settles principal_id failpoint body payer fee main_net cs w c range nonneg =
    Post-bind _ _ (new_id "chg_") _ w (new_id-same "chg_" w) (λ charge_id w1 e1.
      Post-bind _ _ (new_id "txn_") _ w1 (new_id-same "txn_" w1) (λ id w2 e2.
        Post-bind _ _ now_utc _ w2 (now_utc-same w2) (λ now w3 e3.
          let start : w3.store ≡ w.store = e3 ∙ e2 ∙ e1 in
          Post-bind _ _
            (insert_rows failpoint
              (charge_row principal_id body payer fee main_net charge_id id now) cs)
            _ w3
            (insert_rows-Opens failpoint
              (charge_row principal_id body payer fee main_net charge_id id now) cs w3 (rw start c))
            (λ _ w4 o.
              Post-bind _ _ (settle_charge charge_id id body payer fee main_net cs) _ w4
                (settle_charge-Settles charge_id id body payer fee main_net cs w.store c w4
                  (rw (← start) o) range nonneg)
                (λ _ w5 h. Post-done _ (charge_body body fee main_net charge_id id) w5 h)))))
