-- ===== src/Gizpay/Topup/Settled.antt =====
-- The books after a top-up that goes through (accountTopups, internal/gizpay/handler.go).
use Prim.Native.String.{String}
use gizway.Prelude.{
  Bool, not, Option, none, some, find, ◌≡◌, refl, sym, ap, ◌∙◌, arith, inl, inr, if◌then◌else◌,
}
use gizway.Int.{ℤ, pos, ◌+ℤ◌, ◌-ℤ◌, int_laws, zero-+ℤ, +ℤ-zero}
use gizway.Text.{str_eq}
use gizway.Gizpay.Store.{Store, Account, TopupRow, debit, credit, holder}
use gizway.Gizpay.Request.{
  invalid, World, internal, not_found, reply_if, error_json, Sql, row, no_rows, violates, failed,
  new_id, now_utc, exec, query, statement, transaction, topup,
}
use gizway.Gizpay.Triple.{
  Post, Post-bind, Post-exec, Post-done, Post-reply, Post-weaken, Post-statement, Returned,
  new_id-same,
}
use gizway.Gizpay.Charge.{insert_entry}
use gizway.Gizpay.Charge.Create.{
  insert_pending, mark_posted, update_balance, insert_sync_transaction,
}
use gizway.Gizpay.Charge.Posting.{delta}
use gizway.Gizpay.Charge.Postings.{IsKeyed, Run, same_shares, Found, holder_of_account}
use gizway.Gizpay.Charge.Legs.{leg_at, leg_of_nobody, Run-then}
use gizway.Gizpay.Charge.Books.{IsConsistent}
use gizway.Gizpay.Charge.Effects.{
  Adjusts-frame, Adjusts-same, Adjusts-then, Moves, insert_sync_transaction-Moves,
  update_balance-Moves,
}
use gizway.Gizpay.Charge.Consistency.{Settles, Settles-projected}
use gizway.Gizpay.Charge.Writing.{
  now_utc-same, insert_pending-Opens, mark_posted-Closes, commit-same,
}
use gizway.Gizpay.Charge.Reading.{query-same, reply_if-same, Post-transaction}
use gizway.Gizpay.Topup.{
  TopupRequest, is_valid_topup, find_topup, answer_topup, replay_topup, has_reference,
  find_credit_ledger, insert_topup_row, answer_insert_topup, insert_topup, post_topup, topup_row,
  topup_transaction_row, write_topup, topup_transaction, account_topup,
}

answer_topup-same :
    (account : String) (body : TopupRequest) (s : Store) (r : Sql TopupRow) (w : World)
    → Returned (query (find_topup body.id)) s r w.store
    → Post (λ _ t. (t ≡ s) × (find_topup body.id s ≡ no_rows)) (answer_topup account body r w)
answer_topup-same account body s (row t) w h = Post-reply _ _ w
answer_topup-same account body s no_rows w (inl down) = absurd (cc)
answer_topup-same account body s no_rows w (inr p) =
    Post-done _ tt w (sym (ap (λ x. x.1) p), ap (λ x. x.0) p)
answer_topup-same account body s (violates c) w h = Post-reply _ internal w
answer_topup-same account body s failed w h = Post-reply _ internal w

pub replay_topup-same :
    (account : String) (body : TopupRequest) (w : World)
    → Post
        (λ _ t. (t ≡ w.store) × (find_topup body.id w.store ≡ no_rows))
        (replay_topup account body w)
unfolding replay_topup
replay_topup-same account body w =
    Post-bind (Returned (query (find_topup body.id)) w.store) _
      (statement (query (find_topup body.id))) (answer_topup account body) w
      (Post-statement (query (find_topup body.id)) w)
      (λ r w' p. answer_topup-same account body w.store r w' p)

answer_insert_topup-Moves :
    (t : TopupRow) (s : Store) (r : Sql (Unit {0})) (w : World)
    → Returned (insert_topup_row t) s r w.store
    → Post (Moves (λ a. pos 0) s) (answer_insert_topup r w)
answer_insert_topup-Moves t s (row u) w (inl down) = absurd (cc)
answer_insert_topup-Moves t s (row u) w (inr p) =
    Post-done _ tt w
      (Adjusts-frame s w.store (ground arith) (ground arith) (ground arith) (ground arith))
answer_insert_topup-Moves t s no_rows w p = Post-reply _ internal w
answer_insert_topup-Moves t s (violates constraint) w p = Post-reply _ _ w
answer_insert_topup-Moves t s failed w p = Post-reply _ internal w

insert_topup-Moves :
    (t : TopupRow) (w : World) → Post (Moves (λ a. pos 0) w.store) (insert_topup t w)
unfolding insert_topup
insert_topup-Moves t w =
    Post-bind (Returned (insert_topup_row t) w.store) _ (statement (insert_topup_row t))
      answer_insert_topup w (Post-statement (insert_topup_row t) w)
      (λ r w' p. answer_insert_topup-Moves t w.store r w' p)

-- The two legs: the clearing account is debited, the account's credit account credited.
post_topup-Run :
    (id ledger account : String) (amount : ℤ) (w : World)
    → holder w.store.ledger_accounts "led_clearing" ≡ none
    → holder w.store.ledger_accounts ledger ≡ some account
    → Post (Run id w.store (delta account amount) (pos 0)) (post_topup id ledger amount w)
unfolding post_topup Found
post_topup-Run id ledger account amount w clearing held =
    Post-weaken _
      (Run id w.store (λ a. pos 0 +ℤ delta account amount a) ((pos 0 -ℤ amount) +ℤ amount)) _
      (Run-then id w.store (insert_entry internal id "led_clearing" debit amount)
        (insert_entry internal id ledger credit amount) w
        (leg_of_nobody id w.store "led_clearing" debit amount w (refl, clearing))
        (λ w' p. leg_at id w'.store account ledger credit amount w' (refl, rw p.same held)))
      (λ _ t p. same_shares p (λ a. zero-+ℤ (delta account amount a)) (omega int_laws))

-- From the pending row to the commit.
write_topup-Settles :
    (ledger : String) (t : TopupRow) (w : World)
    → IsConsistent w.store
    → holder w.store.ledger_accounts "led_clearing" ≡ none
    → holder w.store.ledger_accounts ledger ≡ some t.account_id
    → Post (λ _ s. Settles w.store s (delta t.account_id t.amount) (pos 0)) (write_topup ledger t w)
unfolding write_topup
write_topup-Settles ledger t w c clearing held =
    let id = t.ledger_transaction_id in
    Post-bind _ _ (insert_pending id "topup" t.created_at) _ w
      (insert_pending-Opens id "topup" t.created_at w c)
      (λ _ w1 o.
        Post-bind _ _ (post_topup id ledger t.amount) _ w1
          (post_topup-Run id ledger t.account_id t.amount w1 (rw o.accounts clearing)
            (rw o.accounts held))
          (λ _ w2 p.
            Post-bind _ _ (mark_posted id) _ w2
              (mark_posted-Closes id w.store _ _ w2 w1.store c o p)
              (λ _ w3 q. Post-bind _ _ (insert_topup t) _ w3 (insert_topup-Moves t w3) (λ _ w4 m1.
                Post-bind _ _ (update_balance t.account_id t.amount) _ w4
                  (update_balance-Moves t.account_id t.amount w4)
                  (λ _ w5 m2.
                    Post-bind _ _
                      (insert_sync_transaction (topup_transaction_row t.account_id t.amount id)) _
                      w5
                      (insert_sync_transaction-Moves
                        (topup_transaction_row t.account_id t.amount id) w5)
                      (λ _ w6 m3. Post-weaken _ _ _ (commit-same id w6) (λ _ s same. rw same (
                        Settles-projected q (
                          Adjusts-same (Adjusts-then m1 (Adjusts-then m2 m3))
                            (λ a. around (delta t.account_id t.amount a)))))))))))
  where
    around : (x : ℤ) → pos 0 +ℤ (x +ℤ pos 0) ≡ x
    around x = rw (zero-+ℤ (x +ℤ pos 0)) (+ℤ-zero x)

credit_of_found :
    (account : String) (o : Option Account) (b : Account → Bool) (r : Sql String) (l : String)
    → (elim o [ none ↦ no_rows | some a ↦ if b a then r else no_rows ]) ≡ row l
    → r ≡ row l
credit_of_found account none b r l h = absurd (cc)
credit_of_found account (some a) b r l h = ground arith

find_credit_ledger-holder :
    (account l : String) (s : Store)
    → IsKeyed s.ledger_accounts s.ledger_accounts
    → find_credit_ledger account s ≡ row l
    → holder s.ledger_accounts l ≡ some account
unfolding find_credit_ledger
find_credit_ledger-holder account l s keyed h =
    holder_of_account s.ledger_accounts account l keyed
      (credit_of_found account (find (λ a. str_eq a.id account) s.accounts) _ _ l h)

find_credit-Found :
    (account : String) (w : World)
    → IsKeyed w.store.ledger_accounts w.store.ledger_accounts
    → Post (Found w.store (some account)) (exec not_found (query (find_credit_ledger account)) w)
unfolding Found
find_credit-Found account w keyed =
    Post-exec _ not_found (query (find_credit_ledger account)) w (λ l t h.
      (sym (ap (λ x. x.1) h), find_credit_ledger-holder account l w.store keyed (ap (λ x. x.0) h)))

topup_transaction-Settles :
    (account : String) (body : TopupRequest) (w : World)
    → IsConsistent w.store
    → holder w.store.ledger_accounts "led_clearing" ≡ none
    → Post
        (λ _ t. Settles w.store t (delta account body.amount) (pos 0))
        (topup_transaction account body w)
unfolding topup_transaction Found
topup_transaction-Settles account body w c clearing =
    Post-bind _ _ (exec internal (query (λ s. row tt))) _ w (query-same _ _ w) (λ _ w1 e1.
      Post-bind _ _ (exec internal (query (λ s. row tt))) _ w1 (query-same _ _ w1) (λ _ w2 e2.
        Post-bind _ _ (replay_topup account body) _ w2 (replay_topup-same account body w2)
          (λ _ w3 e3.
            Post-bind _ _
              (exec internal
                (query (λ s. row (has_reference body.channel body.external_reference s))))
              _ w3 (query-same _ _ w3)
              (λ exists w4 e4.
                Post-bind _ _ (reply_if exists (error_json 409 "duplicate_external_reference")) _ w4
                  (reply_if-same _ _ w4)
                  (λ _ w5 e5.
                    let start5 : w5.store ≡ w.store = e5.0 ∙ e4 ∙ e3.0 ∙ e2 ∙ e1 in
                    Post-bind _ _ (exec not_found (query (find_credit_ledger account))) _ w5
                      (find_credit-Found account w5 (rw start5 c.keyed))
                      (λ ledger w6 found.
                        Post-bind _ _ (new_id "txn_") _ w6 (new_id-same "txn_" w6) (λ id w7 e7.
                          Post-bind _ _ now_utc _ w7 (now_utc-same w7) (λ now w8 e8.
                            let start8 : w8.store ≡ w.store = e8 ∙ e7 ∙ found.0 ∙ start5 in
                            Post-bind _ _ (write_topup ledger (topup_row account body id now)) _ w8
                              (write_topup-Settles ledger (topup_row account body id now) w8
                                (rw start8 c) (rw start8 clearing)
                                (rw (start8 ∙ sym start5) found.1))
                              (λ _ w9 h.
                                Post-done _ (topup_row account body id now) w9
                                  (rw (← start8) h))))))))))

-- A top-up that goes through is answered with 201; the ledger balance and the projected balance of
-- the account rise by its amount and those of other accounts stay, and the entries that it appends
-- have equal debits and credits. The clearing account of the ledger is nobody's.
pub account_topup-Settles :
    (account : String) (body : TopupRequest) (w : World)
    → IsConsistent w.store
    → holder w.store.ledger_accounts "led_clearing" ≡ none
    → Post
        (λ r t. (r.status ≡ 201) × Settles w.store t (delta account body.amount) (pos 0))
        (account_topup account (some body) w)
unfolding account_topup
account_topup-Settles account body w c clearing =
    Post-bind _ _ (reply_if (not (is_valid_topup body)) invalid) _ w (reply_if-same _ _ w)
      (λ _ w1 e1.
        Post-bind _ _ (replay_topup account body) _ w1 (replay_topup-same account body w1)
          (λ _ w2 e2.
            let start : w2.store ≡ w.store = e2.0 ∙ e1.0 in
            Post-bind _ _ (transaction (topup_transaction account body)) _ w2
              (Post-transaction (λ _ t. Settles w.store t (delta account body.amount) (pos 0)) _ w2
                (λ w3 same. rw (← same ∙ start) (
                  topup_transaction-Settles account body w3 (rw (same ∙ start) c)
                    (rw (same ∙ start) clearing))))
              (λ t w4 h. Post-done _ (record { status = 201; body = topup t }) w4 (refl, h))))
