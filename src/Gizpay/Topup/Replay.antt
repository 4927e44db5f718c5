-- ===== src/Gizpay/Topup/Replay.antt =====
-- A top-up that comes again, and one that fails on the way (accountTopups,
-- internal/gizpay/handler.go).
use Prim.Native.String.{String}
use gizway.Text.{str_eq_iff}
use gizway.Prelude.{
  Bool-cases, ◌↔◌, arith, Bool, true, false, not, some, ◌≡◌, ◌≢◌, ◌⊎◌, inl, inr, refl, ◌∙◌,
}
use gizway.Gizpay.Store.{Store, TopupRow}
use gizway.Gizpay.Request.{
  World, reply, ◌>>=◌, ◌>>◌, internal, invalid, not_found, reply_if, Response, error_json, Sql, row,
  no_rows, violates, failed, pure, exec, query, statement, transaction, topup, new_id, now_utc,
}
use gizway.Gizpay.Triple.{Post, Post-bind}
use gizway.Gizpay.Charge.Once.{Never, refusal}
use gizway.Gizpay.Charge.Reading.{
  Reads, Reads-bind, query-Reads, IsAtomic, IsAtomic-bind, IsAtomic-map, transaction-IsAtomic,
  reply_if-Reads, reply_if-same, query-same, query-row, Post-transaction,
}
use gizway.Gizpay.Topup.{
  TopupRequest, same_topup, is_valid_topup, find_topup, existing_topup, answer_topup, replay_topup,
  has_reference, find_credit_ledger, topup_row, write_topup, topup_transaction, account_topup,
}
use gizway.Gizpay.Topup.Settled.{replay_topup-same}

-- The database has a top-up with the ID, or with the channel and the external reference.
abbrev pub IsKnown : TopupRequest → Store → Type 0
IsKnown body s =
    (find_topup body.id s ≢ no_rows) ⊎ (has_reference body.channel body.external_reference s ≡ true)

answer_topup-Reads :
    (account : String) (body : TopupRequest) (r : Sql TopupRow) (w : World)
    → Reads w.store (answer_topup account body r w)
answer_topup-Reads account body (row t) w = record { same = refl }
answer_topup-Reads account body no_rows w = record { same = refl }
answer_topup-Reads account body (violates c) w = record { same = refl }
answer_topup-Reads account body failed w = record { same = refl }

replay_topup-Reads :
    (account : String) (body : TopupRequest) (w : World)
    → Reads w.store (replay_topup account body w)
unfolding replay_topup
replay_topup-Reads account body w =
    Reads-bind (statement (query (find_topup body.id))) (answer_topup account body) w w.store
      (query-Reads (find_topup body.id) w)
      (λ r w' same. rw (← same) (answer_topup-Reads account body r w'))

-- A reply of the POST of a top-up leaves the database as it was, or, where the answer of the commit is
-- lost, as a top-up that goes through leaves it.
pub account_topup-IsAtomic :
    (L : Store → Type 0) (account : String) (body : TopupRequest) (w : World)
    → ((v : World) → v.store ≡ w.store → Post (λ _ t. L t) (topup_transaction account body v))
    → IsAtomic L w.store (account_topup account (some body) w)
unfolding account_topup
account_topup-IsAtomic L account body w h =
    IsAtomic-bind L (reply_if (not (is_valid_topup body)) invalid) _ w w.store
      (reply_if-Reads _ _ w)
      (λ _ w1 e1.
        IsAtomic-bind L (replay_topup account body) _ w1 w.store
          (rw (← e1) (replay_topup-Reads account body w1))
          (λ _ w2 e2.
            IsAtomic-map L (transaction (topup_transaction account body))
              (λ t. record { status = 201; body = topup t }) w2 w.store
              (rw (← e2) (
                transaction-IsAtomic L (topup_transaction account body) w2
                  (λ v same. h v (same ∙ e2))))))

known_row :
    (body : TopupRequest) (s : Store)
    → IsKnown body s
    → find_topup body.id s ≡ no_rows
    → has_reference body.channel body.external_reference s ≡ true
known_row body s (inl listed) h = absurd (listed h)
known_row body s (inr used) h = used

topup_transaction-Never :
    (account : String) (body : TopupRequest) (w : World)
    → IsKnown body w.store
    → Post Never (topup_transaction account body w)
unfolding topup_transaction
topup_transaction-Never account body w known =
    Post-bind _ Never (exec internal (query (λ s. row tt))) _ w (query-same _ _ w) (λ _ w1 e1.
      Post-bind _ Never (exec internal (query (λ s. row tt))) _ w1 (query-same _ _ w1) (λ _ w2 e2.
        Post-bind _ Never (replay_topup account body) _ w2 (replay_topup-same account body w2)
          (λ _ w3 e3.
            Post-bind _ Never
              (exec internal
                (query (λ s. row (has_reference body.channel body.external_reference s))))
              _ w3 (query-row _ _ w3)
              (λ exists w4 e4.
                Post-bind _ Never (reply_if exists (error_json 409 "duplicate_external_reference"))
                  (λ _. exec not_found (query (find_credit_ledger account)) >>= λ ledger.
                    new_id "txn_" >>= λ id. now_utc >>= λ now.
                    write_topup ledger (topup_row account body id now)
                    >> pure (topup_row account body id now))
                  w4 (reply_if-same _ _ w4)
                  (λ _ w5 e5.
                    let used : has_reference body.channel body.external_reference w3.store ≡ true =
                      rw (e3.0 ∙ e2 ∙ e1) (known_row body w.store known (rw (e2 ∙ e1) at e3.1)) in
                    absurd (clash exists _ used e4.1 e5.1))))))
  where
    clash : (b c : Bool) → c ≡ true → row c ≡ row b → b ≡ false → ⊥
    clash b c h e f = cc

account_topup-Never :
    (account : String) (body : TopupRequest) (w : World)
    → IsKnown body w.store
    → Post Never (account_topup account (some body) w)
unfolding account_topup
account_topup-Never account body w known =
    Post-bind _ Never (reply_if (not (is_valid_topup body)) invalid) _ w (reply_if-same _ _ w)
      (λ _ w1 e1.
        Post-bind _ Never (replay_topup account body) _ w1 (replay_topup-same account body w1)
          (λ _ w2 e2.
            Post-bind Never Never (transaction (topup_transaction account body))
              (λ t. pure (record { status = 201; body = topup t })) w2
              (Post-transaction Never _ w2 (λ w3 same.
                topup_transaction-Never account body w3 (rw (same ∙ e2.0 ∙ e1.0) known)))
              (λ t w4 no. absurd no)))

-- A top-up whose ID or whose channel and external reference the database holds is not credited again:
-- whichever statements fail, the handler replies without a change of the database.
pub account_topup_once :
    (account : String) (body : TopupRequest) (w : World)
    → IsKnown body w.store
    → (e : Response) × ((account_topup account (some body) w).0 ≡ reply e)
      × ((account_topup account (some body) w).1.store ≡ w.store)
account_topup_once account body w known =
    refusal w.store (account_topup account (some body) w) (account_topup-Never account body w known)
      (account_topup-IsAtomic (λ t. ⊥) account body w
        (λ v same. topup_transaction-Never account body v (rw same known)))

-- The request asks for what the stored top-up says.
abbrev pub IsRepeated : String → TopupRequest → TopupRow → Type 0
IsRepeated account body t =
    (t.account_id ≡ account)
    × (t.channel ≡ body.channel)
    × (t.external_reference ≡ body.external_reference)
    × (t.amount ≡ body.amount)

-- The stored top-up for a repeated request, and a conflict for another.
abbrev pub IsReplayed : String → TopupRequest → TopupRow → Response → Type 0
IsReplayed account body t r =
    (IsRepeated account body t → r ≡ record { status = 200; body = topup t })
    × (¬ IsRepeated account body t → r ≡ error_json 409 "resource_id_conflict")

same_topup_iff :
    (account : String) (body : TopupRequest) (t : TopupRow)
    → (same_topup account body t ≡ true) ↔ IsRepeated account body t
unfolding same_topup
same_topup_iff account body t = (
  (λ h. (
    (str_eq_iff t.account_id account).0 (ground arith),
    (str_eq_iff t.channel body.channel).0 (ground arith),
    (str_eq_iff t.external_reference body.external_reference).0 (ground arith),
    ground arith,
  )),
  (λ (a, c, e, n).
      rw
        (
          (str_eq_iff t.account_id account).1 a,
          (str_eq_iff t.channel body.channel).1 c,
          (str_eq_iff t.external_reference body.external_reference).1 e,
        )
        (ground arith)),
)

existing_topup-IsReplayed :
    (account : String) (body : TopupRequest) (t : TopupRow)
    → IsReplayed account body t (existing_topup account body t)
unfolding existing_topup
existing_topup-IsReplayed account body t = (
  (λ same. rw ((same_topup_iff account body t).1 same) refl),
  (λ other. elim (Bool-cases (same_topup account body t)) [
    | inl same ↦ absurd (other ((same_topup_iff account body t).0 same))
    | inr differs ↦ rw differs refl
  ]),
)

-- A valid top-up whose ID the database holds is answered, where the query goes through, with the
-- stored top-up and 200 if its account, channel, reference and amount are the same, and with a conflict
-- if they are not.
pub account_topup_again :
    (account : String) (body : TopupRequest) (t : TopupRow) (w : World)
    → is_valid_topup body ≡ true
    → find_topup body.id w.store ≡ row t
    → w.fails w.ran ≡ false
    → (r : Response) × ((account_topup account (some body) w).0 ≡ reply r)
      × IsReplayed account body t r
unfolding account_topup replay_topup statement
account_topup_again account body t w valid found up = (
  existing_topup account body t,
  rw (valid, up, found) refl,
  existing_topup-IsReplayed account body t,
)
