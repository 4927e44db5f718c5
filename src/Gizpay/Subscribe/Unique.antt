-- ===== src/Gizpay/Subscribe/Unique.antt =====
-- The unique constraints of subscriptions (createSubscription and subscriptionResource,
-- internal/gizpay/handler.go).
use Prim.Native.String.{String}
use gizway.Prelude.{
  All, All-any, ◌≢◌, ◌&&◌, Bool, true, false, not, Option, none, some, List, [], ◌∷◌, any, ◌≡◌,
  arith, Bool-cases, inl, inr,
}
use gizway.Text.{str_eq_iff, str_eq, is_blank}
use gizway.Gizpay.Store.{Store, Subscription}
use gizway.Gizpay.Request.{
  M, World, pure, fail, reply_if, Sql, row, no_rows, violates, failed, statement, exec, query,
  error_json, internal, invalid, not_found, subscription,
}
use gizway.Gizpay.Keeps.{
  Keeps, Keeps-done, Keeps-reply, Keeps-bind, Keeps-reply_if, Keeps-query, Keeps-exec,
  Keeps-exec_query,
}
use gizway.Gizpay.Subscribe.{
  SubscriptionRequest, find_subscription, find_terms, find_other, existing_subscription,
  answer_subscription, replay_subscription, answer_other, check_other, clashes, insert_subscription,
  new_subscription, check_subscription, answer_inserted, create_subscription,
}

-- No two subscriptions have the same ID, or the same account and product.
abbrev pub IsApart : Subscription → Subscription → Type 0
IsApart r q = (q.id ≢ r.id) × (q.account_id ≡ r.account_id → ¬ (q.product_id ≡ r.product_id))

abbrev pub IsUnique : List Subscription → Type 0
IsUnique [] = Unit
IsUnique (r ∷ rs) = All (IsApart r) rs × IsUnique rs

abbrev HasUnique : Store → Type 0
HasUnique s = IsUnique s.subscriptions

-- The reading steps keep every property of the store.
module _ (I : Store → Type 0) where
  pub Keeps-replay :
      (product : String) (body : SubscriptionRequest) (absent broken : M (Unit {0})) (w : World)
      → I w.store
      → ((w' : World) → I w'.store → Keeps I (absent w'))
      → ((w' : World) → I w'.store → Keeps I (broken w'))
      → Keeps I (replay_subscription product body absent broken w)
  unfolding replay_subscription
  Keeps-replay product body absent broken w i a b =
      Keeps-bind I (statement (query (find_subscription body.id)))
        (answer_subscription product body absent broken) w
        (Keeps-query I (find_subscription body.id) w i) (λ r w' i'. answered r w' i')
    where
      answered :
          (r : Sql Subscription) (w' : World)
          → I w'.store
          → Keeps I (answer_subscription product body absent broken r w')
      answered (row r) w' i' = Keeps-reply I (existing_subscription product body r) w' i'
      answered no_rows w' i' = a w' i'
      answered (violates c) w' i' = b w' i'
      answered failed w' i' = b w' i'

  Keeps-answer_other :
      (product : String) (body : SubscriptionRequest) (r : Sql String) (w : World)
      → I w.store
      → Keeps I (answer_other product body r w)
  Keeps-answer_other product body (row other) w i = elim (Bool-cases (str_eq other body.id)) [
    | inl same ↦ rw same (
        Keeps-replay product body (fail internal) (fail internal) w i
          (λ w' i'. Keeps-reply I internal w' i') (λ w' i'. Keeps-reply I internal w' i'))
    | inr new ↦ rw new (Keeps-reply I (error_json 409 "subscription_already_exists") w i)
  ]
  Keeps-answer_other product body no_rows w i = Keeps-done I tt w i
  Keeps-answer_other product body (violates c) w i = Keeps-reply I internal w i
  Keeps-answer_other product body failed w i = Keeps-reply I internal w i

  pub Keeps-check_subscription :
      (account product : String) (body : SubscriptionRequest) (w : World)
      → I w.store
      → Keeps I (check_subscription account product body w)
  unfolding check_subscription check_other
  Keeps-check_subscription account product body w i =
      Keeps-bind I (reply_if (is_blank body.id) invalid) _ w (Keeps-reply_if I _ _ w i) (λ _ w1 i1.
        Keeps-bind I (reply_if (not (str_eq body.account_id account)) not_found) _ w1
          (Keeps-reply_if I _ _ w1 i1)
          (λ _ w2 i2.
            Keeps-bind I (replay_subscription product body (pure tt) (fail internal)) _ w2
              (Keeps-replay product body (pure tt) (fail internal) w2 i2
                (λ w' i'. Keeps-done I tt w' i') (λ w' i'. Keeps-reply I internal w' i'))
              (λ _ w3 i3.
                Keeps-bind I (exec not_found (query (find_terms product))) _ w3
                  (Keeps-exec_query I not_found (find_terms product) w3 i3)
                  (λ terms w4 i4.
                    Keeps-bind I (reply_if (is_blank body.terms_version) invalid) _ w4
                      (Keeps-reply_if I _ _ w4 i4)
                      (λ _ w5 i5.
                        Keeps-bind I
                          (reply_if (not (str_eq body.terms_version terms))
                            (error_json 409 "terms_version_mismatch"))
                          _ w5 (Keeps-reply_if I _ _ w5 i5)
                          (λ _ w6 i6.
                            Keeps-bind I (statement (query (find_other account product)))
                              (answer_other product body) w6
                              (Keeps-query I (find_other account product) w6 i6)
                              (λ r w7 i7. Keeps-answer_other product body r w7 i7)))))))

  pub Keeps-answer_inserted :
      (product : String) (body : SubscriptionRequest) (inserted : Bool) (w : World)
      → I w.store
      → Keeps I (answer_inserted product body inserted w)
  Keeps-answer_inserted product body true w i = Keeps-done I tt w i
  Keeps-answer_inserted product body false w i =
      let conflict = error_json 409 "subscription_already_exists" in
      Keeps-replay product body (fail conflict) (fail conflict) w i
        (λ w' i'. Keeps-reply I conflict w' i') (λ w' i'. Keeps-reply I conflict w' i')

IsApart-clashes : (new q : Subscription) → clashes new q ≡ false → IsApart new q
unfolding clashes
IsApart-clashes new q h = (
  (λ same. let up = (str_eq_iff q.id new.id).1 same in absurd (ground arith)),
  (λ account product.
      let up1 = (str_eq_iff q.account_id new.account_id).1 account in
      let up2 = (str_eq_iff q.product_id new.product_id).1 product in absurd (ground arith)),
)

insert_subscription-IsUnique :
    (new : Subscription) (s : Store)
    → IsUnique s.subscriptions
    → IsUnique (insert_subscription new s).1.subscriptions
unfolding insert_subscription
insert_subscription-IsUnique new s h = elim (Bool-cases (any (clashes new) s.subscriptions)) [
  | inl clash ↦ rw clash h
  | inr free ↦
      let apart = All-any (IsApart new) (clashes new) s.subscriptions (IsApart-clashes new) free in
      elim (Bool-cases (
        any (λ a. str_eq a.id new.account_id) s.accounts
        && any (λ p. str_eq p.id new.product_id) s.products)) [
          | inl known ↦ rw (free, known) (apart, h)
          | inr unknown ↦ rw (free, unknown) h
        ]
]

-- Whatever the outcome of createSubscription, and whichever statements fail, no two subscriptions have
-- the same ID or the same account and product.
pub create_subscription-IsUnique :
    (account product : String) (body : Option SubscriptionRequest) (w : World)
    → IsUnique w.store.subscriptions
    → IsUnique (create_subscription account product body w).1.store.subscriptions
unfolding create_subscription
create_subscription-IsUnique account product none w h = h
create_subscription-IsUnique account product (some body) w h =
    (Keeps-bind HasUnique (check_subscription account product body) _ w
      (Keeps-check_subscription HasUnique account product body w h)
      (λ _ w1 h1.
        Keeps-bind HasUnique (exec internal (insert_subscription (new_subscription product body))) _
          w1
          (Keeps-exec HasUnique internal (insert_subscription (new_subscription product body)) w1 h1
            (insert_subscription-IsUnique (new_subscription product body) w1.store h1))
          (λ inserted w2 h2.
            Keeps-bind HasUnique (answer_inserted product body inserted)
              (λ _.
                pure (record { status = 201; body = subscription (new_subscription product body) }))
              w2 (Keeps-answer_inserted HasUnique product body inserted w2 h2)
              (λ _ w3 h3. Keeps-done HasUnique _ w3 h3)))).holds
