-- ===== src/Gizpay/Subscribe/Accepted.antt =====
-- A subscription that is created, and the same request again (createSubscription,
-- internal/gizpay/handler.go).
use Prim.Native.String.{String}
use gizway.Prelude.{
  IsIn, ◌&&◌, Bool, true, false, not, some, List, ◌∷◌, ◌≡◌, refl, sym, ap, ◌∙◌, arith, inl, inr,
  Bool-cases,
}
use text.Mathlib.TextPositions.{eq_refl}
use gizway.Text.{str_eq, str_eq_iff, is_blank}
use gizway.Gizpay.Store.{Store, Subscription, Product}
use gizway.Gizpay.Request.{
  M, World, done, reply, Response, pure, fail, reply_if, Sql, row, no_rows, violates, failed,
  statement, exec, query, error_json, internal, invalid, not_found, subscription,
}
use gizway.Gizpay.Triple.{
  Post, Post-bind, Post-exec, Post-done, Post-reply, Post-statement, Returned, Post-weaken,
  Post-of_done,
}
use gizway.Gizpay.Charge.Reading.{select-cases, query-row, reply_if-same}
use gizway.Gizpay.Subscribe.{
  SubscriptionRequest, find_subscription, find_terms, find_other, existing_subscription,
  answer_subscription, replay_subscription, answer_other, check_other, insert_subscription,
  new_subscription, check_subscription, answer_inserted, create_subscription,
}

-- From s to t the subscription of the request is created, by the owner of the account and for the
-- current terms of an active and published product.
record Subscribes (account product : String) (body : SubscriptionRequest) (s t : Store)
    : Type 0 where
  named : is_blank body.id ≡ false
  own : str_eq body.account_id account ≡ true
  terms : find_terms product s ≡ row body.terms_version
  created : t.subscriptions ≡ new_subscription product body ∷ s.subscriptions

abbrev Checked : String → String → SubscriptionRequest → Store → Unit {0} → Store → Type 0
Checked account product body s _ t =
    (t ≡ s)
    × (is_blank body.id ≡ false)
    × (str_eq body.account_id account ≡ true)
    × (find_terms product s ≡ row body.terms_version)

module _ (product : String) (body : SubscriptionRequest) where
  replay-Post :
      (Q : Unit {0} → Store → Type 0) (absent broken : M (Unit {0})) (w : World)
      → ((w' : World) → w'.store ≡ w.store → Post Q (absent w'))
      → ((w' : World) → Post Q (broken w'))
      → Post Q (replay_subscription product body absent broken w)
  unfolding replay_subscription
  replay-Post Q absent broken w a b =
      Post-bind (Returned (query (find_subscription body.id)) w.store) Q
        (statement (query (find_subscription body.id)))
        (answer_subscription product body absent broken) w
        (Post-statement (query (find_subscription body.id)) w) (λ r w' p. answered r w' p)
    where
      answered :
          (r : Sql Subscription) (w' : World)
          → Returned (query (find_subscription body.id)) w.store r w'.store
          → Post Q (answer_subscription product body absent broken r w')
      answered (row r) w' p = Post-reply Q (existing_subscription product body r) w'
      answered no_rows w' (inl down) = absurd (cc)
      answered no_rows w' (inr p) = a w' (sym (ap (λ x. x.1) p))
      answered (violates c) w' p = b w'
      answered failed w' p = b w'

  other-same :
      (account : String) (s : Store) (r : Sql String) (w : World)
      → Returned (query (find_other account product)) s r w.store
      → Post (λ _ t. t ≡ s) (answer_other product body r w)
  other-same account s (row other) w p = elim (Bool-cases (str_eq other body.id)) [
    | inl same ↦ rw same (
        replay-Post _ (fail internal) (fail internal) w (λ w' e. Post-reply _ internal w')
          (λ w'. Post-reply _ internal w'))
    | inr new ↦ rw new (Post-reply _ (error_json 409 "subscription_already_exists") w)
  ]
  other-same account s no_rows w (inl down) = absurd (cc)
  other-same account s no_rows w (inr p) = Post-done _ tt w (sym (ap (λ x. x.1) p))
  other-same account s (violates c) w p = Post-reply _ internal w
  other-same account s failed w p = Post-reply _ internal w

  check_subscription-Checked :
      (account : String) (w : World)
      → Post (Checked account product body w.store) (check_subscription account product body w)
  unfolding check_subscription check_other
  check_subscription-Checked account w =
      Post-bind _ _ (reply_if (is_blank body.id) invalid) _ w (reply_if-same _ _ w) (λ _ w1 e1.
        Post-bind _ _ (reply_if (not (str_eq body.account_id account)) not_found) _ w1
          (reply_if-same _ _ w1)
          (λ _ w2 e2.
            Post-bind (λ _ t. t ≡ w2.store) _
              (replay_subscription product body (pure tt) (fail internal)) _ w2
              (replay-Post (λ _ t. t ≡ w2.store) (pure tt) (fail internal) w2
                (λ w' e. Post-done _ tt w' e) (λ w'. Post-reply _ internal w'))
              (λ _ w3 e3.
                Post-bind _ _ (exec not_found (query (find_terms product))) _ w3 (query-row _ _ w3)
                  (λ terms w4 e4.
                    Post-bind _ _ (reply_if (is_blank body.terms_version) invalid) _ w4
                      (reply_if-same _ _ w4)
                      (λ _ w5 e5.
                        Post-bind _ _
                          (reply_if (not (str_eq body.terms_version terms))
                            (error_json 409 "terms_version_mismatch"))
                          _ w5 (reply_if-same _ _ w5)
                          (λ _ w6 e6.
                            let start : w6.store ≡ w.store =
                              e6.0 ∙ e5.0 ∙ e4.0 ∙ e3 ∙ e2.0 ∙ e1.0 in
                            let current : body.terms_version ≡ terms =
                              (str_eq_iff body.terms_version terms).0 (of_not _ e6.1) in
                            Post-bind (Returned (query (find_other account product)) w6.store) _
                              (statement (query (find_other account product)))
                              (answer_other product body) w6
                              (Post-statement (query (find_other account product)) w6)
                              (λ r w7 p.
                                Post-weaken _ _ _ (other-same account w6.store r w7 p) (λ _ t same.
                                  (
                                    same ∙ start,
                                    e1.1,
                                    of_not _ e2.1,
                                    rw (← e3 ∙ e2.0 ∙ e1.0, current) e4.1,
                                  )))))))))
    where
      of_not : (b : Bool) → not b ≡ false → b ≡ true
      of_not true h = refl
      of_not false h = absurd (cc)

  answer_inserted-same :
      (inserted : Bool) (w : World)
      → Post (λ _ t. (t ≡ w.store) × (inserted ≡ true)) (answer_inserted product body inserted w)
  answer_inserted-same true w = Post-done _ tt w (refl, refl)
  answer_inserted-same false w =
      let conflict = error_json 409 "subscription_already_exists" in
      replay-Post _ (fail conflict) (fail conflict) w (λ w' e. Post-reply _ conflict w')
        (λ w'. Post-reply _ conflict w')

  insert_subscription-row :
      (new : Subscription) (s t : Store) (inserted : Bool)
      → insert_subscription new s ≡ (row inserted, t)
      → inserted ≡ true
      → t.subscriptions ≡ new ∷ s.subscriptions
  unfolding insert_subscription
  insert_subscription-row new s t inserted h e = ground arith

create_subscription-Subscribes :
    (account product : String) (body : SubscriptionRequest) (w : World)
    → Post
        (λ r t.
          (r ≡ record { status = 201; body = subscription (new_subscription product body) })
          × Subscribes account product body w.store t)
        (create_subscription account product (some body) w)
unfolding create_subscription
create_subscription-Subscribes account product body w =
    Post-bind _ _ (check_subscription account product body) _ w
      (check_subscription-Checked product body account w)
      (λ _ w1 c.
        Post-bind
          (λ inserted t.
            inserted ≡ true
            → t.subscriptions ≡ new_subscription product body ∷ w1.store.subscriptions)
          _ (exec internal (insert_subscription (new_subscription product body))) _ w1
          (Post-exec _ internal _ w1 (λ inserted t h.
            insert_subscription-row product body (new_subscription product body) w1.store t inserted
              h))
          (λ inserted w2 i.
            Post-bind _ _ (answer_inserted product body inserted) _ w2
              (answer_inserted-same product body inserted w2)
              (λ _ w3 e.
                let (same, named, own, terms) = c in
                Post-done _
                  (record { status = 201; body = subscription (new_subscription product body) }) w3
                  (
                    refl,
                    record {
                      named = named;
                      own = own;
                      terms = terms;
                      created =
                          ap (λ s. s.subscriptions) e.0
                          ∙ i e.1
                          ∙ ap (λ s. new_subscription product body ∷ s.subscriptions) same;
                    },
                  ))))

-- The subscription of the request, which is active.
abbrev pub IsCreated : String → String → SubscriptionRequest → Subscription → Type 0
IsCreated account product body r =
    (r.id ≡ body.id)
    × (r.account_id ≡ account)
    × (r.product_id ≡ product)
    × (r.status ≡ "active")
    × (r.terms_version ≡ body.terms_version)

-- The product is active and published, with the terms.
abbrev pub IsOffered : String → String → Store → Type 0
IsOffered product terms s =
    (p : Product) × IsIn p s.products
    × (p.id ≡ product)
    × (p.status ≡ "active")
    × (p.published ≡ true)
    × (p.terms_version ≡ terms)

find_terms-IsOffered :
    (product terms : String) (s : Store)
    → find_terms product s ≡ row terms
    → IsOffered product terms s
unfolding find_terms
find_terms-IsOffered product terms s h =
    elim (select-cases (λ p. str_eq p.id product && str_eq p.status "active" && p.published)
      (λ p. p.terms_version) s.products) [
        | inl lost ↦ absurd (cc)
        | inr (p, there, up, e) ↦ (
          p,
          there,
          (str_eq_iff p.id product).0 (ground arith),
          (str_eq_iff p.status "active").0 (ground arith),
          ground arith,
          same_row (sym e ∙ h),
        )
      ]
  where
    same_row : {a b : String} → row a ≡ row b → a ≡ b
    same_row h = cc

-- A request that goes through is answered with 201 and an active subscription of its ID, the caller's
-- account and the product, which is added to the others; the ID is not blank, and the accepted terms
-- are those of an active and published product.
pub create_subscription-IsCreated :
    (account product : String) (body : SubscriptionRequest) (w : World)
    → Post
        (λ answer t.
          (r : Subscription) × IsCreated account product body r
          × (answer ≡ record { status = 201; body = subscription r })
          × (t.subscriptions ≡ r ∷ w.store.subscriptions)
          × IsOffered product body.terms_version w.store
          × (is_blank body.id ≡ false))
        (create_subscription account product (some body) w)
create_subscription-IsCreated account product body w =
    Post-weaken _ _ _ (create_subscription-Subscribes account product body w) (λ answer t (e, h). (
      new_subscription product body,
      (refl, (str_eq_iff body.account_id account).0 h.own, refl, refl, refl),
      e,
      h.created,
      find_terms-IsOffered product body.terms_version w.store h.terms,
      h.named,
    ))

find_created :
    (product : String) (body : SubscriptionRequest) (s : Store) (rest : List Subscription)
    → s.subscriptions ≡ new_subscription product body ∷ rest
    → find_subscription body.id s ≡ row (new_subscription product body)
unfolding find_subscription
find_created product body s rest h = rw (h, find_subscription) (rw (eq_refl body.id) refl)

existing_created :
    (product : String) (body : SubscriptionRequest)
    → existing_subscription product body (new_subscription product body)
      ≡ record { status = 200; body = subscription (new_subscription product body) }
unfolding existing_subscription
existing_created product body =
    rw (eq_refl body.account_id, eq_refl product, eq_refl body.terms_version) refl

replayed :
    (account product : String) (body : SubscriptionRequest) (v : World) (rest : List Subscription)
    → is_blank body.id ≡ false
    → str_eq body.account_id account ≡ true
    → v.store.subscriptions ≡ new_subscription product body ∷ rest
    → v.fails v.ran ≡ false
    → (create_subscription account product (some body) v).0
      ≡ reply (record { status = 200; body = subscription (new_subscription product body) })
unfolding create_subscription check_subscription replay_subscription statement
replayed account product body v rest named own h up =
    rw (named, own, up, find_created product body v.store rest h)
      (ap reply (existing_created product body))

-- After a request has gone through, the same request again is answered with 200 and the created
-- subscription, where its query goes through.
pub create_subscription_again :
    (account product : String) (body : SubscriptionRequest) (w v : World) (r : Response)
    → (create_subscription account product (some body) w).0 ≡ done r
    → v.store ≡ (create_subscription account product (some body) w).1.store
    → v.fails v.ran ≡ false
    → (create_subscription account product (some body) v).0
      ≡ reply (record { status = 200; body = subscription (new_subscription product body) })
create_subscription_again account product body w v r ok same up =
    let (_, c) =
      Post-of_done _ (create_subscription account product (some body) w) r
        (create_subscription-Subscribes account product body w) ok in
    replayed account product body v _ c.named c.own (ap (λ s. s.subscriptions) same ∙ c.created) up
