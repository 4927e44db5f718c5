-- ===== src/Gizpay/Identity/Initial.antt =====
-- What an initialization leaves (initializeIdentity, internal/gizpay/handler.go).
use Prim.Native.String.{String}
use gizway.Prelude.{
  true, false, not, ◌&&◌, any, ◌≡◌, refl, sym, ap, ◌∙◌, arith, Bool-cases, inl, inr,
}
use gizway.Text.{str_eq}
use gizway.Gizpay.Store.{Store, UserProfile, Merchant, is_credit_of}
use gizway.Gizpay.Merchants.{merchant_clashes}
use gizway.Gizpay.Request.{
  World, ◌>>=◌, pure, reply_if, Sql, row, no_rows, violates, failed, statement, exec, query, new_id,
  internal,
}
use gizway.Gizpay.Triple.{
  Post, Post-bind, Post-done, Post-reply, Post-exec, Post-statement, Post-branch, Returned,
  new_id-same,
}
use gizway.Gizpay.Charge.Reading.{reply_if-same}
use gizway.Gizpay.Identity.{
  Identity, identity_conflict, is_none, insert_ledger_account, default_merchant, insert_default,
  find_default, answer_default, upsert_profile, insert_balance, choose_merchant,
  initialize_merchant,
}

-- The tables that tie an identity to its Merchant.
pub record Ties (s t : Store) : Type 0 where
  pub users : t.users ≡ s.users
  pub accounts : t.accounts ≡ s.accounts
  pub merchants : t.merchants ≡ s.merchants

pub Ties-same : (s t : Store) → t ≡ s → Ties s t
Ties-same s t e = record {
  users = ap (λ x. x.users) e;
  accounts = ap (λ x. x.accounts) e;
  merchants = ap (λ x. x.merchants) e;
}

pub Ties-trans : (s t u : Store) → Ties s t → Ties t u → Ties s u
Ties-trans s t u h k = record {
  users = k.users ∙ h.users;
  accounts = k.accounts ∙ h.accounts;
  merchants = k.merchants ∙ h.merchants;
}

-- A statement on the other tables.
pub other-Ties :
    (f : Store → Sql (Unit {0}) × Store) (w : World)
    → Ties w.store (f w.store).1
    → Post (λ _ t. Ties w.store t) (exec internal f w)
other-Ties f w h = Post-exec _ internal f w (λ u t e. rw (← (ap (λ x. x.1) e)) h)

insert_default-stays :
    (m : Merchant) (s : Store)
    → ((insert_default m s).1.users ≡ s.users) × ((insert_default m s).1.accounts ≡ s.accounts)
unfolding insert_default
insert_default-stays m s = elim (Bool-cases (any (merchant_clashes m) s.merchants)) [
  | inl clash ↦ rw clash (refl, refl)
  | inr free ↦ rw free (refl, refl)
]

pub insert_ledger_account-Ties :
    (id account : String) (s : Store) → Ties s (insert_ledger_account id account s).1
unfolding insert_ledger_account
insert_ledger_account-Ties id account s =
    elim (Bool-cases (any (is_credit_of account) s.ledger_accounts)) [
      | inl there ↦ rw there (Ties-same s s refl)
      | inr new ↦ elim (Bool-cases (any (λ l. str_eq l.id id) s.ledger_accounts)) [
        | inl clash ↦ rw (new, clash) (Ties-same s s refl)
        | inr free ↦ rw (new, free) (record { users = refl; accounts = refl; merchants = refl })
      ]
    ]

pub upsert_profile-Ties : (p : UserProfile) (s : Store) → Ties s (upsert_profile p s).1
unfolding upsert_profile
upsert_profile-Ties p s = elim (Bool-cases (any (λ q. str_eq q.id p.id) s.user_profiles)) [
  | inl there ↦ rw there (record { users = refl; accounts = refl; merchants = refl })
  | inr new ↦
      elim (Bool-cases (
        any
          (λ q.
            str_eq q.identity_issuer p.identity_issuer
            && str_eq q.identity_subject p.identity_subject)
          s.user_profiles)) [
            | inl clash ↦ rw (new, clash) (Ties-same s s refl)
            | inr free ↦ rw (new, free) (record { users = refl; accounts = refl; merchants = refl })
          ]
]

pub insert_balance-Ties : (account : String) (s : Store) → Ties s (insert_balance account s).1
unfolding insert_balance
insert_balance-Ties account s =
    elim (Bool-cases (any (λ b. str_eq b.account_id account) s.balances)) [
      | inl there ↦ rw there (Ties-same s s refl)
      | inr new ↦ rw new (record { users = refl; accounts = refl; merchants = refl })
    ]

module _ (i : Identity) where
  answer_default-row :
      (account : String) (w : World)
      → Post
          (λ m t. (t ≡ w.store) × (find_default account w.store ≡ row m))
          ((statement (query (find_default account)) >>= answer_default i) w)
  answer_default-row account w =
      Post-bind (Returned (query (find_default account)) w.store) _
        (statement (query (find_default account))) (answer_default i) w
        (Post-statement (query (find_default account)) w) (λ r w' p. answered r w' p)
    where
      answered :
          (r : Sql String) (w' : World)
          → Returned (query (find_default account)) w.store r w'.store
          → Post
              (λ m t. (t ≡ w.store) × (find_default account w.store ≡ row m))
              (answer_default i r w')
      answered (row m) w' (inl down) = absurd (cc)
      answered (row m) w' (inr p) = Post-done _ m w' (sym (ap (λ x. x.1) p), ap (λ x. x.0) p)
      answered no_rows w' p = Post-reply _ _ w'
      answered (violates c) w' p = Post-reply _ internal w'
      answered failed w' p = Post-reply _ internal w'

  choose_merchant-same : (w : World) → Post (λ _ t. t ≡ w.store) (choose_merchant i w)
  choose_merchant-same w =
      Post-branch _ (is_none i.requested_merchant) (new_id "") (pure i.requested_merchant) w
        (λ _. new_id-same "" w) (λ _. Post-done _ i.requested_merchant w refl)

  -- The Merchant that is returned is the default of the account; users and accounts stay.
  pub initialize_merchant-Post :
      (account : String) (w : World)
      → Post
          (λ m t.
            (t.users ≡ w.store.users)
            × (t.accounts ≡ w.store.accounts)
            × (find_default account t ≡ row m)
            × (is_none i.requested_merchant ≡ false → str_eq m i.requested_merchant ≡ true))
          (initialize_merchant i account w)
  unfolding initialize_merchant
  initialize_merchant-Post account w =
      Post-bind _ _ (choose_merchant i) _ w (choose_merchant-same w) (λ chosen w1 s1.
        Post-bind (λ _ t. (t.users ≡ w.store.users) × (t.accounts ≡ w.store.accounts)) _
          (exec internal (insert_default (default_merchant chosen account i.display_name))) _ w1
          (Post-exec _ internal _ w1
            (λ u t h. (rw (← s1, ← (ap (λ x. x.1) h)) (insert_default-stays _ w1.store))))
          (λ _ w2 (us, as').
            Post-bind _ _ (statement (query (find_default account)) >>= answer_default i) _ w2
              (answer_default-row account w2)
              (λ m w3 (s3, found).
                Post-bind _ _
                  (reply_if
                    (not (is_none i.requested_merchant) && not (str_eq m i.requested_merchant))
                    identity_conflict)
                  (λ _. pure m) w3
                  (reply_if-same
                    (not (is_none i.requested_merchant) && not (str_eq m i.requested_merchant))
                    identity_conflict w3)
                  (λ _ w4 (s4, same).
                    Post-done _ m w4 (rw s4 (rw s3 (us, as', found, λ asked. ground arith)))))))
