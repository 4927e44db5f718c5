-- ===== src/Gizpay/Identity/Tied.antt =====
-- The identity, its user, account and default Merchant after an initialization (initializeIdentity,
-- internal/gizpay/handler.go).
use Prim.Native.String.{String}
use gizway.Prelude.{true, false, ◌||◌, any, ◌≡◌, refl, ap, ◌∙◌, Bool-cases, inl, inr}
use gizway.Text.{str_eq, is_blank}
use gizway.Gizpay.Store.{Store, UserProfile}
use gizway.Gizpay.Request.{
  M, World, Outcome, done, reply, ◌>>=◌, ◌>>◌, pure, reply_if, row, exec, query, new_id,
  transaction, internal,
}
use gizway.Gizpay.Triple.{
  Post, Post-bind, Post-done, Post-reply, Post-exec, Post-weaken, new_id-same,
}
use gizway.Gizpay.Charge.Reading.{
  query-row, query-same, Post-transaction, reply_if-Reads, IsAtomic, IsAtomic-bind,
  transaction-IsAtomic,
}
use gizway.Gizpay.Identity.{
  Identity, Initialized, is_none, check_requested, find_user, find_account, insert_account,
  insert_ledger_account, find_ledger, find_default, upsert_profile, insert_balance, upsert_user,
  initialize_merchant, project_identity, finish_identity, initialize_rows, initialize_identity,
}
use gizway.Gizpay.Identity.Initial.{
  Ties, Ties-same, Ties-trans, other-Ties, insert_ledger_account-Ties, upsert_profile-Ties,
  insert_balance-Ties, initialize_merchant-Post,
}

-- The user of the identity, the account of the user and the default Merchant of the account are what
-- is returned, and the Merchant is the requested one, if any.
pub record Tied (i : Identity) (r : Initialized) (s : Store) : Type 0 where
  pub user : find_user i s ≡ row r.user_id
  pub account : find_account r.user_id s ≡ row r.account_id
  pub merchant : find_default r.account_id s ≡ row r.merchant_id
  pub requested :
      is_none i.requested_merchant ≡ false → str_eq r.merchant_id i.requested_merchant ≡ true

insert_account-users : (id user : String) (s : Store) → (insert_account id user s).1.users ≡ s.users
unfolding insert_account
insert_account-users id user s =
    elim (Bool-cases (any (λ a. str_eq a.owner_user_id user) s.accounts)) [
      | inl there ↦ rw there refl
      | inr new ↦ elim (Bool-cases (any (λ a. str_eq a.id id) s.accounts)) [
        | inl clash ↦ rw (new, clash) refl
        | inr free ↦ rw (new, free) refl
      ]
    ]

record HasUser (i : Identity) (user : String) (s : Store) : Type 0 where
  found : find_user i s ≡ row user

record HasAccount (i : Identity) (user account : String) (s : Store) : Type 0 where
  user_found : HasUser i user s
  account_found : find_account user s ≡ row account

find_user-users : (i : Identity) (s t : Store) → t.users ≡ s.users → find_user i t ≡ find_user i s
unfolding find_user
find_user-users i s t same = rw same refl

find_account-accounts :
    (user : String) (s t : Store)
    → t.accounts ≡ s.accounts
    → find_account user t ≡ find_account user s
unfolding find_account
find_account-accounts user s t same = rw same refl

find_default-merchants :
    (account : String) (s t : Store)
    → t.merchants ≡ s.merchants
    → find_default account t ≡ find_default account s
unfolding find_default
find_default-merchants account s t same = rw same refl

module _ (i : Identity) where
  HasUser-users :
      (user : String) (s t : Store) → t.users ≡ s.users → HasUser i user s → HasUser i user t
  HasUser-users user s t same h = record { found = find_user-users i s t same ∙ h.found }

  HasAccount-tables :
      (user account : String) (s t : Store)
      → t.users ≡ s.users
      → t.accounts ≡ s.accounts
      → HasAccount i user account s
      → HasAccount i user account t
  HasAccount-tables user account s t us as' h = record {
    user_found = HasUser-users user s t us h.user_found;
    account_found = find_account-accounts user s t as' ∙ h.account_found;
  }

  Tied-Ties : (r : Initialized) (s t : Store) → Ties s t → Tied i r s → Tied i r t
  Tied-Ties r s t same h = record {
    user = find_user-users i s t same.users ∙ h.user;
    account = find_account-accounts r.user_id s t same.accounts ∙ h.account;
    merchant = find_default-merchants r.account_id s t same.merchants ∙ h.merchant;
    requested = h.requested;
  }

  project_identity-Ties :
      (user account merchant : String) (w : World)
      → Post (λ _ t. Ties w.store t) (project_identity i user account merchant w)
  unfolding project_identity
  project_identity-Ties user account merchant w =
      let p : UserProfile = record {
        id = user;
        identity_issuer = i.issuer;
        identity_subject = i.subject;
        email = i.email;
        display_name = i.display_name;
        merchant_id = merchant;
      } in
      Post-bind _ _ (exec internal (upsert_profile p)) (λ _. exec internal (insert_balance account))
        w (other-Ties (upsert_profile p) w (upsert_profile-Ties p w.store))
        (λ _ w1 t1.
          Post-weaken _ _ _
            (other-Ties (insert_balance account) w1 (insert_balance-Ties account w1.store))
            (λ _ u t2. Ties-trans w.store w1.store u t1 t2))

  finish_identity-Tied :
      (user account ledger : String) (w : World)
      → HasAccount i user account w.store
      → Post (Tied i) (finish_identity i user account ledger w)
  unfolding finish_identity
  finish_identity-Tied user account ledger w h =
      Post-bind _ _ (initialize_merchant i account) _ w (initialize_merchant-Post i account w)
        (λ merchant w1 (us, as', found, asked).
          let r : Initialized = record {
            user_id = user;
            account_id = account;
            ledger_id = ledger;
            merchant_id = merchant;
          } in
          let h1 = HasAccount-tables user account w.store w1.store us as' h in
          let tied : Tied i r w1.store = record {
            user = h1.user_found.found;
            account = h1.account_found;
            merchant = found;
            requested = asked;
          } in
          Post-bind _ _ (project_identity i user account merchant) _ w1
            (project_identity-Ties user account merchant w1)
            (λ _ w2 same.
              Post-bind _ _ (exec internal (query (λ s. row tt))) (λ _. pure r) w2
                (query-same internal (λ s. row tt) w2)
                (λ _ w3 e. Post-done _ r w3 (Tied-Ties r w1.store w3.store (rw e same) tied))))

  -- The rows of the ledger leave the account alone.
  ledger-Tied :
      (user account : String) (w : World)
      → HasAccount i user account w.store
      → Post (Tied i) (
          (new_id "ledger_" >>= λ id.
          exec internal (insert_ledger_account id account)
          >> (exec internal (query (find_ledger account)) >>= λ ledger.
              finish_identity i user account ledger))
            w)
  ledger-Tied user account w h =
      Post-bind _ _ (new_id "ledger_") _ w (new_id-same "ledger_" w) (λ id w1 s1.
        Post-bind _ _ (exec internal (insert_ledger_account id account)) _ w1
          (other-Ties (insert_ledger_account id account) w1
            (insert_ledger_account-Ties id account w1.store))
          (λ _ w2 t2.
            Post-bind _ _ (exec internal (query (find_ledger account)))
              (finish_identity i user account) w2 (query-same internal (find_ledger account) w2)
              (λ ledger w3 s3.
                let t = Ties-trans w.store w1.store w2.store (Ties-same w.store w1.store s1) t2 in
                let u = Ties-trans w.store w2.store w3.store t (Ties-same w2.store w3.store s3) in
                finish_identity-Tied user account ledger w3
                  (HasAccount-tables user account w.store w3.store u.users u.accounts h))))

  initialize_rows-Tied : (w : World) → Post (Tied i) (initialize_rows i w)
  unfolding initialize_rows
  initialize_rows-Tied w =
      Post-bind (λ _ _. Unit {0}) _ (new_id "usr_") _ w
        (Post-weaken _ _ _ (new_id-same "usr_" w) (λ _ _ _. tt))
        (λ new_user w1 _.
          Post-bind (λ _ _. Unit {0}) _ (exec internal (upsert_user i new_user)) _ w1
            (Post-exec _ internal (upsert_user i new_user) w1 (λ _ _ _. tt))
            (λ _ w2 _.
              Post-bind _ _ (exec internal (query (find_user i))) _ w2
                (query-row internal (find_user i) w2)
                (λ user w3 (s3, found).
                  Post-bind _ _ (new_id "acct_") _ w3 (new_id-same "acct_" w3) (λ new_account w4 s4.
                    Post-bind (λ _ t. t.users ≡ w4.store.users) _
                      (exec internal (insert_account new_account user)) _ w4
                      (Post-exec _ internal (insert_account new_account user) w4 (λ _ t e.
                        rw (← (ap (λ x. x.1) e)) (insert_account-users new_account user w4.store)))
                      (λ _ w5 us5.
                        Post-bind _ _ (exec internal (query (find_account user))) _ w5
                          (query-row internal (find_account user) w5)
                          (λ account w6 (s6, held). ledger-Tied user account w6 (record {
                            user_found =
                                HasUser-users user w2.store w6.store
                                  (ap (λ s. s.users) s6 ∙ us5 ∙ ap (λ s. s.users) (s4 ∙ s3))
                                  (record { found = found });
                            account_found =
                                find_account-accounts user w5.store w6.store
                                  (ap (λ s. s.accounts) s6)
                                ∙ held;
                          })))))))

passed : {A : Type 0} (o : Outcome A × World) → Post (λ _ _. Unit {0}) o
passed (done a, w') = Post-done _ a w' tt
passed (reply e, w') = Post-reply _ e w'

body-Tied : (i : Identity) (w : World) → Post (Tied i) ((check_requested i >> initialize_rows i) w)
body-Tied i w =
    Post-bind (λ _ _. Unit {0}) _ (check_requested i) (λ _. initialize_rows i) w
      (passed (check_requested i w)) (λ _ w' _. initialize_rows-Tied i w')

-- An initialization that goes through leaves the user of the identity, the user's account and the
-- account's default Merchant, which are what it returns; where a Merchant was requested, it is that.
pub initialize_identity-Tied : (i : Identity) (w : World) → Post (Tied i) (initialize_identity i w)
unfolding initialize_identity
initialize_identity-Tied i w =
    Post-bind (λ _ _. Unit {0}) _
      (reply_if (is_blank i.issuer || is_blank i.subject || is_blank i.display_name) internal) _ w
      (passed
        (reply_if (is_blank i.issuer || is_blank i.subject || is_blank i.display_name) internal w))
      (λ _ w1 _.
        Post-transaction (Tied i) (check_requested i >> initialize_rows i) w1
          (λ w2 same. body-Tied i w2))

-- An initialization that does not go through leaves the database as it was, or, where the answer of the
-- commit is lost, as one that goes through.
pub initialize_identity-IsAtomic :
    (i : Identity) (w : World)
    → IsAtomic (λ t. (r : Initialized) × Tied i r t) w.store (initialize_identity i w)
unfolding initialize_identity
initialize_identity-IsAtomic i w =
    let body : M Initialized = check_requested i >> initialize_rows i in
    let L : Store → Type 0 = λ t. (r : Initialized) × Tied i r t in
    IsAtomic-bind L
      (reply_if (is_blank i.issuer || is_blank i.subject || is_blank i.display_name) internal)
      (λ _. transaction body) w w.store
      (reply_if-Reads (is_blank i.issuer || is_blank i.subject || is_blank i.display_name) internal
        w)
      (λ _ w1 e. rw (← e) (
        transaction-IsAtomic L body w1
          (λ w2 same. Post-weaken _ (Tied i) (body w2) (body-Tied i w2) (λ r t tied. (r, tied)))))
