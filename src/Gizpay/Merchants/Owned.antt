-- ===== src/Gizpay/Merchants/Owned.antt =====
-- A PATCH of what another user owns (merchantResource, merchantProducts, productResource and
-- subscriptionResource, internal/gizpay/handler.go).
use Prim.Native.String.{String}
use gizway.Prelude.{Option, true, ◌&&◌, any, both, any-IsIn, IsIn, inl, inr, ◌≡◌, refl}
use gizway.Text.{str_eq, str_eq_iff}
use gizway.Gizpay.Store.{Store, Account, Merchant, Product, Subscription}
use gizway.Gizpay.Request.{
  M, World, Outcome, done, reply, ◌>>=◌, Response, Sql, row, no_rows, exec, query, not_found,
}
use gizway.Gizpay.Triple.{Post, Post-weaken}
use gizway.Gizpay.Keeps.{Keeps, Keeps-exec_query}
use gizway.Gizpay.Charge.Reading.{query-row, select-cases}
use gizway.Gizpay.Charge.Once.{Never}
use gizway.Gizpay.Subscribe.{find_owned, patch_owned, patch_subscription}
use gizway.Gizpay.Merchants.{
  owns_account, owns_merchant, find_own_merchant, find_own_product, Patch, patch_own_merchant,
  patch_merchant, ProductRequest, create_own_product, create_product, patch_own_product,
  patch_product,
}

-- An error, and the store as before.
pub record IsRefused {A : Type 0} (w : World) (o : Outcome A × World) : Type 0 where
  pub error : Response
  pub answer : o.0 ≡ reply error
  pub same : o.1.store ≡ w.store

module _ {A : Type 0} (w : World) where
  IsRefused-from :
      (o : Outcome A × World) → Post Never o → Keeps (λ s. s ≡ w.store) o → IsRefused w o
  IsRefused-from (done a, w') p h = absurd p.cases
  IsRefused-from (reply e, w') p h = record { error = e; answer = refl; same = h.holds }

  query-IsRefused :
      (e : Response) (f : Store → Sql A) → f w.store ≡ no_rows → IsRefused w (exec e (query f) w)
  query-IsRefused e f h =
      IsRefused-from (exec e (query f) w)
        (Post-weaken Never (λ a t. (t ≡ w.store) × (f w.store ≡ row a)) _ (query-row e f w)
          (λ a t (_, g). absurd (cc)))
        (Keeps-exec_query (λ s. s ≡ w.store) e f w refl)

  module _ {B : Type 0} (k : A → M B) where
    bound :
        (o : Outcome A × World)
        → IsRefused w o
        → IsRefused {A = B} w (elim o.0 [ done a ↦ k a o.1 | reply e ↦ (reply e, o.1) ])
    bound (done a, w') h = absurd (let clash = h.answer in cc)
    bound (reply e, w') h = record { error = e; answer = refl; same = h.same }

    no_rows-IsRefused :
        (e : Response) (f : Store → Sql A)
        → f w.store ≡ no_rows
        → IsRefused w ((exec e (query f) >>= k) w)
    no_rows-IsRefused e f h = bound (exec e (query f) w) (query-IsRefused e f h)

-- A request that names what it changes by an ID: a PATCH of a Merchant, a POST of a product of a
-- Merchant, a PATCH of a product, and a PATCH of a subscription.
pub data OwnedCall : Type 0 where
  patches_merchant : String → Option Patch → OwnedCall
  creates_product : String → Option ProductRequest → OwnedCall
  patches_product : String → Option Patch → OwnedCall
  patches_subscription : String → Option String → OwnedCall

abbrev pub serve : String → OwnedCall → M Response
serve user (patches_merchant id request) = patch_merchant user id request
serve user (creates_product merchant_id request) = create_product user merchant_id request
serve user (patches_product id request) = patch_product user id request
serve user (patches_subscription id status) = patch_subscription user id status

-- The user has the account; a Merchant that is settled to it, a product of such a Merchant, or a
-- subscription of the account is the user's.
abbrev pub OwnsAccount : String → String → Store → Type 0
OwnsAccount user account s =
    (a : Account) × IsIn a s.accounts × (a.id ≡ account) × (a.owner_user_id ≡ user)

abbrev pub OwnsMerchant : String → String → Store → Type 0
OwnsMerchant user id s =
    (m : Merchant) × IsIn m s.merchants × (m.id ≡ id) × OwnsAccount user m.settlement_account_id s

abbrev pub OwnsProduct : String → String → Store → Type 0
OwnsProduct user id s =
    (p : Product) × IsIn p s.products × (p.id ≡ id) × OwnsMerchant user p.merchant_id s

abbrev pub OwnsSubscription : String → String → Store → Type 0
OwnsSubscription user id s =
    (r : Subscription) × IsIn r s.subscriptions × (r.id ≡ id) × OwnsAccount user r.account_id s

-- What the request names is the user's.
abbrev pub Owns : String → OwnedCall → Store → Type 0
Owns user (patches_merchant id request) s = OwnsMerchant user id s
Owns user (creates_product merchant_id request) s = OwnsMerchant user merchant_id s
Owns user (patches_product id request) s = OwnsProduct user id s
Owns user (patches_subscription id status) s = OwnsSubscription user id s

module _ (user : String) (s : Store) where
  OwnsAccount-any :
      (account : String)
      → any (λ a. str_eq a.id account && str_eq a.owner_user_id user) s.accounts ≡ true
      → OwnsAccount user account s
  OwnsAccount-any account h =
      let (a, there, up) =
        any-IsIn (λ a. str_eq a.id account && str_eq a.owner_user_id user) s.accounts h in
      let (same, own) = both (str_eq a.id account) _ up in
      (a, there, (str_eq_iff a.id account).0 same, (str_eq_iff a.owner_user_id user).0 own)

  merchant-none : (id : String) → ¬ OwnsMerchant user id s → find_own_merchant user id s ≡ no_rows
  unfolding find_own_merchant
  merchant-none id no_one =
      elim (select-cases (λ m. str_eq m.id id && owns_account user m.settlement_account_id s)
        (λ m. m) s.merchants) [
          | inl e ↦ e
          | inr (m, there, up, _) ↦
              let (same, own) = both (str_eq m.id id) _ up in
              absurd (
                no_one (
                  m,
                  there,
                  (str_eq_iff m.id id).0 same,
                  OwnsAccount-any m.settlement_account_id own,
                ))
        ]

  product-none : (id : String) → ¬ OwnsProduct user id s → find_own_product user id s ≡ no_rows
  unfolding find_own_product
  product-none id no_one =
      elim (select-cases (λ p. str_eq p.id id && owns_merchant user p.merchant_id s) (λ p. p)
        s.products) [
          | inl e ↦ e
          | inr (p, there, up, _) ↦
              let (same, own) = both (str_eq p.id id) _ up in
              let (m, listed, settles) =
                any-IsIn
                  (λ m. str_eq m.id p.merchant_id && owns_account user m.settlement_account_id s)
                  s.merchants own in
              let (its, owned) = both (str_eq m.id p.merchant_id) _ settles in
              absurd (
                no_one (
                  p,
                  there,
                  (str_eq_iff p.id id).0 same,
                  (
                    m,
                    listed,
                    (str_eq_iff m.id p.merchant_id).0 its,
                    OwnsAccount-any m.settlement_account_id owned,
                  ),
                ))
        ]

  subscription-none : (id : String) → ¬ OwnsSubscription user id s → find_owned user id s ≡ no_rows
  unfolding find_owned
  subscription-none id no_one =
      elim (select-cases
        (λ r.
          str_eq r.id id
          && any (λ a. str_eq a.id r.account_id && str_eq a.owner_user_id user) s.accounts)
        (λ r. r) s.subscriptions) [
          | inl e ↦ e
          | inr (r, there, up, _) ↦
              let (same, own) = both (str_eq r.id id) _ up in
              absurd
                (no_one (r, there, (str_eq_iff r.id id).0 same, OwnsAccount-any r.account_id own))
        ]

-- A request that names a Merchant, a product or a subscription that is not the user's is refused, and
-- changes nothing, whichever statements fail.
pub IsRefused-serve :
    (user : String) (call : OwnedCall) (w : World)
    → ¬ Owns user call w.store
    → IsRefused w (serve user call w)
unfolding patch_merchant create_product patch_product patch_subscription
IsRefused-serve user (patches_merchant id request) w h =
    no_rows-IsRefused w (patch_own_merchant id request) not_found (find_own_merchant user id)
      (merchant-none user w.store id h)
IsRefused-serve user (creates_product merchant_id request) w h =
    no_rows-IsRefused w (λ m. create_own_product merchant_id request) not_found
      (find_own_merchant user merchant_id) (merchant-none user w.store merchant_id h)
IsRefused-serve user (patches_product id request) w h =
    no_rows-IsRefused w (patch_own_product id request) not_found (find_own_product user id)
      (product-none user w.store id h)
IsRefused-serve user (patches_subscription id status) w h =
    no_rows-IsRefused w (patch_owned id status) not_found (find_owned user id)
      (subscription-none user w.store id h)
