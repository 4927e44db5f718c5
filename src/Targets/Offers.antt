-- ===== src/Targets/Offers.antt =====
-- What the loop of resolveCall (internal/gizway/protocol.go) adds to a call.
use Prim.Native.String.{String}
use gizway.Prelude.{
  some_injective, IsIn, true, false, not, ◌||◌, Option, some, List, [], ◌∷◌, ◌++◌, All, ◌≡◌, refl,
  ap, inl, inr, Bool-cases, Option-cases, arith, if◌then◌else◌, subst,
}
use gizway.Text.{str_eq, str_eq_iff}
use gizway.Targets.{Target, KeyPayment, ResolvedCall, prices_cover_metrics}
use gizway.Targets.Cheapest.{All-cheapest_targets, cheapest_targets-filled}
use gizway.Targets.Resolve.{
  Lookup, found, missing, broken, BillingRow, ProviderRow, ProviderKey, CallStores, resolved,
  target_of, billed, offer, add_key, choose_cheapest, resolve_keys,
}

-- There is a billing row, which is active, with the Merchant.
pub record IsBilled (l : Lookup BillingRow) (merchant : String) : Type 0 where
  pub row : BillingRow
  pub is_found : l ≡ found row
  pub is_active : row.status ≡ "active"
  pub pays : row.merchant_id ≡ merchant

billed_of :
    {l : Lookup BillingRow} {merchant : String} → IsBilled l merchant → billed l ≡ some merchant
billed_of h = rw (h.is_found, (str_eq_iff h.row.status "active").1 h.is_active) (ap some h.pays)

IsBilled-billed :
    (l : Lookup BillingRow) (merchant : String) → billed l ≡ some merchant → IsBilled l merchant
IsBilled-billed missing merchant h = absurd (cc)
IsBilled-billed broken merchant h = absurd (cc)
IsBilled-billed (found b) merchant h = elim (Bool-cases (str_eq b.status "active")) [
  | inl active ↦ record {
    row = b;
    is_found = refl;
    is_active = (str_eq_iff b.status "active").0 active;
    pays = some_injective (rw active at h);
  }
  | inr idle ↦ absurd (cc (rw idle at h))
]

abbrev Payments : Type 0
Payments = String → Option KeyPayment

module _ (s : CallStores) (provider : ProviderRow) (keys : List ProviderKey) where
  -- A target of the call: an enabled and active key of the provider with an active billing row, whose
  -- prices cover the customer's, and which are what the call pays for the key.
  pub record IsOffer (call : ResolvedCall) (payments : Payments) (t : Target) : Type 0 where
    pub key : ProviderKey
    pub payment : KeyPayment
    pub listed : IsIn key keys
    pub same : t ≡ target_of provider key call.provider_model
    pub enabled : key.enabled ≡ true
    pub active : str_eq key.status "active" ≡ true
    pub billing : IsBilled (s.billing key.id) payment.merchant_id
    pub priced : s.key_prices call.model_id key.id ≡ some payment.prices
    pub covers : prices_cover_metrics payment.prices call.customer_prices ≡ true
    pub paid : payments key.id ≡ some payment

  -- The call of the start, with other targets and payments.
  abbrev with_targets : List Target → Payments → ResolvedCall → ResolvedCall
  with_targets targets payments call = record call { targets = targets; payments = payments }

  payment_eq : (a b : KeyPayment) → a.merchant_id ≡ b.merchant_id → a.prices ≡ b.prices → a ≡ b
  payment_eq a b p q = ground arith

  paid-later :
      (call : ResolvedCall) (payments : Payments) (key other : ProviderKey) (new old : KeyPayment)
      → billed (s.billing key.id) ≡ some new.merchant_id
      → s.key_prices call.model_id key.id ≡ some new.prices
      → billed (s.billing other.id) ≡ some old.merchant_id
      → s.key_prices call.model_id other.id ≡ some old.prices
      → payments other.id ≡ some old
      → (if str_eq other.id key.id then some new else payments other.id) ≡ some old
  paid-later call payments key other new old b p ob op h =
      elim (Bool-cases (str_eq other.id key.id)) [
        | inr differ ↦ rw differ h
        | inl again ↦
            let e = (str_eq_iff other.id key.id).0 again in
            let b' : billed (s.billing other.id) ≡ some new.merchant_id = rw e b in
            let p' : s.key_prices call.model_id other.id ≡ some new.prices = rw e p in
            rw again (ap some (payment_eq new old (cc (b', ob)) (cc (p', op))))
      ]

  IsOffer-later :
      (call : ResolvedCall) (payments : Payments) (key : ProviderKey) (payment : KeyPayment)
      (t : Target)
      → billed (s.billing key.id) ≡ some payment.merchant_id
      → s.key_prices call.model_id key.id ≡ some payment.prices
      → IsOffer call payments t
      → IsOffer call (λ k. if str_eq k key.id then some payment else payments k) t
  IsOffer-later call payments key payment t b p o = record {
    key = o.key;
    payment = o.payment;
    listed = o.listed;
    same = o.same;
    enabled = o.enabled;
    active = o.active;
    billing = o.billing;
    priced = o.priced;
    covers = o.covers;
    paid =
        paid-later call payments key o.key payment o.payment b p (billed_of o.billing) o.priced
          o.paid;
  }

  All-later :
      (call : ResolvedCall) (payments : Payments) (key : ProviderKey) (payment : KeyPayment)
      (ts : List Target)
      → billed (s.billing key.id) ≡ some payment.merchant_id
      → s.key_prices call.model_id key.id ≡ some payment.prices
      → All (IsOffer call payments) ts
      → All (IsOffer call (λ k. if str_eq k key.id then some payment else payments k)) ts
  All-later call payments key payment [] b p os = tt
  All-later call payments key payment (t ∷ ts) b p (o, os) = (
    IsOffer-later call payments key payment t b p o,
    All-later call payments key payment ts b p os,
  )

  All-append :
      (Q : Target → Type 0) (ts : List Target) (t : Target)
      → All Q ts
      → Q t
      → All Q (ts ++ (t ∷ []))
  All-append Q [] t qs q = (q, tt)
  All-append Q (u ∷ ts) t (r, qs) q = (r, All-append Q ts t qs q)

  -- What the resolution leaves of the call, and adds to it.
  pub record IsChosen (call : ResolvedCall) (d : ResolvedCall) : Type 0 where
    pub kept : d ≡ with_targets d.targets d.payments call
    pub first : Target
    pub rest : List Target
    pub filled : d.targets ≡ first ∷ rest
    pub offers : All (IsOffer call d.payments) d.targets

  choose_cheapest-IsChosen :
      (call : ResolvedCall) (ts : List Target) (payments : Payments) (d : ResolvedCall)
      → All (IsOffer call payments) ts
      → choose_cheapest (with_targets ts payments call) ≡ resolved d
      → IsChosen call d
  unfolding choose_cheapest
  choose_cheapest-IsChosen call [] payments d os h = absurd (cc)
  choose_cheapest-IsChosen call (t ∷ ts) payments d os h =
      let (u, us, e) = cheapest_targets-filled payments t ts in
      subst (IsChosen call) (cc (h)) (record {
        kept = refl;
        first = u;
        rest = us;
        filled = e;
        offers = All-cheapest_targets (IsOffer call payments) payments (t ∷ ts) os;
      })

  IsOffer-new :
      (call : ResolvedCall) (payments : Payments) (key : ProviderKey) (payment : KeyPayment)
      → IsIn key keys
      → (not key.enabled || not (str_eq key.status "active")) ≡ false
      → billed (s.billing key.id) ≡ some payment.merchant_id
      → s.key_prices call.model_id key.id ≡ some payment.prices
      → prices_cover_metrics payment.prices call.customer_prices ≡ true
      → IsOffer call
          (λ k. if str_eq k key.id then some payment else payments k)
          (target_of provider key call.provider_model)
  IsOffer-new call payments key payment listed on b p covers = record {
    key = key;
    payment = payment;
    listed = listed;
    same = refl;
    enabled = ground arith;
    active = ground arith;
    billing = IsBilled-billed (s.billing key.id) payment.merchant_id b;
    priced = p;
    covers = covers;
    paid = rw ((str_eq_iff key.id key.id).1 refl) refl;
  }

  pub resolve_keys-IsChosen :
      (call : ResolvedCall) (ks : List ProviderKey) (ts : List Target) (payments : Payments)
      (d : ResolvedCall)
      → ((k : ProviderKey) → IsIn k ks → IsIn k keys)
      → All (IsOffer call payments) ts
      → resolve_keys s provider ks (with_targets ts payments call) ≡ resolved d
      → IsChosen call d
  unfolding resolve_keys
  resolve_keys-IsChosen call [] ts payments d sub os h =
      choose_cheapest-IsChosen call ts payments d os h
  resolve_keys-IsChosen call (key ∷ ks) ts payments d sub os h =
      elim (Bool-cases (not key.enabled || not (str_eq key.status "active"))) [
        | inl off ↦
            resolve_keys-IsChosen call ks ts payments d (λ k m. sub k (inr m)) os
              (rw (resolve_keys, add_key, off) at h)
        | inr on ↦ elim (Option-cases (billed (s.billing key.id))) [
          | inl free ↦
              resolve_keys-IsChosen call ks ts payments d (λ k m. sub k (inr m)) os
                (rw (resolve_keys, add_key, on, free) at h)
          | inr (merchant, b) ↦ elim (Option-cases (s.key_prices call.model_id key.id)) [
            | inl lost ↦ absurd (cc (rw (resolve_keys, add_key, on, b, lost) at h))
            | inr (prices, p) ↦
                elim (Bool-cases (prices_cover_metrics prices call.customer_prices)) [
                  | inr short ↦
                      resolve_keys-IsChosen call ks ts payments d (λ k m. sub k (inr m)) os
                        (rw (resolve_keys, add_key, on, b, p, offer, short) at h)
                  | inl covers ↦
                      let payment : KeyPayment = record {
                        merchant_id = merchant;
                        prices = prices;
                      } in
                      let new =
                        IsOffer-new call payments key payment (sub key (inl refl)) on b p covers in
                      resolve_keys-IsChosen call ks
                        (ts ++ (target_of provider key call.provider_model ∷ []))
                        (λ k. if str_eq k key.id then some payment else payments k) d
                        (λ k m. sub k (inr m))
                        (All-append _ ts _ (All-later call payments key payment ts b p os) new)
                        (rw (resolve_keys, add_key, on, b, p, offer, covers) at h)
                ]
          ]
        ]
      ]
