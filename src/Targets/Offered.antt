-- ===== src/Targets/Offered.antt =====
-- What resolveCall (internal/gizway/protocol.go) finds.
use Prim.Native.String.{String}
use gizway.Text.{str_eq, str_eq_iff}
use gizway.Prelude.{
  some_injective, ap, Bool-cases, none, some, List, [], ◌≡◌, refl, inl, inr, ◌⊎◌, Option-cases,
}
use gizway.Int.{ℤ}
use gizway.Rating.{PriceRow}
use gizway.Targets.{ResolvedCall}
use gizway.Targets.Resolve.{
  ModelRow, ProviderRow, ProviderKey, Lookup, found, missing, broken, CallStores, resolved,
  new_call, is_serving, resolve_provider, with_model, resolve_call,
}
use gizway.Targets.Offers.{IsChosen, resolve_keys-IsChosen}

-- What the stores say of a call that is resolved, and what becomes of them in it.
pub record IsResolved (s : CallStores) (now : ℤ) (model product : String) (d : ResolvedCall)
    : Type 0 where
  pub row : ModelRow
  pub prices : List PriceRow
  pub provider : ProviderRow
  pub keys : List ProviderKey
  pub model_found : s.active_model model ≡ found row
  pub prices_found : s.customer_prices row.id ≡ some prices
  pub provider_found : s.provider row.provider_id ≡ found provider
  pub provider_active : provider.status ≡ "active"
  pub keys_found : s.keys row.provider_id ≡ some keys
  pub chosen :
      IsChosen s provider keys
        (record (with_model row (new_call now model product)) { customer_prices = prices })
        d

serving :
    {p : ProviderRow} (l : Lookup ProviderRow)
    → is_serving l ≡ some p
    → (l ≡ found p) × (p.status ≡ "active")
serving missing h = absurd (cc)
serving broken h = absurd (cc)
serving {p} (found q) h = elim (Bool-cases (str_eq q.status "active")) [
  | inl active ↦
      let same : q ≡ p = some_injective (rw active at h) in
      (ap found same, rw (← same) ((str_eq_iff q.status "active").0 active))
  | inr idle ↦ absurd (cc (rw idle at h))
]

resolve_provider-IsResolved :
    (s : CallStores) (now : ℤ) (model product : String) (d : ResolvedCall) (row : ModelRow)
    (prices : List PriceRow)
    → s.active_model model ≡ found row
    → s.customer_prices row.id ≡ some prices
    → resolve_provider s
        (record (with_model row (new_call now model product)) { customer_prices = prices })
      ≡ resolved d
    → IsResolved s now model product d
unfolding resolve_provider
resolve_provider-IsResolved s now model product d row prices m p h =
    elim (Option-cases (is_serving (s.provider row.provider_id))) [
      | inl idle ↦ absurd (cc (rw (resolve_provider, idle) at h))
      | inr (provider, serves) ↦ elim (Option-cases (s.keys row.provider_id)) [
        | inl lost ↦ absurd (cc (rw (resolve_provider, serves, lost) at h))
        | inr (keys, listed) ↦ record {
          row = row;
          prices = prices;
          provider = provider;
          keys = keys;
          model_found = m;
          prices_found = p;
          provider_found = (serving (s.provider row.provider_id) serves).0;
          provider_active = (serving (s.provider row.provider_id) serves).1;
          keys_found = listed;
          chosen =
              resolve_keys-IsChosen s provider keys
                (record (with_model row (new_call now model product)) { customer_prices = prices })
                keys [] (λ k. none) d (λ k m. m) tt (rw (resolve_provider, serves, listed) at h);
        }
      ]
    ]

Lookup-cases :
    {A : Type 0} (l : Lookup A) → ((l ≡ missing) ⊎ (l ≡ broken)) ⊎ ((a : A) × (l ≡ found a))
Lookup-cases (found a) = inr (a, refl)
Lookup-cases missing = inl (inl refl)
Lookup-cases broken = inl (inr refl)

-- A call that is resolved is of an active model, with its customer prices, whose provider is active.
-- It has a target at least, and each is an enabled and active key of the provider with an active
-- billing row; the payment of the key is the Merchant and the prices that the tables have for it, and
-- these cover the customer's prices.
pub resolve_call-IsResolved :
    (s : CallStores) (now : ℤ) (model product : String) (d : ResolvedCall)
    → resolve_call s now model product ≡ resolved d
    → IsResolved s now model product d
unfolding resolve_call
resolve_call-IsResolved s now model product d h = elim (Lookup-cases (s.active_model model)) [
  | inl (inl e) ↦ absurd (cc (rw (resolve_call, e) at h))
  | inl (inr e) ↦ absurd (cc (rw (resolve_call, e) at h))
  | inr (row, m) ↦ elim (Option-cases (s.customer_prices row.id)) [
    | inl e ↦ absurd (cc (rw (resolve_call, m, e) at h))
    | inr (prices, p) ↦
        resolve_provider-IsResolved s now model product d row prices m p
          (rw (resolve_call, m, p) at h)
  ]
]
