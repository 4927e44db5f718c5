-- ===== src/Targets/Resolve.antt =====
-- The resolution of a model name to the Provider Keys that may serve a call (resolveCall,
-- internal/gizway/protocol.go). The queries, of the database and of the stores of Bifrost, are
-- parameters.
use Prim.Native.String.{String}
use gizway.Prelude.{Bool, not, ◌||◌, Option, none, some, List, [], ◌∷◌, ◌++◌, if◌then◌else◌}
use gizway.Int.{ℤ}
use gizway.Text.{str_eq}
use gizway.Rating.{PriceRow}
use gizway.Targets.{Target, KeyPayment, ResolvedCall, prices_cover_metrics}
use gizway.Targets.Cheapest.{cheapest_targets}

-- The columns of an active model.
pub record ModelRow : Type 0 where
  pub id : String
  pub provider_id : String
  pub provider_model : String

pub record ProviderRow : Type 0 where
  pub kind : String
  pub base_url : String
  pub status : String

pub record ProviderKey : Type 0 where
  pub id : String
  pub api_key : String
  pub weight : ℤ
  pub enabled : Bool
  pub status : String

pub record BillingRow : Type 0 where
  pub merchant_id : String
  pub status : String

-- A query of one row.
pub data Lookup (A : Type 0) : Type 0 where
  found : A → Lookup A
  missing broken : Lookup A

-- What the queries return; a list query returns none where it fails.
pub record CallStores : Type 0 where
  pub active_model : String → Lookup ModelRow
  pub customer_prices : String → Option (List PriceRow)
  pub provider : String → Lookup ProviderRow
  pub keys : String → Option (List ProviderKey)
  pub billing : String → Lookup BillingRow
  pub key_prices : String → String → Option (List PriceRow)

pub data Resolution : Type 0 where
  resolved : ResolvedCall → Resolution
  no_target : ResolvedCall → Resolution
  failed : ResolvedCall → Resolution

abbrev pub new_call : ℤ → String → String → ResolvedCall
new_call now model product = record {
  product_id = product;
  model_id = "";
  public_model = model;
  provider_id = "";
  provider_model = "";
  account_id = "";
  subscription_id = "";
  subscription_key_id = "";
  owner_issuer = "";
  owner_subject = "";
  customer_prices = [];
  started_at = now;
  targets = [];
  payments = λ k. none;
  key_id = "";
  merchant_id = "";
  target = none;
  commission_prices = [];
}

abbrev pub target_of : ProviderRow → ProviderKey → String → Target
target_of provider key model = record {
  provider = provider.kind;
  endpoint = provider.base_url;
  credential = key.api_key;
  model = model;
  route_key = key.id;
  weight = key.weight;
}

abbrev pub with_offer : ProviderRow → ProviderKey → KeyPayment → ResolvedCall → ResolvedCall
with_offer provider key payment call = record call {
  targets = call.targets ++ (target_of provider key call.provider_model ∷ []);
  payments = λ k. if str_eq k key.id then some payment else call.payments k;
}

-- The test of the billing row; a query that fails counts as a missing row.
abbrev pub billed : Lookup BillingRow → Option String
billed (found b) = if str_eq b.status "active" then some b.merchant_id else none
billed missing = none
billed broken = none

-- One round of the loop, after the query of the prices.
unfoldable pub offer :
    ProviderRow → ProviderKey → String → List PriceRow → ResolvedCall → ResolvedCall
offer provider key merchant prices call =
    if prices_cover_metrics prices call.customer_prices
    then with_offer provider key (record { merchant_id = merchant; prices = prices }) call
    else call

-- One round of the loop; it returns none where the query of the prices fails.
unfoldable pub add_key : CallStores → ProviderRow → ProviderKey → ResolvedCall → Option ResolvedCall
unfolding offer
add_key s provider key call =
    if not key.enabled || not (str_eq key.status "active")
    then some call
    else elim (billed (s.billing key.id)) [
      | none ↦ some call
      | some merchant ↦ elim (s.key_prices call.model_id key.id) [
        | none ↦ none
        | some prices ↦ some (offer provider key merchant prices call)
      ]
    ]

-- What follows the loop.
unfoldable pub choose_cheapest : ResolvedCall → Resolution
choose_cheapest call = elim call.targets [
  | [] ↦ no_target call
  | t ∷ ts ↦ resolved (record call { targets = cheapest_targets (t ∷ ts) call.payments })
]

unfoldable pub resolve_keys :
    CallStores → ProviderRow → List ProviderKey → ResolvedCall → Resolution
unfolding add_key choose_cheapest
resolve_keys s provider [] call = choose_cheapest call
resolve_keys s provider (key ∷ keys) call = elim (add_key s provider key call) [
  | none ↦ failed call
  | some next ↦ resolve_keys s provider keys next
]

abbrev pub is_serving : Lookup ProviderRow → Option ProviderRow
is_serving (found p) = if str_eq p.status "active" then some p else none
is_serving missing = none
is_serving broken = none

unfoldable pub resolve_provider : CallStores → ResolvedCall → Resolution
unfolding resolve_keys
resolve_provider s call = elim (is_serving (s.provider call.provider_id)) [
  | none ↦ no_target call
  | some provider ↦ elim (s.keys call.provider_id) [
    | none ↦ failed call
    | some keys ↦ resolve_keys s provider keys call
  ]
]

abbrev pub with_model : ModelRow → ResolvedCall → ResolvedCall
with_model m call = record call {
  model_id = m.id;
  provider_id = m.provider_id;
  provider_model = m.provider_model;
}

unfoldable pub resolve_call : CallStores → ℤ → String → String → Resolution
unfolding resolve_provider
resolve_call s now model product =
    let call = new_call now model product in
    elim (s.active_model model) [
      | missing ↦ no_target call
      | broken ↦ failed call
      | found m ↦ elim (s.customer_prices m.id) [
        | none ↦ failed (with_model m call)
        | some prices ↦ resolve_provider s (record (with_model m call) { customer_prices = prices })
      ]
    ]
