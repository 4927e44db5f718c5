-- ===== src/Targets.antt =====
-- The choice of a Provider Key (internal/gizway/protocol.go): pricesCoverMetrics and
-- resolvedCall.selected. The children add comparePrices, cheapestTargets and resolveCall.
pub mod Choice
pub mod Sorting
pub mod Minima
pub mod Prices
pub mod PriceOrder
pub mod Cheapest
pub mod Resolve
pub mod Offers
pub mod Offered
mod Tests
mod OfferTests
use Prim.Native.String.{String}
use gizway.Prelude.{
  ℕ, Bool, true, false, not, Option, none, some, List, [], ◌∷◌, map, if◌then◌else◌,
}
use gizway.Int.{ℤ}
use gizway.Text.{str_eq}
use gizway.Rating.{PriceRow}

-- `delete` on a set of metrics.
unfoldable pub delete : String → List String → List String
delete metric [] = []
delete metric (m ∷ ms) = let rest = delete metric ms in if str_eq m metric then rest else m ∷ rest

unfoldable pub delete_all : List PriceRow → List String → List String
delete_all [] missing = missing
delete_all (price ∷ prices) missing = delete_all prices (delete price.metric missing)

abbrev pub is_empty : List String → Bool
is_empty [] = true
is_empty (m ∷ ms) = false

-- The set `missing` is a list of metrics; a metric that stands in it twice is deleted twice.
unfoldable pub prices_cover_metrics : List PriceRow → List PriceRow → Bool
prices_cover_metrics provider customer =
    let missing = map (λ p. p.metric) customer in
    if is_empty missing then false else is_empty (delete_all provider missing)

-- store.ProviderExecutionTarget
pub record Target : Type 0 where
  pub provider : String
  pub endpoint : String
  pub credential : String
  pub model : String
  pub route_key : String
  pub weight : ℤ

pub record KeyPayment : Type 0 where
  pub merchant_id : String
  pub prices : List PriceRow

pub record ResolvedCall : Type 0 where
  pub product_id : String
  pub model_id : String
  pub public_model : String
  pub provider_id : String
  pub provider_model : String
  pub account_id : String
  pub subscription_id : String
  pub subscription_key_id : String
  pub owner_issuer : String
  pub owner_subject : String
  pub customer_prices : List PriceRow
  pub started_at : ℤ
  pub targets : List Target
  pub payments : String → Option KeyPayment
  pub key_id : String
  pub merchant_id : String
  pub target : Option Target
  pub commission_prices : List PriceRow

pub data Selection : Type 0 where
  selection : ResolvedCall → Selection
  unknown_key : String → Selection
  missing_target : String → Selection

abbrev pub with_target : String → KeyPayment → Target → ResolvedCall → ResolvedCall
with_target key_id payment target call = record call {
  key_id = key_id;
  merchant_id = payment.merchant_id;
  target = some target;
  commission_prices = payment.prices;
}

unfoldable pub select_from : String → KeyPayment → List Target → ResolvedCall → Selection
select_from key_id payment [] call = missing_target key_id
select_from key_id payment (t ∷ ts) call =
    let rest = select_from key_id payment ts call in
    if str_eq t.route_key key_id then selection (with_target key_id payment t call) else rest

unfoldable pub selected : String → ResolvedCall → Selection
selected key_id call = elim (call.payments key_id) [
  | none ↦ unknown_key key_id
  | some payment ↦ select_from key_id payment call.targets call
]
