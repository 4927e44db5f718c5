-- ===== src/Targets/OfferTests.antt =====
-- resolveCall and cheapestTargets (internal/gizway/protocol.go) at concrete inputs.
use Prim.Native.String.{String}
use gizway.Prelude.{ℕ, suc, true, Option, none, some, List, [], ◌∷◌, ◌≡◌, refl, if◌then◌else◌}
use gizway.Prelude.Order.{compare_lists}
use gizway.Int.{pos, ◌*ℤ◌}
use gizway.Text.{str_eq}
use gizway.Rating.{PriceRow}
use gizway.Targets.{Target, KeyPayment, ResolvedCall, prices_cover_metrics, delete, delete_all}
use gizway.Targets.Sorting.{insert, sort_stable, take_equal, first_equal, filter, is_minimal}
use gizway.Targets.Prices.{compare_texts, compare_rates, sort_prices, compare_prices}
use gizway.Targets.PriceOrder.{IsPrice}
use gizway.Targets.Cheapest.{compare_targets, cheapest_targets, cheapest_targets-eq-minimal}
use gizway.Targets.Resolve.{
  ProviderKey, found, missing, CallStores, resolved, offer, add_key, choose_cheapest, resolve_keys,
  resolve_provider, resolve_call,
}
use gizway.Targets.Offered.{IsResolved, resolve_call-IsResolved}

abbrev price : String → ℕ → ℕ → PriceRow
price metric unit amount = record { metric = metric; unit = pos unit; amount = pos amount }

abbrev key : String → ProviderKey
key id = record { id = id; api_key = "secret"; weight = pos 1; enabled = true; status = "active" }

-- 2 per 1000 and 4 per 2000 are the same price; 3 per 1000 is above it.
abbrev prices : String → List PriceRow
prices id =
    if str_eq id "k1"
    then price "input_tokens" 1000 3 ∷ []
    else if str_eq id "k2"
    then price "input_tokens" 1000 2 ∷ []
    else price "input_tokens" 2000 4 ∷ []

abbrev stores : CallStores
stores = record {
  active_model = λ name.
      if str_eq name "chat"
      then found (record { id = "m"; provider_id = "p"; provider_model = "gpt" })
      else missing;
  customer_prices = λ m. some (price "input_tokens" 1000 5 ∷ []);
  provider = λ p. found (record { kind = "openai"; base_url = "https://api"; status = "active" });
  keys = λ p. some (key "k1" ∷ key "k2" ∷ key "k3" ∷ []);
  billing = λ k. found (record { merchant_id = "merchant"; status = "active" });
  key_prices = λ m k. some (prices k);
}

abbrev target : String → Target
target id = record {
  provider = "openai";
  endpoint = "https://api";
  credential = "secret";
  model = "gpt";
  route_key = id;
  weight = pos 1;
}

abbrev payments : String → Option KeyPayment
payments id = some (record { merchant_id = "merchant"; prices = prices id })

two_cheapest :
    cheapest_targets (target "k1" ∷ target "k2" ∷ target "k3" ∷ []) payments
    ≡ target "k2" ∷ target "k3" ∷ []
unfolding cheapest_targets insert sort_stable take_equal first_equal compare_lists compare_texts
    compare_rates sort_prices compare_prices ◌*ℤ◌
two_cheapest = refl

row-IsPrice : (metric : String) (u a : ℕ) → IsPrice (price metric (suc u) a)
row-IsPrice metric u a = record { units = u; cost = a; unit_eq = refl; amount_eq = refl }

cheapest_targets-eq-minimal_example :
    cheapest_targets (target "k1" ∷ target "k2" ∷ target "k3" ∷ []) payments
    ≡ filter
        (is_minimal (compare_targets payments) (target "k1" ∷ target "k2" ∷ target "k3" ∷ []))
        (target "k1" ∷ target "k2" ∷ target "k3" ∷ [])
cheapest_targets-eq-minimal_example =
    cheapest_targets-eq-minimal payments (target "k1" ∷ target "k2" ∷ target "k3" ∷ []) (
      (row-IsPrice "input_tokens" 999 3, tt),
      ((row-IsPrice "input_tokens" 999 2, tt), ((row-IsPrice "input_tokens" 1999 4, tt), tt)),
    )

abbrev call : ResolvedCall
call = record {
  product_id = "product";
  model_id = "m";
  public_model = "chat";
  provider_id = "p";
  provider_model = "gpt";
  account_id = "";
  subscription_id = "";
  subscription_key_id = "";
  owner_issuer = "";
  owner_subject = "";
  customer_prices = price "input_tokens" 1000 5 ∷ [];
  started_at = pos 7;
  targets = target "k2" ∷ target "k3" ∷ [];
  payments = λ id.
      if str_eq id "k3"
      then some (record { merchant_id = "merchant"; prices = prices "k3" })
      else if str_eq id "k2"
      then some (record { merchant_id = "merchant"; prices = prices "k2" })
      else if str_eq id "k1"
      then some (record { merchant_id = "merchant"; prices = prices "k1" })
      else none;
  key_id = "";
  merchant_id = "";
  target = none;
  commission_prices = [];
}

call_resolved : resolve_call stores (pos 7) "chat" "product" ≡ resolved call
unfolding resolve_call resolve_provider resolve_keys choose_cheapest add_key offer
    prices_cover_metrics delete delete_all cheapest_targets insert sort_stable take_equal
    first_equal compare_lists compare_texts compare_rates sort_prices compare_prices ◌*ℤ◌
call_resolved = refl

resolve_call-IsResolved_example : IsResolved stores (pos 7) "chat" "product" call
resolve_call-IsResolved_example =
    resolve_call-IsResolved stores (pos 7) "chat" "product" call call_resolved
