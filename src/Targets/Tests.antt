-- ===== src/Targets/Tests.antt =====
-- pricesCoverMetrics and resolvedCall.selected (internal/gizway/protocol.go) at concrete inputs.
use Prim.Native.String.{String}
use gizway.Prelude.{
  ℕ, true, false, none, some, List, [], ◌∷◌, map, ◌≡◌, ◌↔◌, refl, All, if◌then◌else◌,
}
use gizway.Int.{pos}
use gizway.Text.{str_eq}
use gizway.Rating.{PriceRow}
use gizway.Targets.{
  Target, KeyPayment, ResolvedCall, selection, with_target, selected, is_empty,
  prices_cover_metrics,
}
use gizway.Targets.Choice.{is_priced, prices_cover_metrics_iff, selected-any}

abbrev price : String → ℕ → PriceRow
price metric amount = record { metric = metric; unit = pos 1000; amount = pos amount }

abbrev provider : List PriceRow
provider = price "output_tokens" 3 ∷ price "input_tokens" 2 ∷ []

abbrev customer : List PriceRow
customer = price "input_tokens" 5 ∷ []

prices_cover_metrics_iff_example : (prices_cover_metrics provider customer ≡ true) ↔ (
    (is_empty (map (λ p. p.metric) customer) ≡ false)
    × All (λ m. is_priced provider m ≡ true) (map (λ p. p.metric) customer))
prices_cover_metrics_iff_example = prices_cover_metrics_iff provider customer

abbrev payment : KeyPayment
payment = record { merchant_id = "m2"; prices = provider }

abbrev target : String → Target
target key = record {
  provider = "openai";
  endpoint = "https://api.example";
  credential = "c";
  model = "a";
  route_key = key;
  weight = pos 1;
}

abbrev call : ResolvedCall
call = record {
  product_id = "p";
  model_id = "m";
  public_model = "chat";
  provider_id = "v";
  provider_model = "a";
  account_id = "";
  subscription_id = "";
  subscription_key_id = "";
  owner_issuer = "";
  owner_subject = "";
  customer_prices = customer;
  started_at = pos 0;
  targets = target "k1" ∷ target "k2" ∷ [];
  payments = λ k. if str_eq k "k2" then some payment else none;
  key_id = "";
  merchant_id = "";
  target = none;
  commission_prices = [];
}

key_selected :
    (t : Target) × (t.route_key ≡ "k2")
    × (selected "k2" call ≡ selection (with_target "k2" payment t call))
key_selected = selected-any "k2" payment call refl refl
