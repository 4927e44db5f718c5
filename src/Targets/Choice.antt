-- ===== src/Targets/Choice.antt =====
-- Which Provider Keys may serve a call (pricesCoverMetrics, internal/gizway/protocol.go).
use Prim.Native.String.{String}
use gizway.Prelude.{
  Bool, true, false, ◌||◌, some, List, [], ◌∷◌, map, any, ◌≡◌, ◌↔◌, inl, inr, refl, All, Bool-cases,
}
use gizway.Text.{str_eq, str_eq_iff}
use gizway.Rating.{PriceRow}
use gizway.Targets.{
  Target, KeyPayment, ResolvedCall, selection, with_target, select_from, selected, delete,
  delete_all, is_empty, prices_cover_metrics,
}

-- The metric has a price.
abbrev pub is_priced : List PriceRow → String → Bool
is_priced prices metric = any (λ p. str_eq metric p.metric) prices

-- Deleting keeps the metrics that are left to price.
All-delete :
    (prices : List PriceRow) (metric : String) (ms : List String)
    → All (λ m. is_priced prices m ≡ true) (delete metric ms)
      ↔ All (λ m. (str_eq m metric || is_priced prices m) ≡ true) ms
unfolding delete
All-delete prices metric [] = (λ h. h, λ h. h)
All-delete prices metric (m ∷ ms) =
    let (there, back) = All-delete prices metric ms in
    elim (Bool-cases (str_eq m metric)) [
      | inl same ↦ rw same (λ h. (refl, there h), λ h. back h.1)
      | inr other ↦ rw other (λ h. (h.0, there h.1), λ h. (h.0, back h.1))
    ]

delete_all_iff :
    (prices : List PriceRow) (ms : List String)
    → (is_empty (delete_all prices ms) ≡ true) ↔ All (λ m. is_priced prices m ≡ true) ms
unfolding delete_all
delete_all_iff [] [] = (λ h. tt, λ h. refl)
delete_all_iff [] (m ∷ ms) = (λ h. absurd (cc), λ h. absurd (cc (h.0)))
delete_all_iff (p ∷ ps) ms =
    let (there, back) = delete_all_iff ps (delete p.metric ms) in
    let (down, up) = All-delete ps p.metric ms in (λ h. down (there h), λ h. back (up h))

-- A Provider Key's prices cover the customer's prices exactly if the customer has a price at all and
-- the metric of each is priced by the key.
pub prices_cover_metrics_iff :
    (provider customer : List PriceRow)
    → (prices_cover_metrics provider customer ≡ true) ↔ (
        (is_empty (map (λ p. p.metric) customer) ≡ false)
        × All (λ m. is_priced provider m ≡ true) (map (λ p. p.metric) customer))
unfolding prices_cover_metrics
prices_cover_metrics_iff provider customer =
    let (there, back) = delete_all_iff provider (map (λ p. p.metric) customer) in
    elim (Bool-cases (is_empty (map (λ p. p.metric) customer))) [
      | inl none_there ↦ rw none_there (λ h. absurd (cc), λ h. absurd (cc (h.0)))
      | inr some_there ↦ rw some_there (λ h. (refl, there h), λ h. back h.1)
    ]

select_from-any :
    (key : String) (payment : KeyPayment) (ts : List Target) (call : ResolvedCall)
    → any (λ t. str_eq t.route_key key) ts ≡ true
    → (t : Target) × (t.route_key ≡ key)
      × (select_from key payment ts call ≡ selection (with_target key payment t call))
unfolding select_from
select_from-any key payment [] call h = absurd (cc)
select_from-any key payment (t ∷ ts) call h = elim (Bool-cases (str_eq t.route_key key)) [
  | inl here ↦ (t, (str_eq_iff t.route_key key).0 here, rw here refl)
  | inr there ↦
      let (u, same, rest) = select_from-any key payment ts call (rw there at h) in
      (u, same, rw there rest)
]

-- A Provider Key that has a payment and a target in the call is selected: the call gets the key, a
-- target of that key, and the Merchant and the prices of the key's payment.
pub selected-any :
    (key : String) (payment : KeyPayment) (call : ResolvedCall)
    → call.payments key ≡ some payment
    → any (λ t. str_eq t.route_key key) call.targets ≡ true
    → (t : Target) × (t.route_key ≡ key)
      × (selected key call ≡ selection (with_target key payment t call))
unfolding selected
selected-any key payment call paid h =
    let (t, same, result) = select_from-any key payment call.targets call h in
    (t, same, rw (paid, selected) result)
