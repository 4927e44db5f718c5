-- ===== src/Targets/Cheapest.antt =====
-- The Provider Keys of the lowest price (cheapestTargets, internal/gizway/protocol.go).
use Prim.Native.Nat.{Ordering}
use Prim.Native.String.{String}
use gizway.Prelude.{
  false, Option, none, some, List, [], ◌∷◌, length, ltb, All, ◌≡◌, refl, arith, inl, inr,
  Bool-cases, if◌then◌else◌,
}
use gizway.Prelude.Order.{IsOrder}
use gizway.Rating.{PriceRow}
use gizway.Targets.{Target, KeyPayment}
use gizway.Targets.Sorting.{
  sort_stable, first_equal, filter, is_minimal, All-cheapest, cheapest-filled,
}
use gizway.Targets.Minima.{first_equal-sort_stable, single_minimal}
use gizway.Targets.Prices.{compare_prices}
use gizway.Targets.PriceOrder.{IsPrice, prices-IsOrder}

-- A key that is not in the map has no prices.
abbrev pub prices_of : (String → Option KeyPayment) → Target → List PriceRow
prices_of payments t = elim (payments t.route_key) [ none ↦ [] | some p ↦ p.prices ]

abbrev pub compare_targets : (String → Option KeyPayment) → Target → Target → Ordering
compare_targets payments t u = compare_prices (prices_of payments t) (prices_of payments u)

unfoldable pub cheapest_targets : List Target → (String → Option KeyPayment) → List Target
cheapest_targets targets payments =
    if ltb (length targets) 2
    then targets
    else first_equal (compare_targets payments) (sort_stable (compare_targets payments) targets)

targets-IsOrder :
    (payments : String → Option KeyPayment)
    → IsOrder (λ t. All IsPrice (prices_of payments t)) (compare_targets payments)
targets-IsOrder payments = record {
  swap = λ t u. prices-IsOrder.swap (prices_of payments t) (prices_of payments u);
  lt_trans = λ t u v.
      prices-IsOrder.lt_trans (prices_of payments t) (prices_of payments u) (prices_of payments v);
  eq_same = λ t u v.
      prices-IsOrder.eq_same (prices_of payments t) (prices_of payments u) (prices_of payments v);
}

-- With prices that the tables admit, the targets left are exactly those than which none is cheaper, in
-- their order: the sort and the cut choose every cheapest target and no other.
pub cheapest_targets-eq-minimal :
    (payments : String → Option KeyPayment) (targets : List Target)
    → All (λ t. All IsPrice (prices_of payments t)) targets
    → cheapest_targets targets payments
      ≡ filter (is_minimal (compare_targets payments) targets) targets
unfolding cheapest_targets
cheapest_targets-eq-minimal payments [] p = refl
cheapest_targets-eq-minimal payments (t ∷ []) p =
    single_minimal (compare_targets payments) (λ t. All IsPrice (prices_of payments t))
      (targets-IsOrder payments) t
cheapest_targets-eq-minimal payments (t ∷ u ∷ ts) p =
    let many : ltb (length (t ∷ u ∷ ts)) 2 ≡ false = ground arith in
    rw many (
      first_equal-sort_stable (compare_targets payments) (λ t. All IsPrice (prices_of payments t))
        (targets-IsOrder payments) (t ∷ u ∷ ts) p)

-- What holds of the targets holds of the cheapest ones.
pub All-cheapest_targets :
    (Q : Target → Type 0) (payments : String → Option KeyPayment) (targets : List Target)
    → All Q targets
    → All Q (cheapest_targets targets payments)
unfolding cheapest_targets
All-cheapest_targets Q payments targets q = elim (Bool-cases (ltb (length targets) 2)) [
  | inl few ↦ rw few q
  | inr many ↦ rw many (All-cheapest (compare_targets payments) Q targets q)
]

pub cheapest_targets-filled :
    (payments : String → Option KeyPayment) (t : Target) (ts : List Target)
    → (u : Target) × (us : List Target) × (cheapest_targets (t ∷ ts) payments ≡ u ∷ us)
unfolding cheapest_targets
cheapest_targets-filled payments t ts = elim (Bool-cases (ltb (length (t ∷ ts)) 2)) [
  | inl few ↦ (t, ts, rw few refl)
  | inr many ↦
      let (u, us, e) = cheapest-filled (compare_targets payments) t ts in (u, us, rw many e)
]
