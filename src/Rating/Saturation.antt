-- ===== src/Rating/Saturation.antt =====
-- rate (internal/gizway/protocol.go) against the sum of the exact ceilings, and its bounds.
use native.Mathlib.Nat.{zero-add}
use gizway.Prelude.{
  ℕ, ◌+◌, ◌-◌, ◌*◌, ◌^◌, ◌≤◌, min, ◌≡◌, ap, ◌∙◌, arith, true, false, Bool-cases, inl, inr, none,
  some, List, [], ◌∷◌, All, ◌&&◌, if◌then◌else◌,
}
use gizway.Int.{ℤ, pos, negsuc, pos_part, ltb_ℤ, ◌≤ℤ◌, int_laws, ◌-ℤ◌}
use gizway.Int64.{max_int64, sub64, add64}
use gizway.Int64.Laws.{add64-pos, sub64-eq--ℤ}
use gizway.Rating.{
  PriceRow, Usage, Rated, rated, ceil_mul_div, units_of, is_billable, rate_from, rate,
}
use gizway.Rating.Ceil.{ceil_div, Wraps, ceil_mul_div-eq-min-ceil_div}

-- What one price row costs: the ceiling of units * amount / unit, and 0 where a factor is not
-- positive.
pub cost_of : PriceRow → ℤ → ℕ
cost_of price units =
    if is_billable price units
    then ceil_div (pos_part units * pos_part price.amount) (pos_part price.unit)
    else 0

abbrev pub cost : Usage → PriceRow → ℕ
cost usage price = elim (units_of usage price.metric) [ none ↦ 0 | some u ↦ cost_of price u ]

abbrev pub total_cost : Usage → List PriceRow → ℕ
total_cost usage [] = 0
total_cost usage (price ∷ prices) = cost usage price + total_cost usage prices

-- int64 fields, and a product outside the class where the rounding wraps around.
pub record IsRateable (price : PriceRow) (units : ℤ) : Type 0 where
  pub unit_in : price.unit ≤ℤ max_int64
  pub amount_in : price.amount ≤ℤ max_int64
  pub units_in : units ≤ℤ max_int64
  pub no_wrap : ¬ Wraps (pos_part units * pos_part price.amount) (pos_part price.unit)

-- The metric is known and the row is rateable.
abbrev pub IsRated : Usage → PriceRow → Type 0
IsRated usage price = (u : ℤ) × (units_of usage price.metric ≡ some u) × IsRateable price u

-- `math.MaxInt64 - total`
room : (t : ℕ) → t ≤ 2 ^ 63 - 1 → sub64 max_int64 (pos t) ≡ pos (2 ^ 63 - 1 - t)
room t h =
    let e : max_int64 -ℤ pos t ≡ pos (2 ^ 63 - 1 - t) = omega int_laws in
    sub64-eq--ℤ max_int64 (pos t) (rw e (omega arith)) ∙ e

-- ceilMulDiv on signed fields that the loop has found positive.
ceil_on :
    (u a d : ℤ)
    → ltb_ℤ (pos 0) d && ltb_ℤ (pos 0) u && ltb_ℤ (pos 0) a ≡ true
    → u ≤ℤ max_int64
    → a ≤ℤ max_int64
    → d ≤ℤ max_int64
    → ¬ Wraps (pos_part u * pos_part a) (pos_part d)
    → ceil_mul_div u a d ≡ pos (min (ceil_div (pos_part u * pos_part a) (pos_part d)) (2 ^ 63 - 1))
ceil_on (pos u) (pos a) (pos d) h hu ha hd w =
    ceil_mul_div-eq-min-ceil_div u a d (omega arith) (omega arith) (omega arith) (ground arith) w
ceil_on (negsuc u) a d h hu ha hd w = absurd (ground arith)
ceil_on (pos u) (negsuc a) d h hu ha hd w = absurd (ground arith)
ceil_on (pos u) (pos a) (negsuc d) h hu ha hd w = absurd (ground arith)

component :
    (price : PriceRow) (units : ℤ)
    → IsRateable price units
    → is_billable price units ≡ true
    → ceil_mul_div units price.amount price.unit ≡ pos (min (cost_of price units) (2 ^ 63 - 1))
unfolding cost_of
component price units ok billable = rw billable (
    ceil_on units price.amount price.unit (unfold is_billable in billable) ok.units_in ok.amount_in
      ok.unit_in ok.no_wrap)

-- One round of the loop, when the row is billed: it stops at MaxInt64 or goes on.
add_component :
    (t c rest : ℕ) (k : ℤ → Rated ℤ)
    → t ≤ 2 ^ 63 - 1
    → ((t' : ℕ) → t' ≤ 2 ^ 63 - 1 → k (pos t') ≡ rated (pos (min (t' + rest) (2 ^ 63 - 1))))
    → (if ltb_ℤ (sub64 max_int64 (pos t)) (pos (min c (2 ^ 63 - 1)))
        then rated max_int64
        else k (add64 (pos t) (pos (min c (2 ^ 63 - 1)))))
      ≡ rated (pos (min (t + (c + rest)) (2 ^ 63 - 1)))
add_component t c rest k h ih =
    let m = min c (2 ^ 63 - 1) in rw (room t h) (ground (arith, add64-pos t m, ih (t + m)))

cost_of_skipped : (price : PriceRow) (u : ℤ) → is_billable price u ≡ false → cost_of price u ≡ 0
unfolding cost_of
cost_of_skipped price u h = rw h

-- The loop from a total on.
rate_from-eq-min :
    (usage : Usage) (t : ℕ) (prices : List PriceRow)
    → t ≤ 2 ^ 63 - 1
    → All (IsRated usage) prices
    → rate_from usage (pos t) prices ≡ rated (pos (min (t + total_cost usage prices) (2 ^ 63 - 1)))
unfolding rate_from
rate_from-eq-min usage t [] h all = ground arith
rate_from-eq-min usage t (price ∷ prices) h ((u, known, ok), rest) =
    let same : cost_of price u ≡ cost usage price = rw (known, cost) in
    let body : rate_from usage (pos t) (price ∷ prices)
        ≡ rated (pos (min (t + (cost_of price u + total_cost usage prices)) (2 ^ 63 - 1))) =
      rw (known, rate_from)
        (elim (Bool-cases (is_billable price u)) [
          | inl billed ↦
              rw (billed, component price u ok billed)
                (add_component t (cost_of price u) (total_cost usage prices)
                  (λ total. rate_from usage total prices) h
                  (λ t' h'. rate_from-eq-min usage t' prices h' rest))
          | inr skipped ↦
              let free : cost_of price u ≡ 0 = cost_of_skipped price u skipped in
              rw (skipped, free, zero-add) (rate_from-eq-min usage t prices h rest)
        ]) in
    body ∙ ap (λ c. rated (pos (min (t + (c + total_cost usage prices)) (2 ^ 63 - 1)))) same

-- On usage whose metrics are known, whose fields are int64 values and whose products lie outside
-- the class Wraps, rate returns the exact sum of the rounded-up costs, cut off at MaxInt64.
pub rate-eq-total_cost :
    (usage : Usage) (prices : List PriceRow)
    → All (IsRated usage) prices
    → rate usage prices ≡ rated (pos (min (total_cost usage prices) (2 ^ 63 - 1)))
unfolding rate
rate-eq-total_cost usage prices h = rw zero-add at (rate_from-eq-min usage 0 prices (omega arith) h)
