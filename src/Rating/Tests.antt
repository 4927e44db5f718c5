-- ===== src/Rating/Tests.antt =====
-- ceilMulDiv and rate (internal/gizway/protocol.go) at concrete inputs.

use gizway.Prelude.{◌^◌, ◌*◌, ◌-◌, ◌+◌, min, List, [], ◌∷◌, ◌≡◌, refl, arith, All}
use gizway.Int.{pos}
use gizway.Rating.{PriceRow, Usage, units_of, ceil_mul_div, rate, rated}
use gizway.Rating.Ceil.{ceil_div, ceil_mul_div-eq-min-ceil_div, ceil_mul_div-Wraps}
use gizway.Rating.Saturation.{IsRated, IsRateable, total_cost, rate-eq-total_cost}

ceil_mul_div-eq-min-ceil_div_example :
    ceil_mul_div (pos 7) (pos 3) (pos 2) ≡ pos (min (ceil_div (7 * 3) 2) (2 ^ 63 - 1))
ceil_mul_div-eq-min-ceil_div_example =
    ceil_mul_div-eq-min-ceil_div 7 3 2 (omega arith) (omega arith) (omega arith) (omega arith)
      (λ h. omega arith)

-- (2 ^ 33 - 1) * (2 ^ 33 + 1) / 4 rounds up to 2 ^ 64.
ceil_mul_div-Wraps_example :
    (ceil_div ((2 ^ 33 - 1) * (2 ^ 33 + 1)) 4 ≡ 2 ^ 64)
    × (ceil_mul_div (pos (2 ^ 33 - 1)) (pos (2 ^ 33 + 1)) (pos 4) ≡ pos 0)
ceil_mul_div-Wraps_example =
    ceil_mul_div-Wraps (2 ^ 33 - 1) (2 ^ 33 + 1) 4 (omega arith) (omega arith) (omega arith)
      (omega arith) (omega arith, omega arith)

abbrev usage : Usage
usage = record { prompt_tokens = pos 10; completion_tokens = pos 5 }

abbrev prices : List PriceRow
prices =
    record { metric = "input_tokens"; unit = pos 3; amount = pos 7 }
    ∷ record { metric = "output_tokens"; unit = pos 1; amount = pos 2 }
    ∷ []

ten_are-IsRateable :
    IsRateable (record { metric = "input_tokens"; unit = pos 3; amount = pos 7 }) (pos 10)
ten_are-IsRateable = record {
  unit_in = omega arith;
  amount_in = omega arith;
  units_in = omega arith;
  no_wrap = λ h. omega arith;
}

five_are-IsRateable :
    IsRateable (record { metric = "output_tokens"; unit = pos 1; amount = pos 2 }) (pos 5)
five_are-IsRateable = record {
  unit_in = omega arith;
  amount_in = omega arith;
  units_in = omega arith;
  no_wrap = λ h. omega arith;
}

prices-IsRated : All (IsRated usage) prices
unfolding units_of
prices-IsRated = ((pos 10, refl, ten_are-IsRateable), ((pos 5, refl, five_are-IsRateable), tt))

rate-eq-total_cost_example :
    rate usage prices ≡ rated (pos (min (total_cost usage prices) (2 ^ 63 - 1)))
rate-eq-total_cost_example = rate-eq-total_cost usage prices prices-IsRated
