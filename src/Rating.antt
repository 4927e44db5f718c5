-- ===== src/Rating.antt =====
-- internal/gizway/protocol.go: the rating of AI usage (priceRow, rate, ratedUsage, ceilMulDiv).
pub mod Ceil
pub mod Saturation
mod Tests
use Prim.Native.String.{String}
use gizway.Prelude.{
  ℕ, ◌+◌, ◌-◌, ◌*◌, ◌/◌, ◌%◌, ◌^◌, Bool, ◌&&◌, Option, none, some, List, [], ◌∷◌, ltb, leb, ◌==◌,
  if◌then◌else◌,
}
use gizway.Int.{ℤ, pos, ltb_ℤ}
use gizway.Int64.{max_int64, pattern64, signed64, add64, sub64}
use gizway.Text.{str_eq}

pub record PriceRow : Type 0 where
  pub metric : String
  pub unit : ℤ
  pub amount : ℤ

-- The token counts that the code reads of Bifrost's usage record.
pub record Usage : Type 0 where
  pub prompt_tokens : ℤ
  pub completion_tokens : ℤ

-- `&schemas.BifrostLLMUsage{}`
abbrev pub no_usage : Usage
no_usage = record { prompt_tokens = pos 0; completion_tokens = pos 0 }

-- bits.Mul64: the high and the low word of a product of two words.
abbrev pub mul_words : ℕ → ℕ → ℕ × ℕ
mul_words a b = (a * b / 2 ^ 64, a * b % 2 ^ 64)

-- bits.Div64 of a double word by a divisor above its high word.
abbrev pub div_words : ℕ → ℕ → ℕ → ℕ × ℕ
div_words hi lo d = ((hi * 2 ^ 64 + lo) / d, (hi * 2 ^ 64 + lo) % d)

-- The last three statements of ceilMulDiv, on the words of uint64.
unfoldable pub round_up : ℕ → ℕ → ℤ
round_up quotient remainder =
    let q = if remainder == 0 then quotient else (quotient + 1) % 2 ^ 64 in
    if ltb (2 ^ 63 - 1) q then max_int64 else signed64 q

unfoldable pub ceil_mul_div : ℤ → ℤ → ℤ → ℤ
unfolding round_up
ceil_mul_div left right divisor =
    let (hi, lo) = mul_words (pattern64 left) (pattern64 right) in
    let d = pattern64 divisor in
    let (quotient, remainder) = div_words hi lo d in
    if leb d hi then max_int64 else round_up quotient remainder

-- The result of a rating; the error names the metric.
pub data Rated {ℓ} (A : Type ℓ) : Type ℓ where
  rated : A → Rated A
  unsupported : String → Rated A

-- The `switch` of rate: the counter that a metric reads.
unfoldable pub units_of : Usage → String → Option ℤ
units_of usage metric =
    if str_eq metric "input_tokens"
    then some usage.prompt_tokens
    else if str_eq metric "output_tokens"
    then some usage.completion_tokens
    else none

-- `price.Unit > 0 && units > 0 && price.Amount > 0`
unfoldable pub is_billable : PriceRow → ℤ → Bool
is_billable price units =
    ltb_ℤ (pos 0) price.unit && ltb_ℤ (pos 0) units && ltb_ℤ (pos 0) price.amount

-- The loop of rate from a total on.
unfoldable pub rate_from : Usage → ℤ → List PriceRow → Rated ℤ
rate_from usage total [] = rated total
rate_from usage total (price ∷ prices) = elim (units_of usage price.metric) [
  | none ↦ unsupported price.metric
  | some units ↦
      let component = ceil_mul_div units price.amount price.unit in
      let skipped = rate_from usage total prices in
      let added = rate_from usage (add64 total component) prices in
      if is_billable price units
      then (if ltb_ℤ (sub64 max_int64 total) component then rated max_int64 else added)
      else skipped
]

unfoldable pub rate : Usage → List PriceRow → Rated ℤ
rate usage prices = rate_from usage (pos 0) prices

-- Gross and commission of one usage.
unfoldable pub rated_usage : Option Usage → List PriceRow → List PriceRow → Rated (ℤ × ℤ)
rated_usage usage customer provider =
    let u : Usage = elim usage [ none ↦ no_usage | some u ↦ u ] in
    elim (rate u customer) [
      | unsupported metric ↦ unsupported metric
      | rated gross ↦ elim (rate u provider) [
        | unsupported metric ↦ unsupported metric
        | rated commission ↦ rated (gross, commission)
      ]
    ]
