-- ===== src/Targets/Prices.antt =====
-- The comparison of procurement prices (comparePrices, internal/gizway/protocol.go).
use Prim.Native.Nat.{compare, Ordering}
use Prim.Native.String.{String}
use gizway.Prelude.{◌+◌, List}
use gizway.Prelude.Order.{then, compare_lists}
use gizway.Int.{ℤ, pos_part, neg_part, ◌*ℤ◌}
use gizway.Text.{codes}
use gizway.Rating.{PriceRow}
use gizway.Targets.Sorting.{sort_stable}

abbrev pub compare_ℤ : ℤ → ℤ → Ordering
compare_ℤ a b = compare (pos_part a + neg_part b) (pos_part b + neg_part a)

-- strings.Compare: the order of the bytes of UTF-8 is that of the code points.
unfoldable pub compare_texts : String → String → Ordering
compare_texts a b = compare_lists compare (codes a) (codes b)

-- big.Rat.Cmp of the amounts per unit, by the cross products. SetFrac64 panics on a unit of 0; the
-- tables of prices admit positive units only.
unfoldable pub compare_rates : PriceRow → PriceRow → Ordering
compare_rates p q = compare_ℤ (p.amount *ℤ q.unit) (q.amount *ℤ p.unit)

abbrev pub compare_metrics : PriceRow → PriceRow → Ordering
compare_metrics p q = compare_texts p.metric q.metric

-- The body of the loop.
abbrev pub compare_rows : PriceRow → PriceRow → Ordering
compare_rows p q = then (compare_metrics p q) (compare_rates p q)

-- sort.Slice by the metric; the metrics of a key are distinct, so there is one result.
unfoldable pub sort_prices : List PriceRow → List PriceRow
sort_prices prices = sort_stable compare_metrics prices

unfoldable pub compare_prices : List PriceRow → List PriceRow → Ordering
unfolding sort_prices
compare_prices left right = compare_lists compare_rows (sort_prices left) (sort_prices right)
