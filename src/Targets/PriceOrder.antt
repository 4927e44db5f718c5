-- ===== src/Targets/PriceOrder.antt =====
-- comparePrices (internal/gizway/protocol.go) is an order of price lists.
use Prim.Native.Nat.{compare, Ordering}
use Prim.Native.Nat.Ordering.{lt, eq}
use native.Mathlib.Nat.{mul-lt-mul_of_pos_right, lt_of_mul-lt-mul_right}
use gizway.Prelude.{ℕ, suc, ◌+◌, ◌*◌, ◌<◌, List, [], ◌∷◌, All, ◌≡◌, ap, sym, ◌∙◌, arith}
use gizway.Prelude.Order.{flip, IsOrder, compare-IsOrder, compare_lists-IsOrder, then-IsOrder}
use gizway.Int.{pos, pos_part, neg_part, ◌*ℤ◌, *ℤ-pos}
use gizway.Text.{codes}
use gizway.Rating.{PriceRow}
use gizway.Targets.Sorting.{All-sort_stable}
use gizway.Targets.Prices.{
  compare_texts, compare_rates, compare_metrics, compare_rows, sort_prices, compare_prices,
}

-- A row that the tables of prices admit.
pub record IsPrice (p : PriceRow) : Type 0 where
  pub units : ℕ
  pub cost : ℕ
  pub unit_eq : p.unit ≡ pos (suc units)
  pub amount_eq : p.amount ≡ pos cost

abbrev compare_fractions : ℕ → ℕ → ℕ → ℕ → Ordering
compare_fractions a u b v = compare (a * suc v) (b * suc u)

compare_rates_lem :
    (p q : PriceRow) (x : IsPrice p) (y : IsPrice q)
    → compare_rates p q ≡ compare_fractions x.cost x.units y.cost y.units
unfolding compare_rates
compare_rates_lem p q x y =
    rw
      (
        x.unit_eq,
        x.amount_eq,
        y.unit_eq,
        y.amount_eq,
        *ℤ-pos x.cost (suc y.units),
        *ℤ-pos y.cost (suc x.units),
      )
      (ground arith)

lt_of_compare : (a b : ℕ) → compare a b ≡ lt → a < b
lt_of_compare a b h = ground arith

compare_of_lt : (a b : ℕ) → a < b → compare a b ≡ lt
compare_of_lt a b h = ground arith

eq_of_compare : (a b : ℕ) → compare a b ≡ eq → a ≡ b
eq_of_compare a b h = ground arith

swap_rates : (p q : PriceRow) → compare_rates q p ≡ flip (compare_rates p q)
unfolding compare_rates
swap_rates p q =
    compare-IsOrder.swap (pos_part (p.amount *ℤ q.unit) + neg_part (q.amount *ℤ p.unit))
      (pos_part (q.amount *ℤ p.unit) + neg_part (p.amount *ℤ q.unit))

fractions_lt :
    (a u b v c w : ℕ) → a * suc v < b * suc u → b * suc w < c * suc v → a * suc w < c * suc u
fractions_lt a u b v c w h k =
    let h1 : a * suc v * suc w < b * suc u * suc w = mul-lt-mul_of_pos_right h (omega arith) in
    let k1 : b * suc w * suc u < c * suc v * suc u = mul-lt-mul_of_pos_right k (omega arith) in
    lt_of_mul-lt-mul_right (suc v) (grind arith)

compare_scale : (k x y : ℕ) → compare (x * suc k) (y * suc k) ≡ compare x y
compare_scale k x y = ground (
  arith,
  λ (h : x < y). mul-lt-mul_of_pos_right {k = suc k} h (omega arith),
  λ (h : y < x). mul-lt-mul_of_pos_right {k = suc k} h (omega arith),
)

fractions_eq :
    (a u b v c w : ℕ)
    → a * suc v ≡ b * suc u
    → compare (a * suc w) (c * suc u) ≡ compare (b * suc w) (c * suc v)
fractions_eq a u b v c w h =
    let scaled : a * suc v * suc w ≡ b * suc u * suc w = ap (λ x. x * suc w) h in
    let left : a * suc w * suc v ≡ b * suc w * suc u = grind arith in
    let right : c * suc u * suc v ≡ c * suc v * suc u = grind arith in
    sym (compare_scale v (a * suc w) (c * suc u))
    ∙ ap (λ x. compare x (c * suc u * suc v)) left
    ∙ ap (λ x. compare (b * suc w * suc u) x) right
    ∙ compare_scale u (b * suc w) (c * suc v)

rates-IsOrder : IsOrder IsPrice compare_rates
rates-IsOrder = record {
  swap = λ p q. swap_rates p q;
  lt_trans = λ p q r x y z h k.
      let h1 = lt_of_compare _ _ (sym (compare_rates_lem p q x y) ∙ h) in
      let k1 = lt_of_compare _ _ (sym (compare_rates_lem q r y z) ∙ k) in
      compare_rates_lem p r x z
      ∙ compare_of_lt _ _ (fractions_lt x.cost x.units y.cost y.units z.cost z.units h1 k1);
  eq_same = λ p q r x y z h.
      let h1 = eq_of_compare _ _ (sym (compare_rates_lem p q x y) ∙ h) in
      compare_rates_lem p r x z
      ∙ fractions_eq x.cost x.units y.cost y.units z.cost z.units h1
      ∙ sym (compare_rates_lem q r y z);
}

All-of_codes : (cs : List ℕ) → All {0, 0} (λ n. Unit) cs
All-of_codes [] = tt
All-of_codes (c ∷ cs) = (tt, All-of_codes cs)

metrics-IsOrder : IsOrder IsPrice compare_metrics
unfolding compare_texts
metrics-IsOrder =
    let o = compare_lists-IsOrder {0, 0} (λ n. Unit) compare compare-IsOrder in
    let all = λ (p : PriceRow). All-of_codes (codes p.metric) in
    record {
      swap = λ p q. o.swap (codes p.metric) (codes q.metric);
      lt_trans = λ p q r x y z.
          o.lt_trans (codes p.metric) (codes q.metric) (codes r.metric) (all p) (all q) (all r);
      eq_same = λ p q r x y z.
          o.eq_same (codes p.metric) (codes q.metric) (codes r.metric) (all p) (all q) (all r);
    }

rows-IsOrder : IsOrder IsPrice compare_rows
rows-IsOrder = then-IsOrder IsPrice compare_metrics metrics-IsOrder compare_rates rates-IsOrder

-- On the rows that the tables of prices admit, comparePrices is a total preorder of price lists.
pub prices-IsOrder : IsOrder (All IsPrice) compare_prices
unfolding compare_prices sort_prices
prices-IsOrder =
    let o = compare_lists-IsOrder IsPrice compare_rows rows-IsOrder in
    let all = All-sort_stable compare_metrics IsPrice in
    record {
      swap = λ l r. o.swap (sort_prices l) (sort_prices r);
      lt_trans = λ l r s p q t.
          o.lt_trans (sort_prices l) (sort_prices r) (sort_prices s) (all l p) (all r q) (all s t);
      eq_same = λ l r s p q t.
          o.eq_same (sort_prices l) (sort_prices r) (sort_prices s) (all l p) (all r q) (all s t);
    }
