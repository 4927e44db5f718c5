-- ===== src/Gizpay/Charge/Validation/Laws.antt =====
-- The commissions that createCharge accepts (internal/gizpay/handler.go): the loop with int64
-- arithmetic against the exact sum.
use Prim.Native.String.{String}
use gizway.Prelude.{
  Bool, false, ◌||◌, List, [], ◌∷◌, any, ◌≡◌, ◌↔◌, sym, ap, ◌∙◌, arith, All, if◌then◌else◌,
}
use gizway.Int.{ℤ, pos, ◌+ℤ◌, ◌-ℤ◌, ◌≤ℤ◌, ltb_ℤ, int_laws, +ℤ-zero, zero-+ℤ, +ℤ_assoc}
use gizway.Int64.{IsInt64, add64, sub64}
use gizway.Int64.Laws.{add64-eq-+ℤ, sub64-eq--ℤ}
use gizway.Text.{str_eq, is_blank}
use gizway.Gizpay.Charge.Validation.{
  CommissionRequest, Check, pass, reject, check_from, check_commissions,
}

abbrev pub amount_sum : List CommissionRequest → ℤ
amount_sum [] = pos 0
amount_sum (c ∷ cs) = c.amount +ℤ amount_sum cs

-- Every Merchant is named, and every amount at least 0.
abbrev pub IsStated : List CommissionRequest → Type 0
IsStated = All (λ c. (is_blank c.merchant_id ≡ false) × (pos 0 ≤ℤ c.amount))

-- No Merchant is among the seen ones or comes twice.
abbrev pub IsDistinct : List String → List CommissionRequest → Type 0
IsDistinct seen [] = Unit
IsDistinct seen (c ∷ cs) =
    (any (str_eq c.merchant_id) seen ≡ false) × IsDistinct (c.merchant_id ∷ seen) cs

pub amount_sum_nonneg : (cs : List CommissionRequest) → IsStated cs → pos 0 ≤ℤ amount_sum cs
amount_sum_nonneg [] h = omega arith
amount_sum_nonneg (c ∷ cs) ((_, h), hs) =
    let rest : pos 0 ≤ℤ amount_sum cs = amount_sum_nonneg cs hs in omega int_laws

-- The Boolean chain of the loop's body.
chain_pass :
    (a b c d : Bool) (x y z : String) (r : Check ℤ) (n : ℤ)
    → (if a || b then reject x else if c then reject y else if d then reject z else r) ≡ pass n
    → (a ≡ false) × (b ≡ false) × (c ≡ false) × (d ≡ false) × (r ≡ pass n)
chain_pass a b c d x y z r n h = ground arith

module _ (gross : ℤ) (range : IsInt64 gross) where
  check_from-pass :
      (seen : List String) (s n : ℤ) (cs : List CommissionRequest)
      → pos 0 ≤ℤ s
      → s ≤ℤ gross
      → check_from gross seen s cs ≡ pass n
      → IsStated cs × IsDistinct seen cs × (n ≡ s +ℤ amount_sum cs) × (n ≤ℤ gross)
  unfolding check_from
  check_from-pass seen s n [] h k e =
      let same : s ≡ n = ground arith in (tt, tt, sym same ∙ sym (+ℤ-zero s), rw (← same) k)
  check_from-pass seen s n (c ∷ cs) h k e =
      let (named, amount, new, small, rest) =
        chain_pass (is_blank c.merchant_id) (ltb_ℤ c.amount (pos 0))
          (any (str_eq c.merchant_id) seen) (ltb_ℤ (sub64 gross s) c.amount) _ _ _
          (check_from gross (c.merchant_id ∷ seen) (add64 s c.amount) cs) n e in
      let nonneg : pos 0 ≤ℤ c.amount = ground arith in
      let gap : sub64 gross s ≡ gross -ℤ s = sub64-eq--ℤ gross s (omega int_laws, omega int_laws) in
      let small' : ltb_ℤ (gross -ℤ s) c.amount ≡ false = rw (← gap) small in
      let room : c.amount ≤ℤ (gross -ℤ s) = ground arith in
      let fits : s +ℤ c.amount ≤ℤ gross = omega int_laws in
      let add : add64 s c.amount ≡ s +ℤ c.amount =
        add64-eq-+ℤ s c.amount (omega int_laws, omega int_laws) in
      let (stated, distinct, total, bound) =
        check_from-pass (c.merchant_id ∷ seen) (s +ℤ c.amount) n cs (omega int_laws) fits
          (rw (← add) rest) in
      (
        ((named, nonneg), stated),
        (new, distinct),
        total ∙ +ℤ_assoc s c.amount (amount_sum cs),
        bound,
      )

  pass_check_from :
      (seen : List String) (s : ℤ) (cs : List CommissionRequest)
      → pos 0 ≤ℤ s
      → IsStated cs
      → IsDistinct seen cs
      → s +ℤ amount_sum cs ≤ℤ gross
      → check_from gross seen s cs ≡ pass (s +ℤ amount_sum cs)
  unfolding check_from
  pass_check_from seen s [] h st di b = ap pass (sym (+ℤ-zero s))
  pass_check_from seen s (c ∷ cs) h ((named, nonneg), st) (new, di) b =
      let more : pos 0 ≤ℤ amount_sum cs = amount_sum_nonneg cs st in
      let fits : s +ℤ c.amount ≤ℤ gross = omega int_laws in
      let gap : sub64 gross s ≡ gross -ℤ s = sub64-eq--ℤ gross s (omega int_laws, omega int_laws) in
      let room : c.amount ≤ℤ (gross -ℤ s) = omega int_laws in
      let small : ltb_ℤ (gross -ℤ s) c.amount ≡ false = ground arith in
      let sign : ltb_ℤ c.amount (pos 0) ≡ false = ground arith in
      let add : add64 s c.amount ≡ s +ℤ c.amount =
        add64-eq-+ℤ s c.amount (omega int_laws, omega int_laws) in
      let total : s +ℤ c.amount +ℤ amount_sum cs ≡ s +ℤ amount_sum (c ∷ cs) =
        +ℤ_assoc s c.amount (amount_sum cs) in
      rw (named, sign, new, gap, small, add)
        (pass_check_from (c.merchant_id ∷ seen) (s +ℤ c.amount) cs (omega int_laws) st di
            (rw total b)
          ∙ ap pass total)

-- The loop over the commissions of a charge accepts exactly the lists in which every Merchant is
-- named and comes once, every amount is at least 0 and the exact sum is at most the gross amount;
-- and the sum that it returns is the exact one.
pub check_commissions_iff :
    (gross n : ℤ) (cs : List CommissionRequest)
    → IsInt64 gross
    → pos 0 ≤ℤ gross
    → (check_commissions gross cs ≡ pass n)
      ↔ (IsStated cs × IsDistinct [] cs × (amount_sum cs ≤ℤ gross) × (n ≡ amount_sum cs))
unfolding check_commissions
check_commissions_iff gross n cs range nonneg = (
  λ h.
      let (st, di, total, bound) =
        check_from-pass gross range [] (pos 0) n cs (omega arith) nonneg h in
      let exact : n ≡ amount_sum cs = total ∙ zero-+ℤ (amount_sum cs) in
      (st, di, rw (← exact) bound, exact),
  λ h.
      let (st, di, bound, exact) = h in
      pass_check_from gross range [] (pos 0) cs (omega arith) st di
        (rw (zero-+ℤ (amount_sum cs)) bound)
      ∙ ap pass (zero-+ℤ (amount_sum cs) ∙ sym exact),
)
