-- ===== src/Gizpay/Fee.antt =====
-- platformFee (internal/gizpay/handler.go) against the exact ceiling of gross * bps / 10000.

use gizway.Prelude.{ℕ, ◌+◌, ◌*◌, ◌/◌, ◌%◌, ◌^◌, ◌≤◌, ◌<◌, ◌≡◌, arith, ap, refl}
use gizway.Int.{ℤ, pos}
use gizway.Int64.{add64, mul64, quot64, rem64}
use gizway.Int64.Laws.{add64-pos, mul64-pos}

unfoldable pub platform_fee : ℤ → ℤ → ℤ
platform_fee gross basis_points =
    let whole = mul64 (quot64 gross 10000) basis_points in
    let remainder = mul64 (rem64 gross 10000) basis_points in
    add64 whole (quot64 (add64 remainder (pos 9999)) 10000)

-- The fee in exact arithmetic, rounded up.
abbrev pub fee_of : ℕ → ℕ → ℕ
fee_of gross bps = (gross * bps + 9999) / 10000

pub fee_of-le : (g b : ℕ) → b ≤ 10000 → fee_of g b ≤ g
fee_of-le g b h = let bound : g * b ≤ g * 10000 = grind arith in omega arith

mul_le_both : (r b : ℕ) → r ≤ 9999 → b ≤ 10000 → r * b ≤ 9999 * 10000
mul_le_both r b h k = let first : r * b ≤ 9999 * b = grind arith in omega arith

split_product : (g b : ℕ) → g * b ≡ 10000 * (g / 10000 * b) + g % 10000 * b
split_product g b =
    let e : g ≡ 10000 * (g / 10000) + g % 10000 = omega arith in
    omega (arith, ap (λ (t : ℕ). t * b) e)

-- For every gross amount of an int64 and every configurable rate, up to 10000 basis points, no
-- step of platformFee overflows: it is the exact fee rounded up, and at most the gross amount.
pub platform_fee-eq-fee_of :
    (g b : ℕ)
    → g < 2 ^ 63
    → b ≤ 10000
    → (platform_fee (pos g) (pos b) ≡ pos (fee_of g b)) × (fee_of g b ≤ g)
unfolding platform_fee
platform_fee-eq-fee_of g b hg hb =
    let q = g / 10000 in
    let r = g % 10000 in
    let whole : q * b ≤ q * 10000 = grind arith in
    let part : r * b ≤ 9999 * 10000 = grind (arith, mul_le_both r b) in
    let split : g * b ≡ 10000 * (q * b) + r * b = split_product g b in
    let e : fee_of g b ≡ q * b + (r * b + 9999) / 10000 = omega arith in
    let small : fee_of g b ≤ g = fee_of-le g b hb in
    (
      rw
          (
            mul64-pos q b (omega arith),
            mul64-pos r b (omega arith),
            add64-pos (r * b) 9999 (omega arith),
            add64-pos (q * b) ((r * b + 9999) / 10000) (omega arith),
            e,
          )
          refl,
      small,
    )
