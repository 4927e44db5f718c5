-- ===== src/Rating/Ceil.antt =====
-- ceilMulDiv (internal/gizway/protocol.go) against the mathematical ceiling.
use native.Mathlib.Nat.{div-add-mod, mod-lt, le-div_iff_mul-le, div-eq_of_lt-le, div-lt_iff_lt-mul}
use gizway.Prelude.{
  ℕ, ◌+◌, ◌-◌, ◌*◌, ◌/◌, ◌%◌, ◌^◌, ◌≤◌, ◌<◌, min, ◌≡◌, ◌≢◌, arith, leb, ltb, ltb→lt, leb→le, ap,
  ◌⊎◌, false, Bool-cases, inl, inr, if◌then◌else◌,
}
use gizway.Int.{pos}
use gizway.Int64.{max_int64}
use gizway.Rating.{ceil_mul_div, round_up}

-- The quotient rounded up.
abbrev pub ceil_div : ℕ → ℕ → ℕ
ceil_div n d = (n + d - 1) / d

-- The class of inputs at which the rounded quotient is 2 ^ 64 and the increment wraps around.
abbrev pub Wraps : ℕ → ℕ → Type 0
Wraps n d = ((2 ^ 64 - 1) * d < n) × (n < 2 ^ 64 * d)

ceil_div_exact : (q d : ℕ) → 0 < d → ceil_div (d * q) d ≡ q
ceil_div_exact q d h = div-eq_of_lt-le d (grind arith) (grind arith)

ceil_div_up : (q r d : ℕ) → 0 < r → r < d → ceil_div (d * q + r) d ≡ q + 1
ceil_div_up q r d h k = div-eq_of_lt-le d (grind arith) (grind arith)

-- round_up on the quotient and the remainder of n by d.
round_up_zero : (q : ℕ) → q < 2 ^ 64 → round_up q 0 ≡ pos (min q (2 ^ 63 - 1))
unfolding round_up
round_up_zero q h = ground arith

round_up_more : (q r : ℕ) → 0 < r → q + 1 < 2 ^ 64 → round_up q r ≡ pos (min (q + 1) (2 ^ 63 - 1))
unfolding round_up
round_up_more q r h k = ground arith

round_up_wraps : (q r : ℕ) → 0 < r → q + 1 ≡ 2 ^ 64 → round_up q r ≡ pos 0
unfolding round_up
round_up_wraps q r h k = ground arith

-- Below 2 ^ 64 times the divisor the routine is round_up, on the exact quotient and remainder.
ceil_mul_div_words :
    (l r d : ℕ)
    → l < 2 ^ 63
    → r < 2 ^ 63
    → d < 2 ^ 63
    → ceil_mul_div (pos l) (pos r) (pos d)
      ≡ (if leb d (l * r / 2 ^ 64) then max_int64 else round_up (l * r / d) (l * r % d))
unfolding ceil_mul_div
ceil_mul_div_words l r d hl hr hd =
    let el : l % 2 ^ 64 ≡ l = omega arith in
    let er : r % 2 ^ 64 ≡ r = omega arith in
    let ed : d % 2 ^ 64 ≡ d = omega arith in
    let en : l * r / 2 ^ 64 * 2 ^ 64 + l * r % 2 ^ 64 ≡ l * r = omega arith in
    rw (ceil_mul_div, el, er, ed, en)

-- The product divided, in the three cases of the routine.
module _ (n d : ℕ) (positive : 0 < d) where
  quotient_big : d ≤ n / 2 ^ 64 → 2 ^ 64 ≤ n / d
  quotient_big h = (le-div_iff_mul-le positive).1 (grind arith)

  ceil_div_split :
      ((n % d ≡ 0) × (ceil_div n d ≡ n / d)) ⊎ ((0 < n % d) × (ceil_div n d ≡ n / d + 1))
  ceil_div_split = elim (Bool-cases (ltb 0 (n % d))) [
    | inl some_left ↦
        let p : 0 < n % d = ltb→lt 0 (n % d) some_left in
        inr (p, rw div-add-mod at (ceil_div_up (n / d) (n % d) d p (mod-lt n positive)))
    | inr nothing_left ↦
        let e : n % d ≡ 0 = ground arith in
        let whole : d * (n / d) ≡ n = omega (arith, div-add-mod n d) in
        inl (e, rw whole at (ceil_div_exact (n / d) d positive))
  ]

  ceil_div_big : d ≤ n / 2 ^ 64 → 2 ^ 63 - 1 ≤ ceil_div n d
  ceil_div_big h = omega (arith, quotient_big h, ceil_div_split)

  quotient_small : n / 2 ^ 64 < d → n / d < 2 ^ 64
  quotient_small h = (div-lt_iff_lt-mul positive).1 (grind arith)

  Wraps-of_top : n / 2 ^ 64 < d → 0 < n % d → n / d + 1 ≡ 2 ^ 64 → Wraps n d
  Wraps-of_top h p e =
      let top : n / d ≡ 2 ^ 64 - 1 = omega arith in
      let parts : d * (2 ^ 64 - 1) + n % d ≡ n = rw top at (div-add-mod n d) in
      (omega arith, omega arith)

  top_of_Wraps : Wraps n d → (n / 2 ^ 64 < d) × (n / d ≡ 2 ^ 64 - 1) × (0 < n % d)
  top_of_Wraps w =
      let top : n / d ≡ 2 ^ 64 - 1 = div-eq_of_lt-le d (omega arith) (omega arith) in
      let parts : d * (2 ^ 64 - 1) + n % d ≡ n = rw top at (div-add-mod n d) in
      (omega arith, top, omega arith)

  round_up-min :
      n / 2 ^ 64 < d
      → ¬ Wraps n d
      → round_up (n / d) (n % d) ≡ pos (min (ceil_div n d) (2 ^ 63 - 1))
  round_up-min h outside = elim ceil_div_split [
    | inl (e, c) ↦ rw (e, c) (round_up_zero (n / d) (quotient_small h))
    | inr (p, c) ↦
        let below : n / d + 1 ≢ 2 ^ 64 = λ e. outside (Wraps-of_top h p e) in
        rw c (round_up_more (n / d) (n % d) p (omega (arith, quotient_small h)))
  ]

-- ceilMulDiv is the exact ceiling of left * right / divisor, cut off at MaxInt64, on all
-- non-negative int64 arguments with a positive divisor, outside the class Wraps.
pub ceil_mul_div-eq-min-ceil_div :
    (l r d : ℕ)
    → l < 2 ^ 63
    → r < 2 ^ 63
    → d < 2 ^ 63
    → 0 < d
    → ¬ Wraps (l * r) d
    → ceil_mul_div (pos l) (pos r) (pos d) ≡ pos (min (ceil_div (l * r) d) (2 ^ 63 - 1))
ceil_mul_div-eq-min-ceil_div l r d hl hr hd positive h =
    rw (ceil_mul_div_words l r d hl hr hd) (elim (Bool-cases (leb d (l * r / 2 ^ 64))) [
      | inl big ↦ rw big (ap pos (omega (arith, ceil_div_big (l * r) d positive (leb→le _ _ big))))
      | inr small ↦ rw small (round_up-min (l * r) d positive (ground arith) h)
    ])

-- In the class Wraps, where the ceiling is 2 ^ 64, the result is 0.
pub ceil_mul_div-Wraps :
    (l r d : ℕ)
    → l < 2 ^ 63
    → r < 2 ^ 63
    → d < 2 ^ 63
    → 0 < d
    → Wraps (l * r) d
    → (ceil_div (l * r) d ≡ 2 ^ 64) × (ceil_mul_div (pos l) (pos r) (pos d) ≡ pos 0)
ceil_mul_div-Wraps l r d hl hr hd positive w =
    let (h, top, p) = top_of_Wraps (l * r) d positive w in
    let small : leb d (l * r / 2 ^ 64) ≡ false = ground arith in
    (
      omega (arith, ceil_div_split (l * r) d positive),
      rw (ceil_mul_div_words l r d hl hr hd, small)
          (round_up_wraps (l * r / d) (l * r % d) p (omega arith)),
    )
