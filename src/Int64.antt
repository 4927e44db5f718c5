-- ===== src/Int64.antt =====
-- The int64 of Go: an integer, with the wrap-around of every operation written out.
pub mod Laws
use gizway.Prelude.{ℕ, suc, ◌+◌, ◌-◌, ◌*◌, ◌/◌, ◌%◌, ◌^◌, ◌<◌, Bool, ◌&&◌, ltb, if◌then◌else◌}
use gizway.Int.{ℤ, pos, negsuc, ◌+ℤ◌, ◌-ℤ◌, ◌*ℤ◌, ◌≤ℤ◌, leb_ℤ, neg_ℕ}

abbrev pub two63 : ℕ
two63 = 2 ^ 63

abbrev pub two64 : ℕ
two64 = 2 ^ 64

-- math.MaxInt64
abbrev pub max_int64 : ℤ
max_int64 = pos (2 ^ 63 - 1)

-- math.MinInt64
abbrev pub min_int64 : ℤ
min_int64 = negsuc (2 ^ 63 - 1)

abbrev pub IsInt64 : ℤ → Type 0
IsInt64 a = (min_int64 ≤ℤ a) × (a ≤ℤ max_int64)

-- The range test of a BIGINT column, which PostgreSQL makes where Go would wrap around.
abbrev pub fits64 : ℤ → Bool
fits64 a = leb_ℤ min_int64 a && leb_ℤ a max_int64

-- The residue modulo 2 ^ 64: the bit pattern.
abbrev pub pattern64 : ℤ → ℕ
pattern64 (pos n) = n % 2 ^ 64
pattern64 (negsuc n) = 2 ^ 64 - 1 - n % 2 ^ 64

-- The number that a bit pattern stands for.
abbrev pub signed64 : ℕ → ℤ
signed64 w = if ltb w (2 ^ 63) then pos w else negsuc (2 ^ 64 - w - 1)

unfoldable pub wrap64 : ℤ → ℤ
wrap64 a = signed64 (pattern64 a)

unfoldable pub add64 : ℤ → ℤ → ℤ
add64 a b = wrap64 (a +ℤ b)

unfoldable pub sub64 : ℤ → ℤ → ℤ
sub64 a b = wrap64 (a -ℤ b)

unfoldable pub mul64 : ℤ → ℤ → ℤ
mul64 a b = wrap64 (a *ℤ b)

unfoldable pub neg64 : ℤ → ℤ
neg64 a = wrap64 (pos 0 -ℤ a)

-- Go's `/` and `%` by a positive constant: the quotient is truncated towards zero.
abbrev pub quot64 : ℤ → ℕ → ℤ
quot64 (pos n) d = pos (n / d)
quot64 (negsuc n) d = neg_ℕ (suc n / d)

abbrev pub rem64 : ℤ → ℕ → ℤ
rem64 (pos n) d = pos (n % d)
rem64 (negsuc n) d = neg_ℕ (suc n % d)
