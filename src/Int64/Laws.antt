-- ===== src/Int64/Laws.antt =====
-- The int64 operations against the exact ones.
use gizway.Prelude.{ℕ, ◌+◌, ◌*◌, ◌^◌, ◌<◌, ◌≡◌, arith}
use gizway.Int.{ℤ, pos, negsuc, ◌+ℤ◌, ◌-ℤ◌, +ℤ-pos, *ℤ-pos}
use gizway.Int64.{IsInt64, wrap64, add64, sub64, mul64, neg64}

pub wrap64_of_IsInt64 : (a : ℤ) → IsInt64 a → wrap64 a ≡ a
unfolding wrap64
wrap64_of_IsInt64 (pos n) h = ground arith
wrap64_of_IsInt64 (negsuc n) h = ground arith

pub wrap64-IsInt64 : (a : ℤ) → IsInt64 (wrap64 a)
unfolding wrap64
wrap64-IsInt64 (pos n) = ground arith
wrap64-IsInt64 (negsuc n) = ground arith

pub add64-eq-+ℤ : (a b : ℤ) → IsInt64 (a +ℤ b) → add64 a b ≡ a +ℤ b
unfolding add64
add64-eq-+ℤ a b h = wrap64_of_IsInt64 _ h

pub sub64-eq--ℤ : (a b : ℤ) → IsInt64 (a -ℤ b) → sub64 a b ≡ a -ℤ b
unfolding sub64
sub64-eq--ℤ a b h = wrap64_of_IsInt64 _ h

pub neg64-eq--ℤ : (a : ℤ) → IsInt64 (pos 0 -ℤ a) → neg64 a ≡ pos 0 -ℤ a
unfolding neg64
neg64-eq--ℤ a h = wrap64_of_IsInt64 _ h

-- On numbers that are not negative.
pub add64-pos : (a b : ℕ) → a + b < 2 ^ 63 → add64 (pos a) (pos b) ≡ pos (a + b)
unfolding add64
add64-pos a b h = rw +ℤ-pos (wrap64_of_IsInt64 (pos (a + b)) (omega arith))

pub mul64-pos : (a b : ℕ) → a * b < 2 ^ 63 → mul64 (pos a) (pos b) ≡ pos (a * b)
unfolding mul64
mul64-pos a b h = rw *ℤ-pos (wrap64_of_IsInt64 (pos (a * b)) (omega arith))
