-- ===== src/Prelude/Lists.antt =====
-- Lists measured and searched by native numbers and Boolean tests, under the library's names.
use Prim.Native.Nat.{ℕ, suc, ◌+◌}
use mathlib.Core.Path.{◌≡◌, refl, sym}
use mathlib.Core.Logic.{◌⊎◌, inl, inr}
use gizway.Prelude.Tests.{Bool-cases}
use mathlib.Core.Bool.{Bool, true, false, ◌&&◌, ◌||◌}
use mathlib.Core.List.{List, [], ◌∷◌, ◌++◌}
use mathlib.Core.Option.{Option, none, some}
use native.Mathlib.Omega.{arith}

module _ {ℓ} {A : Type ℓ} where
  abbrev pub length : List A → ℕ
  length [] = 0
  length (x ∷ xs) = suc (length xs)

  pub length-append : (xs ys : List A) → length (xs ++ ys) ≡ length xs + length ys
  length-append [] ys = omega arith
  length-append (x ∷ xs) ys = omega (arith, length-append xs ys)

  abbrev pub all : (A → Bool) → List A → Bool
  all p [] = true
  all p (x ∷ xs) = p x && all p xs

  abbrev pub any : (A → Bool) → List A → Bool
  any p [] = false
  any p (x ∷ xs) = p x || any p xs

  -- The first item that passes the test.
  abbrev pub find : (A → Bool) → List A → Option A
  find p [] = none
  find p (x ∷ xs) = elim (p x) [ true ↦ some x | false ↦ find p xs ]

abbrev pub All {ℓ κ} : {A : Type ℓ} → (A → Type κ) → List A → Type κ
All P [] = Unit
All P (x ∷ xs) = P x × All P xs

-- A test that fails everywhere.
pub All-any :
    {A : Type 0} (P : A → Type 0) (f : A → Bool) (xs : List A)
    → ((x : A) → f x ≡ false → P x)
    → any f xs ≡ false
    → All P xs
All-any P f [] h e = tt
All-any P f (x ∷ xs) h e = elim (Bool-cases (f x)) [
  | inl up ↦ absurd (cc (rw up at e))
  | inr down ↦ (h x down, All-any P f xs h (rw down at e))
]

pub any-All :
    {A : Type 0} (P : A → Type 0) (f : A → Bool) (xs : List A)
    → ((x : A) → P x → f x ≡ false)
    → All P xs
    → any f xs ≡ false
any-All P f [] h a = refl
any-All P f (x ∷ xs) h (p, ps) = rw (h x p) (any-All P f xs h ps)

abbrev pub IsIn : {A : Type 0} → A → List A → Type 0
IsIn x [] = ⊥
IsIn x (y ∷ ys) = (x ≡ y) ⊎ IsIn x ys

pub any-IsIn :
    {A : Type 0} (f : A → Bool) (xs : List A) → any f xs ≡ true → (x : A) × IsIn x xs × (f x ≡ true)
any-IsIn f [] h = absurd (cc)
any-IsIn f (x ∷ xs) h = elim (Bool-cases (f x)) [
  | inl up ↦ (x, inl refl, up)
  | inr down ↦ let (y, there, up) = any-IsIn f xs (rw down at h) in (y, inr there, up)
]

-- The items of two lists are related one by one.
abbrev pub Rowwise : {A : Type 0} → (A → A → Type 0) → List A → List A → Type 0
Rowwise R [] [] = Unit
Rowwise R (x ∷ xs) (y ∷ ys) = R x y × Rowwise R xs ys
Rowwise R [] (y ∷ ys) = ⊥
Rowwise R (x ∷ xs) [] = ⊥

pub some_injective : {A : Type 0} {a b : A} → some a ≡ some b → a ≡ b
some_injective h = cc

pub find-IsIn :
    {A : Type 0} (f : A → Bool) (xs : List A) (x : A)
    → find f xs ≡ some x
    → IsIn x xs × (f x ≡ true)
find-IsIn f [] x h = absurd (cc)
find-IsIn f (y ∷ ys) x h = elim (Bool-cases (f y)) [
  | inl up ↦
      let same : y ≡ x = some_injective (rw (find, up) at h) in (inl (sym same), rw (← same) up)
  | inr down ↦ let (there, up) = find-IsIn f ys x (rw (find, down) at h) in (inr there, up)
]
