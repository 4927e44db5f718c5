-- ===== src/Prelude/Order.antt =====
-- Three-way comparisons, as strings.Compare and big.Rat.Cmp make them, and their laws on the values
-- of a predicate.
use Prim.Native.Nat.{compare, Ordering}
use Prim.Native.Nat.Ordering.{lt, eq, gt}
use mathlib.Core.Path.{◌≡◌, refl, ap, sym, ◌∙◌}
use mathlib.Core.Bool.{Bool, true, false}
use mathlib.Core.List.{List, [], ◌∷◌}
use native.Mathlib.Omega.{arith}
use gizway.Prelude.Lists.{All}

abbrev pub flip : Ordering → Ordering
flip lt = gt
flip eq = eq
flip gt = lt

-- The second comparison counts where the first finds no difference.
abbrev pub then : Ordering → Ordering → Ordering
then eq second = second
then lt second = lt
then gt second = gt

abbrev pub is_lt : Ordering → Bool
is_lt lt = true
is_lt eq = false
is_lt gt = false

abbrev pub is_eq : Ordering → Bool
is_eq lt = false
is_eq eq = true
is_eq gt = false

-- Item by item; of two lists that agree as far as the shorter one goes, the shorter comes first.
unfoldable pub compare_lists {ℓ} : {A : Type ℓ} → (A → A → Ordering) → List A → List A → Ordering
compare_lists cmp [] [] = eq
compare_lists cmp [] (y ∷ ys) = lt
compare_lists cmp (x ∷ xs) [] = gt
compare_lists cmp (x ∷ xs) (y ∷ ys) = then (cmp x y) (compare_lists cmp xs ys)

-- A total preorder.
pub record IsOrder {ℓ κ} {A : Type ℓ} (P : A → Type κ) (cmp : A → A → Ordering) : Type (ℓ ⊔ κ) where
  pub swap : (a b : A) → cmp b a ≡ flip (cmp a b)
  pub lt_trans : (a b c : A) → P a → P b → P c → cmp a b ≡ lt → cmp b c ≡ lt → cmp a c ≡ lt
  pub eq_same : (a b c : A) → P a → P b → P c → cmp a b ≡ eq → cmp a c ≡ cmp b c

pub compare-IsOrder : IsOrder {0, 0} (λ n. Unit) compare
compare-IsOrder = record {
  swap = λ a b. ground arith;
  lt_trans = λ a b c p q r. ground arith;
  eq_same = λ a b c p q r. ground arith;
}

module _ {ℓ κ} {A : Type ℓ} (P : A → Type κ) (cmp : A → A → Ordering) (o : IsOrder P cmp) where
  pub eq_same_right : (a b c : A) → P a → P b → P c → cmp a b ≡ eq → cmp c a ≡ cmp c b
  eq_same_right a b c p q r h = o.swap a c ∙ ap flip (o.eq_same a b c p q r h) ∙ sym (o.swap b c)

  compare_lists-swap : (xs ys : List A) → compare_lists cmp ys xs ≡ flip (compare_lists cmp xs ys)
  unfolding compare_lists
  compare_lists-swap [] [] = refl
  compare_lists-swap [] (y ∷ ys) = refl
  compare_lists-swap (x ∷ xs) [] = refl
  compare_lists-swap (x ∷ xs) (y ∷ ys) = ground (arith, o.swap x y, compare_lists-swap xs ys)

  compare_lists-eq_same :
      (xs ys zs : List A)
      → All P xs
      → All P ys
      → All P zs
      → compare_lists cmp xs ys ≡ eq
      → compare_lists cmp xs zs ≡ compare_lists cmp ys zs
  unfolding compare_lists
  compare_lists-eq_same [] [] zs p q r h = refl
  compare_lists-eq_same [] (y ∷ ys) zs p q r h = absurd (cc)
  compare_lists-eq_same (x ∷ xs) [] zs p q r h = absurd (cc)
  compare_lists-eq_same (x ∷ xs) (y ∷ ys) [] p q r h = refl
  compare_lists-eq_same (x ∷ xs) (y ∷ ys) (z ∷ zs) (p, ps) (q, qs) (r, rs) h =
      ground (arith, o.eq_same x y z p q r, compare_lists-eq_same xs ys zs ps qs rs)

  compare_lists-lt_trans :
      (xs ys zs : List A)
      → All P xs
      → All P ys
      → All P zs
      → compare_lists cmp xs ys ≡ lt
      → compare_lists cmp ys zs ≡ lt
      → compare_lists cmp xs zs ≡ lt
  unfolding compare_lists
  compare_lists-lt_trans xs [] [] p q r h k = absurd (cc)
  compare_lists-lt_trans xs (y ∷ ys) [] p q r h k = absurd (cc)
  compare_lists-lt_trans [] ys (z ∷ zs) p q r h k = refl
  compare_lists-lt_trans (x ∷ xs) [] (z ∷ zs) p q r h k = absurd (cc)
  compare_lists-lt_trans (x ∷ xs) (y ∷ ys) (z ∷ zs) (p, ps) (q, qs) (r, rs) h k = ground (
    arith,
    o.eq_same x y z p q r,
    eq_same_right y z x q r p,
    o.lt_trans x y z p q r,
    compare_lists-lt_trans xs ys zs ps qs rs,
  )

  pub compare_lists-IsOrder : IsOrder (All P) (compare_lists cmp)
  compare_lists-IsOrder = record {
    swap = compare_lists-swap;
    lt_trans = compare_lists-lt_trans;
    eq_same = compare_lists-eq_same;
  }

  module _ (second : A → A → Ordering) (s : IsOrder P second) where
    pub then-IsOrder : IsOrder P (λ a b. then (cmp a b) (second a b))
    then-IsOrder = record {
      swap = λ a b. ground (arith, o.swap a b, s.swap a b);
      lt_trans = λ a b c p q r. ground (
        arith,
        o.eq_same a b c p q r,
        eq_same_right b c a q r p,
        o.lt_trans a b c p q r,
        s.lt_trans a b c p q r,
      );
      eq_same = λ a b c p q r. ground (arith, o.eq_same a b c p q r, s.eq_same a b c p q r);
    }
