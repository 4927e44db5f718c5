-- ===== src/Targets/Sorting.antt =====
-- The stable sort and the cut of cheapestTargets (internal/gizway/protocol.go), for any comparison.
use Prim.Native.Nat.{Ordering}
use gizway.Prelude.{
  Bool, not, List, [], ◌∷◌, all, All, ◌≡◌, refl, inl, inr, Bool-cases, if◌then◌else◌,
}
use gizway.Prelude.Order.{is_lt, is_eq}

-- The items that pass the test.
abbrev pub filter : {A : Type 0} → (A → Bool) → List A → List A
filter p [] = []
filter p (x ∷ xs) = if p x then x ∷ filter p xs else filter p xs

module _ {A : Type 0} (cmp : A → A → Ordering) where
  -- Before the items that are not below it, so that equal items keep their order.
  unfoldable pub insert : A → List A → List A
  insert x [] = x ∷ []
  insert x (y ∷ ys) = let rest = insert x ys in if is_lt (cmp y x) then y ∷ rest else x ∷ y ∷ ys

  -- sort.SliceStable
  unfoldable pub sort_stable : List A → List A
  unfolding insert
  sort_stable [] = []
  sort_stable (x ∷ xs) = insert x (sort_stable xs)

  -- The items up to the first that is not equal to the given one.
  unfoldable pub take_equal : A → List A → List A
  take_equal x [] = []
  take_equal x (y ∷ ys) = let rest = take_equal x ys in if is_eq (cmp x y) then y ∷ rest else []

  unfoldable pub first_equal : List A → List A
  unfolding take_equal
  first_equal [] = []
  first_equal (x ∷ xs) = x ∷ take_equal x xs

  -- No item of the list is below it.
  abbrev pub is_minimal : List A → A → Bool
  is_minimal xs x = all (λ y. not (is_lt (cmp y x))) xs

  pub first_equal-nil : first_equal (sort_stable []) ≡ []
  unfolding sort_stable first_equal
  first_equal-nil = refl

  All-insert : (Q : A → Type 0) (x : A) (ys : List A) → Q x → All Q ys → All Q (insert x ys)
  unfolding insert
  All-insert Q x [] p q = (p, tt)
  All-insert Q x (y ∷ ys) p (q, qs) = elim (Bool-cases (is_lt (cmp y x))) [
    | inl below ↦ rw below (q, All-insert Q x ys p qs)
    | inr above ↦ rw above (p, (q, qs))
  ]

  pub All-sort_stable : (Q : A → Type 0) (xs : List A) → All Q xs → All Q (sort_stable xs)
  unfolding sort_stable
  All-sort_stable Q [] p = tt
  All-sort_stable Q (x ∷ xs) (p, ps) = All-insert Q x (sort_stable xs) p (All-sort_stable Q xs ps)

  All-take_equal : (Q : A → Type 0) (x : A) (ys : List A) → All Q ys → All Q (take_equal x ys)
  unfolding take_equal
  All-take_equal Q x [] q = tt
  All-take_equal Q x (y ∷ ys) (q, qs) = elim (Bool-cases (is_eq (cmp x y))) [
    | inl same ↦ rw same (q, All-take_equal Q x ys qs)
    | inr other ↦ rw other tt
  ]

  All-first_equal : (Q : A → Type 0) (xs : List A) → All Q xs → All Q (first_equal xs)
  unfolding first_equal
  All-first_equal Q [] q = tt
  All-first_equal Q (x ∷ xs) (q, qs) = (q, All-take_equal Q x xs qs)

  -- What holds of the items of a list holds of the first items of the sorted list.
  pub All-cheapest :
      (Q : A → Type 0) (xs : List A) → All Q xs → All Q (first_equal (sort_stable xs))
  All-cheapest Q xs q = All-first_equal Q (sort_stable xs) (All-sort_stable Q xs q)

  insert-filled : (x : A) (ys : List A) → (z : A) × (zs : List A) × (insert x ys ≡ z ∷ zs)
  unfolding insert
  insert-filled x [] = (x, [], refl)
  insert-filled x (y ∷ ys) = elim (Bool-cases (is_lt (cmp y x))) [
    | inl below ↦ (y, insert x ys, rw below refl)
    | inr above ↦ (x, y ∷ ys, rw above refl)
  ]

  -- The sorted list of some item has a first item.
  pub cheapest-filled :
      (x : A) (xs : List A)
      → (z : A) × (zs : List A) × (first_equal (sort_stable (x ∷ xs)) ≡ z ∷ zs)
  unfolding sort_stable first_equal
  cheapest-filled x xs =
      let (z, zs, e) = insert-filled x (sort_stable xs) in (z, take_equal z zs, rw e refl)
