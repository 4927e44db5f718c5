-- ===== src/Targets/Minima.antt =====
-- The first items of a list that is sorted stably by a comparison are its minima, in their order: the
-- steps of cheapestTargets (internal/gizway/protocol.go) for any total preorder.
use Prim.Native.Nat.{Ordering}
use Prim.Native.Nat.Ordering.{lt, eq}
use gizway.Prelude.{
  Bool, true, false, not, ◌&&◌, List, [], ◌∷◌, All, ◌≡◌, refl, ap, sym, ◌∙◌, inl, inr, Bool-cases,
  arith, if◌then◌else◌,
}
use gizway.Prelude.Order.{is_lt, is_eq, IsOrder, eq_same_right}
use gizway.Targets.Sorting.{
  insert, sort_stable, take_equal, first_equal, filter, is_minimal, first_equal-nil,
  All-sort_stable,
}

module _ {A : Type 0} (cmp : A → A → Ordering) (P : A → Type 0) (o : IsOrder P cmp) where
  take_equal-insert :
      (x y : A) (zs : List A)
      → P x
      → P y
      → All P zs
      → is_lt (cmp y x) ≡ true
      → take_equal cmp y (insert cmp x zs) ≡ take_equal cmp y zs
  unfolding insert take_equal
  take_equal-insert x y [] p q r h = ground arith
  take_equal-insert x y (z ∷ zs) p q (r, rs) h =
      ground (arith, take_equal-insert x y zs p q rs h, o.eq_same y z x q r p)

  -- One more item, added to the minima of a list.
  abbrev add : A → List A → List A
  add x [] = x ∷ []
  add x (m ∷ ms) =
      if is_lt (cmp m x) then m ∷ ms else if is_eq (cmp x m) then x ∷ m ∷ ms else x ∷ []

  take_equal-same :
      (x y : A) (zs : List A)
      → P x
      → P y
      → All P zs
      → cmp x y ≡ eq
      → take_equal cmp x zs ≡ take_equal cmp y zs
  unfolding take_equal
  take_equal-same x y [] p q r h = refl
  take_equal-same x y (z ∷ zs) p q (r, rs) h =
      rw (o.eq_same x y z p q r h, take_equal-same x y zs p q rs h) refl

  first_equal-insert :
      (x : A) (ys : List A)
      → P x
      → All P ys
      → first_equal cmp (insert cmp x ys) ≡ add x (first_equal cmp ys)
  unfolding insert first_equal
  first_equal-insert x [] p q = ground arith
  first_equal-insert x (y ∷ ys) p (q, qs) = elim (Bool-cases (is_lt (cmp y x))) [
    | inl below ↦ rw (below, take_equal-insert x y ys p q qs below) refl
    | inr above ↦ elim (Bool-cases (is_eq (cmp x y))) [
      | inl same ↦
          let e : cmp x y ≡ eq = ground arith in
          rw (above, take_equal) (rw (same, take_equal-same x y ys p q qs e) refl)
      | inr other ↦ rw (above, take_equal) (rw other refl)
    ]
  ]

  filter_and : (p q : A → Bool) (xs : List A) → filter (λ x. p x && q x) xs ≡ filter p (filter q xs)
  filter_and p q [] = refl
  filter_and p q (x ∷ xs) = ground (arith, filter_and p q xs)

  filter-All : (p : A → Bool) (xs : List A) → All (λ x. p x ≡ true) xs → filter p xs ≡ xs
  filter-All p [] h = refl
  filter-All p (x ∷ xs) (h, hs) = rw (h, filter-All p xs hs) refl

  filter_none : (p : A → Bool) (xs : List A) → All (λ x. p x ≡ false) xs → filter p xs ≡ []
  filter_none p [] h = refl
  filter_none p (x ∷ xs) (h, hs) = rw (h, filter_none p xs hs) refl

  All-map :
      {Q R : A → Type 0}
      → ((x : A) → P x → Q x → R x)
      → (xs : List A) → All P xs
      → All Q xs
      → All R xs
  All-map f [] p q = tt
  All-map f (x ∷ xs) (p, ps) (q, qs) = (f x p q, All-map f xs ps qs)

  -- The minima of a list, with the first apart.
  record IsMinima (xs : List A) (m : A) (ms : List A) : Type 0 where
    first_P : P m
    rest_P : All P ms
    minimal : All (λ t. is_lt (cmp t m) ≡ false) xs
    attained : (x : A) → is_lt (cmp m x) ≡ true → is_minimal cmp xs x ≡ false
    same : All (λ t. cmp m t ≡ eq) ms
    filtered : filter (is_minimal cmp xs) xs ≡ m ∷ ms

  is_minimal_lem :
      (xs : List A) (m : A) → All (λ t. is_lt (cmp t m) ≡ false) xs → is_minimal cmp xs m ≡ true
  is_minimal_lem [] m h = refl
  is_minimal_lem (x ∷ xs) m (h, hs) = rw (h, is_minimal_lem xs m hs) refl

  cmp_refl : (a : A) → cmp a a ≡ eq
  cmp_refl a = ground (arith, o.swap a a)

  -- What the filter of the longer list does to the minima of the shorter one.
  filter-cons :
      (x : A) (xs : List A)
      → filter (is_minimal cmp (x ∷ xs)) (x ∷ xs) ≡ (
          if is_minimal cmp xs x
          then x ∷ filter (λ t. not (is_lt (cmp x t))) (filter (is_minimal cmp xs) xs)
          else filter (λ t. not (is_lt (cmp x t))) (filter (is_minimal cmp xs) xs))
  filter-cons x xs =
      rw (cmp_refl x) (rw (filter_and (λ t. not (is_lt (cmp x t))) (is_minimal cmp xs) xs) refl)

  IsMinima-below :
      (x m : A) (xs ms : List A)
      → P x
      → IsMinima xs m ms
      → is_lt (cmp m x) ≡ true
      → IsMinima (x ∷ xs) m ms
  IsMinima-below x m xs ms p i h =
      let stays : All (λ t. not (is_lt (cmp x t)) ≡ true) (m ∷ ms) = (
        ground (arith, o.swap m x),
        All-map (λ t pt e. ground (arith, o.swap x t, o.eq_same m t x i.first_P pt p e)) ms i.rest_P
            i.same,
      ) in
      record {
        first_P = i.first_P;
        rest_P = i.rest_P;
        minimal = (ground (arith, o.swap m x), i.minimal);
        attained = λ y k. ground (arith, i.attained y k);
        same = i.same;
        filtered = rw (filter-cons x xs, i.attained x h, i.filtered) (filter-All _ (m ∷ ms) stays);
      }

  IsMinima-equal :
      (x m : A) (xs ms : List A)
      → P x
      → All P xs
      → IsMinima xs m ms
      → cmp x m ≡ eq
      → IsMinima (x ∷ xs) x (m ∷ ms)
  IsMinima-equal x m xs ms p ps i h =
      let same : All (λ t. cmp x t ≡ eq) (m ∷ ms) =
        (h, All-map (λ t pt e. o.eq_same x m t p i.first_P pt h ∙ e) ms i.rest_P i.same) in
      let least : All (λ t. is_lt (cmp t x) ≡ false) xs =
        All-map (λ t pt e. ap is_lt (eq_same_right P cmp o x m t p i.first_P pt h) ∙ e) xs ps
          i.minimal in
      record {
        first_P = p;
        rest_P = (i.first_P, i.rest_P);
        minimal = (ap is_lt (cmp_refl x), least);
        attained = λ y k. rw k refl;
        same = same;
        filtered =
            rw (filter-cons x xs, is_minimal_lem xs x least, i.filtered)
              (ap (λ r. x ∷ r)
                (filter-All _ (m ∷ ms) (
                  All-map (λ t pt e. ap (λ c. not (is_lt c)) e) (m ∷ ms) (i.first_P, i.rest_P)
                    same)));
      }

  IsMinima-above :
      (x m : A) (xs ms : List A)
      → P x
      → All P xs
      → IsMinima xs m ms
      → cmp x m ≡ lt
      → IsMinima (x ∷ xs) x []
  IsMinima-above x m xs ms p ps i h =
      let least : All (λ t. is_lt (cmp t x) ≡ false) xs =
        All-map (λ t pt e. ground (arith, o.lt_trans t x m pt p i.first_P)) xs ps i.minimal in
      let gone : All (λ t. not (is_lt (cmp x t)) ≡ false) (m ∷ ms) = (
        ground arith,
        All-map
            (λ t pt e.
              ap (λ c. not (is_lt c)) (sym (eq_same_right P cmp o m t x i.first_P pt p e) ∙ h))
            ms i.rest_P i.same,
      ) in
      record {
        first_P = p;
        rest_P = tt;
        minimal = (ap is_lt (cmp_refl x), least);
        attained = λ y k. rw k refl;
        same = tt;
        filtered =
            rw (filter-cons x xs, is_minimal_lem xs x least, i.filtered)
              (ap (λ r. x ∷ r) (filter_none _ (m ∷ ms) gone));
      }

  -- The first items of the sorted list, which are the minima if there are any items at all.
  abbrev Describes : List A → List A → Type 0
  Describes xs [] = xs ≡ []
  Describes xs (m ∷ ms) = IsMinima xs m ms

  Describes-add :
      (x : A) (xs ms : List A) → P x → All P xs → Describes xs ms → Describes (x ∷ xs) (add x ms)
  Describes-add x xs [] p ps d = rw d (record {
    first_P = p;
    rest_P = tt;
    minimal = (ap is_lt (cmp_refl x), tt);
    attained = λ y k. rw k refl;
    same = tt;
    filtered = rw (cmp_refl x) refl;
  })
  Describes-add x xs (m ∷ ms) p ps i = elim (Bool-cases (is_lt (cmp m x))) [
    | inl below ↦ rw below (IsMinima-below x m xs ms p i below)
    | inr above ↦ elim (Bool-cases (is_eq (cmp x m))) [
      | inl same ↦ rw (above, same) (IsMinima-equal x m xs ms p ps i (ground arith))
      | inr other ↦ rw (above, other) (IsMinima-above x m xs ms p ps i (ground (arith, o.swap m x)))
    ]
  ]

  Describes-first_equal :
      (xs : List A) → All P xs → Describes xs (first_equal cmp (sort_stable cmp xs))
  unfolding sort_stable
  Describes-first_equal [] p = rw (first_equal-nil cmp) refl
  Describes-first_equal (x ∷ xs) (p, ps) =
      rw (first_equal-insert x (sort_stable cmp xs) p (All-sort_stable cmp P xs ps)) (
        Describes-add x xs (first_equal cmp (sort_stable cmp xs)) p ps
          (Describes-first_equal xs ps))

  minima_of_Describes : (xs ms : List A) → Describes xs ms → filter (is_minimal cmp xs) xs ≡ ms
  minima_of_Describes xs [] d = rw d refl
  minima_of_Describes xs (m ∷ ms) i = i.filtered

  -- The first items of the sorted list are the minimal items, in their order in the list.
  pub first_equal-sort_stable :
      (xs : List A)
      → All P xs
      → first_equal cmp (sort_stable cmp xs) ≡ filter (is_minimal cmp xs) xs
  first_equal-sort_stable xs p =
      sym
        (minima_of_Describes xs (first_equal cmp (sort_stable cmp xs)) (Describes-first_equal xs p))

  pub single_minimal : (x : A) → x ∷ [] ≡ filter (is_minimal cmp (x ∷ [])) (x ∷ [])
  single_minimal x = rw (cmp_refl x) refl
