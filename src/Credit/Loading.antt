-- ===== src/Credit/Loading.antt =====
-- The load of a key's credit (admit, internal/gizway/protocol.go): what the other requests can do
-- while one of them waits for GizPay.
use Prim.Native.String.{String}
use gizway.Prelude.{
  ℕ, ◌+◌, ◌<◌, Bool, true, false, Option, none, some, ◌≡◌, ◌≢◌, inl, inr, refl, sym, ap, ◌∙◌, arith,
  ◌==◌, ==_iff, Bool-cases, Option-cases, if◌then◌else◌,
}
use gizway.Int.{ℤ, ltb_ℤ, leb_ℤ, pos}
use gizway.Text.{str_eq, str_eq_iff}
use gizway.Credit.{
  no_state, set_credit, start_load, CreditState, Credits, CheckResult, waits, admitted, set_state,
  snapshot, enter, leave, debit, consume_local_credit, prune_credit_states,
}

-- One step of the other requests and of the pruning, while the load into p is under way.
pub data Step (p : ℕ) : Credits → Credits → Type 0 where
  entering : (key : String) (now : ℤ) (h : Credits) → Step p h (enter key now h).1
  leaving :
      (key : String) (q : ℕ) (r : Option CheckResult) (h : Credits)
      → q ≢ p
      → Step p h (leave key q r h).1
  consuming : (key : String) (g : ℤ) (h : Credits) → Step p h (consume_local_credit key g h)
  pruning : (now : ℤ) (h : Credits) → Step p h (prune_credit_states now h)

pub data Steps (p : ℕ) : Credits → Credits → Type 0 where
  stay : (h : Credits) → Steps p h h
  after : {h i j : Credits} → Steps p h i → Step p i j → Steps p h j

-- The state of the key is p, and its load is under way.
pub record IsLoading (key : String) (p : ℕ) (h : Credits) : Type 0 where
  pub points : h.credits key ≡ some p
  pub loading : (h.states p).loading ≡ true
  pub known : p < h.fresh

module _ (key : String) (p : ℕ) where
  IsLoading-set_state :
      (q : ℕ) (x : CreditState) (h : Credits)
      → IsLoading key p h
      → (q ≡ p → x.loading ≡ true)
      → IsLoading key p (set_state q x h)
  IsLoading-set_state q x h l k = record {
    points = l.points;
    loading = elim (Bool-cases (p == q)) [
      | inl same ↦ rw same (k (sym ((==_iff p q).0 same)))
      | inr other ↦ rw other l.loading
    ];
    known = l.known;
  }

  IsLoading-either :
      (b : Bool) (h i : Credits)
      → IsLoading key p h
      → IsLoading key p i
      → IsLoading key p (if b then h else i)
  IsLoading-either true h i l m = l
  IsLoading-either false h i l m = m

  consume_at :
      (o : Option ℕ) (g : ℤ) (h : Credits)
      → IsLoading key p h
      → IsLoading key p (elim o [ none ↦ h | some q ↦ set_state q (debit g (h.states q)) h ])
  unfolding debit
  consume_at none g h l = l
  consume_at (some q) g h l = IsLoading-set_state q (debit g (h.states q)) h l (λ e. rw e l.loading)

  IsLoading-consume :
      (k : String) (g : ℤ) (h : Credits)
      → IsLoading key p h
      → IsLoading key p (consume_local_credit k g h)
  unfolding consume_local_credit
  IsLoading-consume k g h l =
      IsLoading-either (leb_ℤ g (pos 0)) h _ l (consume_at (h.credits k) g h l)

  -- Another key gets a new state.
  IsLoading-new :
      (k : String) (h : Credits)
      → IsLoading key p h
      → str_eq key k ≡ false
      → IsLoading key p (
          set_credit k
            (some h.fresh)
            (record (set_state h.fresh no_state h) { fresh = h.fresh + 1 }))
  IsLoading-new k h l other =
      let m : IsLoading key p (set_state h.fresh no_state h) =
        IsLoading-set_state h.fresh no_state h l (λ e. absurd (omega (arith, e, l.known))) in
      record { points = rw other l.points; loading = m.loading; known = omega (arith, l.known) }

  IsLoading-start : (q : ℕ) (h : Credits) → IsLoading key p h → IsLoading key p (start_load q h).1
  IsLoading-start q h l =
      IsLoading-set_state q (record (h.states q) { loading = true }) h l (λ e. refl)

  other_key :
      (k : String) (h : Credits) → IsLoading key p h → h.credits k ≡ none → str_eq key k ≡ false
  other_key k h l missing = elim (Bool-cases (str_eq key k)) [
    | inl same ↦
        let e : h.credits key ≡ h.credits k = ap h.credits ((str_eq_iff key k).0 same) in
        absurd (cc (l.points, missing, e))
    | inr other ↦ other
  ]

  either_result :
      {A : Type 0} (b : Bool) (x y : A × Credits)
      → IsLoading key p x.1
      → IsLoading key p y.1
      → IsLoading key p (if b then x else y).1
  either_result true x y l m = l
  either_result false x y l m = m

  IsLoading-enter :
      (k : String) (now : ℤ) (h : Credits) → IsLoading key p h → IsLoading key p (enter k now h).1
  unfolding enter
  IsLoading-enter k now h l = elim (Option-cases (h.credits k)) [
    | inl missing ↦
        rw (missing, enter)
          (IsLoading-start h.fresh _ (IsLoading-new k h l (other_key k h l missing)))
    | inr (q, found) ↦
        rw (found, enter)
          (either_result (h.states q).loading (waits, h) _ l
            (either_result (ltb_ℤ now (h.states q).expires) (admitted (snapshot (h.states q)), h) _
              l (IsLoading-start q h l)))
  ]

  IsLoading-ended :
      (q : ℕ) (x : CreditState) (h : Credits)
      → IsLoading key p h
      → q ≢ p
      → IsLoading key p (set_state q x h)
  IsLoading-ended q x h l ne = IsLoading-set_state q x h l (λ e. absurd (ne e))

  -- The failed load of another state takes away the entry of its own key only.
  IsLoading-removed :
      (k : String) (q : ℕ) (h : Credits)
      → IsLoading key p h
      → h.credits k ≡ some q
      → q ≢ p
      → IsLoading key p (set_credit k none h)
  IsLoading-removed k q h l found ne = record {
    points = elim (Bool-cases (str_eq key k)) [
      | inl same ↦
          let e : h.credits key ≡ h.credits k = ap h.credits ((str_eq_iff key k).0 same) in
          let f : some p ≡ some q = sym l.points ∙ e ∙ found in
          absurd (ne (sym (ap (λ o. elim o [ none ↦ p | some x ↦ x ]) f)))
      | inr other ↦ rw other l.points
    ];
    loading = l.loading;
    known = l.known;
  }

  IsLoading-leave :
      (k : String) (q : ℕ) (r : Option CheckResult) (h : Credits)
      → IsLoading key p h
      → q ≢ p
      → IsLoading key p (leave k q r h).1
  unfolding leave
  IsLoading-leave k q (some r) h l ne = IsLoading-ended q _ h l ne
  IsLoading-leave k q none h l ne =
      let ended = set_state q (record (h.states q) { loading = false }) h in
      let m : IsLoading key p ended =
        IsLoading-ended q (record (h.states q) { loading = false }) h l ne in
      elim (Option-cases (h.credits k)) [
        | inl missing ↦ rw (missing, leave) m
        | inr (o, found) ↦ elim (Bool-cases (o == q)) [
          | inl same ↦
              let f : h.credits k ≡ some q = found ∙ ap some ((==_iff o q).0 same) in
              rw (found, leave) (rw same (IsLoading-removed k q ended m f ne))
          | inr other ↦ rw (found, leave) (rw other m)
        ]
      ]

IsLoading-prune :
    (key : String) (p : ℕ) (now : ℤ) (h : Credits)
    → IsLoading key p h
    → IsLoading key p (prune_credit_states now h)
unfolding prune_credit_states
IsLoading-prune key p now h l = record {
  points = rw l.points (rw l.loading refl);
  loading = l.loading;
  known = l.known;
}

-- No step of the others touches the entry of a key whose load is under way.
IsLoading-Step :
    (key : String) (p : ℕ) (h i : Credits) → Step p h i → IsLoading key p h → IsLoading key p i
IsLoading-Step key p _ _ (entering k now h) l = IsLoading-enter key p k now h l
IsLoading-Step key p _ _ (leaving k q r h ne) l = IsLoading-leave key p k q r h l ne
IsLoading-Step key p _ _ (consuming k g h) l = IsLoading-consume key p k g h l
IsLoading-Step key p _ _ (pruning now h) l = IsLoading-prune key p now h l

pub IsLoading-Steps :
    (key : String) (p : ℕ) (h i : Credits) → Steps p h i → IsLoading key p h → IsLoading key p i
IsLoading-Steps key p _ _ (stay h) l = l
IsLoading-Steps key p _ _ (after {h} {i} {j} s t) l =
    IsLoading-Step key p i j t (IsLoading-Steps key p h i s l)
