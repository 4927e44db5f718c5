-- ===== src/Credit/Spending.antt =====
-- What the calls of consumeLocalCredit (internal/gizway/protocol.go) leave of a loaded credit.
use Prim.Native.String.{String}
use gizway.Prelude.{
  ℕ, Bool, true, false, none, some, List, [], ◌∷◌, ◌≡◌, inl, inr, refl, sym, ap, ◌∙◌, arith, All,
  ◌==◌, ==_iff, Bool-cases, Option-cases, if◌then◌else◌,
}
use gizway.Int.{ℤ, pos, ◌+ℤ◌, ◌-ℤ◌, ◌<ℤ◌, ◌≤ℤ◌, leb_ℤ, ltb_ℤ, int_laws, zero-+ℤ}
use gizway.Int64.{IsInt64, min_int64, add64, sub64}
use gizway.Int64.Laws.{add64-eq-+ℤ, sub64-eq--ℤ}
use gizway.Credit.{CreditState, Credits, set_state, snapshot, lookup, debit, consume_local_credit}

-- The gross amounts that count: those above 0.
abbrev pub spent : List ℤ → ℤ
spent [] = pos 0
spent (g ∷ gs) = (if leb_ℤ g (pos 0) then pos 0 else g) +ℤ spent gs

abbrev pub consume_all : String → List ℤ → Credits → Credits
consume_all key [] h = h
consume_all key (g ∷ gs) h = consume_all key gs (consume_local_credit key g h)

spent_nonneg : (gs : List ℤ) → pos 0 ≤ℤ spent gs
spent_nonneg [] = omega arith
spent_nonneg (g ∷ gs) =
    let rest : pos 0 ≤ℤ spent gs = spent_nonneg gs in
    elim (Bool-cases (leb_ℤ g (pos 0))) [
      | inl skipped ↦ rw skipped (rw (zero-+ℤ (spent gs)) rest)
      | inr counted ↦ rw counted (let high : pos 0 ≤ℤ g = ground arith in omega int_laws)
    ]

-- The available credit after a debit: exact, or the smallest int64.
debit-available :
    (g : ℤ) (s : CreditState)
    → IsInt64 g
    → pos 0 <ℤ g
    → IsInt64 s.available
    → IsInt64 (debit g s).available
      × ((debit g s).available ≤ℤ pos 0 → (debit g s).admission.allowed ≡ false)
      × (pos 0 <ℤ (debit g s).available → (debit g s).available ≡ s.available -ℤ g)
unfolding debit
debit-available g s hg positive hs =
    let floor : add64 min_int64 g ≡ min_int64 +ℤ g =
      add64-eq-+ℤ min_int64 g (omega int_laws, omega int_laws) in
    elim (Bool-cases (ltb_ℤ s.available (min_int64 +ℤ g))) [
      | inl low ↦ rw (floor, low) ((omega arith, omega arith), λ h. refl, λ h. absurd (omega arith))
      | inr high ↦
          let bound : min_int64 +ℤ g ≤ℤ s.available = ground arith in
          let exact : sub64 s.available g ≡ s.available -ℤ g =
            sub64-eq--ℤ s.available g (omega int_laws, omega int_laws) in
          rw (floor, high, exact) ((omega int_laws, omega int_laws), λ h. ground arith, λ h. refl)
    ]

abbrev spend : ℤ → CreditState → CreditState
spend g s = if leb_ℤ g (pos 0) then s else debit g s

lookup-found :
    (key : String) (h : Credits) (p : ℕ) → h.credits key ≡ some p → lookup key h ≡ some (h.states p)
unfolding lookup
lookup-found key h p e = rw (e, lookup) refl

lookup-consume_at :
    (key : String) (g : ℤ) (h : Credits) (p : ℕ)
    → h.credits key ≡ some p
    → lookup key (consume_local_credit key g h) ≡ some (spend g (h.states p))
unfolding lookup consume_local_credit
lookup-consume_at key g h p e = elim (Bool-cases (leb_ℤ g (pos 0))) [
  | inl skipped ↦ rw skipped (lookup-found key h p e)
  | inr counted ↦
      let self : (p == p) ≡ true = (==_iff p p).1 refl in
      let set : (if p == p then debit g (h.states p) else h.states p) ≡ debit g (h.states p) =
        rw self refl in
      rw (counted, e) (lookup-found key (set_state p (debit g (h.states p)) h) p e ∙ ap some set)
]

lookup-missing : (key : String) (h : Credits) → h.credits key ≡ none → lookup key h ≡ none
unfolding lookup
lookup-missing key h e = rw (e, lookup) refl

lookup-consume :
    (key : String) (g : ℤ) (h : Credits) (s : CreditState)
    → lookup key h ≡ some s
    → lookup key (consume_local_credit key g h) ≡ some (spend g s)
unfolding lookup
lookup-consume key g h s e = elim (Option-cases (h.credits key)) [
  | inl missing ↦ absurd (cc (lookup-missing key h missing))
  | inr (p, found) ↦
      let same : h.states p ≡ s =
        ap (λ o. elim o [ none ↦ s | some x ↦ x ]) (sym (lookup-found key h p found) ∙ e) in
      rw (← same) (lookup-consume_at key g h p found)
]

spend-facts :
    (g : ℤ) (s : CreditState) → IsInt64 g → IsInt64 s.available → IsInt64 (spend g s).available
spend-facts g s hg hs = elim (Bool-cases (leb_ℤ g (pos 0))) [
  | inl skipped ↦ rw skipped hs
  | inr counted ↦ rw counted (debit-available g s hg (ground arith) hs).0
]

unless : (b c : Bool) → (if b then false else c) ≡ true → c ≡ true
unless true c h = absurd (cc)
unless false c h = h

allowed-debit :
    (g : ℤ) (s : CreditState) → (debit g s).admission.allowed ≡ true → s.admission.allowed ≡ true
unfolding debit
allowed-debit g s h = unless _ s.admission.allowed h

-- One call before the others.
spent_before :
    (g rest : ℤ) (s : CreditState)
    → IsInt64 g
    → IsInt64 s.available
    → pos 0 ≤ℤ rest
    → (spend g s).admission.allowed ≡ true
    → rest <ℤ (spend g s).available
    → (s.admission.allowed ≡ true) × ((if leb_ℤ g (pos 0) then pos 0 else g) +ℤ rest <ℤ s.available)
spent_before g rest s hg hs nonneg ok left = elim (Bool-cases (leb_ℤ g (pos 0))) [
  | inl skipped ↦
      let same : spend g s ≡ s = rw skipped refl in
      rw skipped (rw same at ok, rw (zero-+ℤ rest) (rw same at left))
  | inr counted ↦
      let same : spend g s ≡ debit g s = rw counted refl in
      let positive : pos 0 <ℤ g = ground arith in
      let after : rest <ℤ (debit g s).available = rw same at left in
      let high : pos 0 <ℤ (debit g s).available = omega arith in
      let exact : (debit g s).available ≡ s.available -ℤ g =
        (debit-available g s hg positive hs).2 high in
      let room : rest <ℤ (s.available -ℤ g) = rw exact at after in
      rw counted (allowed-debit g s (rw same at ok), omega int_laws)
]

-- However many calls of consumeLocalCredit follow on a loaded credit, with int64 amounts, the key
-- keeps its state, and a request is admitted only if the loaded admission allowed it and the positive
-- gross amounts sum to less than the loaded credit: nothing overflows, and no debit restores credit.
pub snapshot-consume_all :
    (key : String) (gs : List ℤ) (h : Credits) (s : CreditState)
    → lookup key h ≡ some s
    → IsInt64 s.available
    → All IsInt64 gs
    → (t : CreditState) × (lookup key (consume_all key gs h) ≡ some t)
      × ((snapshot t).allowed ≡ true → (s.admission.allowed ≡ true) × (spent gs <ℤ s.available))
unfolding snapshot
snapshot-consume_all key [] h s e range hs = (s, e, λ ok. ground arith)
snapshot-consume_all key (g ∷ gs) h s e range (hg, hs) =
    let (t, kept, rest) =
      snapshot-consume_all key gs (consume_local_credit key g h) (spend g s)
        (lookup-consume key g h s e) (spend-facts g s hg range) hs in
    (t, kept, λ ok. spent_before g (spent gs) s hg range (spent_nonneg gs) (rest ok).0 (rest ok).1)
