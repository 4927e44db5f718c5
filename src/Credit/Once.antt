-- ===== src/Credit/Once.antt =====
-- The single load of a key's credit (admit, internal/gizway/protocol.go), from its start to its return.
use Prim.Native.String.{String}
use text.Mathlib.TextPositions.{eq_refl}
use gizway.Prelude.{
  ℕ, ◌+◌, ◌<◌, Bool, true, false, some, ◌≡◌, inl, inr, refl, ap, arith, ◌==◌, ==_iff, Bool-cases,
  Option-cases, if◌then◌else◌,
}
use gizway.Int.{ℤ, ltb_ℤ, ◌<ℤ◌}
use gizway.Credit.{
  no_state, set_credit, start_load, CreditAdmission, CreditState, Credits, CheckResult, Entry,
  waits, admitted, loads, set_state, snapshot, enter, leave,
}
use gizway.Credit.Loading.{IsLoading, Steps}
use gizway.Credit.Loading.{IsLoading-Steps}

-- The pointers in the map are allocated.
abbrev pub IsAllocated : Credits → Type 0
IsAllocated h = (k : String) (q : ℕ) → h.credits k ≡ some q → q < h.fresh

abbrev loaded_into : Entry → ℕ
loaded_into waits = 0
loaded_into (admitted a) = 0
loaded_into (loads p) = p

abbrev is_load : Entry → Bool
is_load waits = false
is_load (admitted a) = false
is_load (loads p) = true

new_IsLoading :
    (key : String) (h : Credits)
    → IsLoading key h.fresh
        (start_load h.fresh (
          set_credit key
            (some h.fresh)
            (record (set_state h.fresh no_state h) { fresh = h.fresh + 1 }))).1
new_IsLoading key h = record {
  points = rw (eq_refl key) refl;
  loading = rw ((==_iff h.fresh h.fresh).1 refl) refl;
  known = omega arith;
}

old_IsLoading :
    (key : String) (q : ℕ) (h : Credits)
    → h.credits key ≡ some q
    → q < h.fresh
    → IsLoading key q (start_load q h).1
old_IsLoading key q h found low = record {
  points = found;
  loading = rw ((==_iff q q).1 refl) refl;
  known = low;
}

-- A pair of a load and its store, given twice.
same_load :
    (key : String) (q p : ℕ) (g i : Credits)
    → ◌≡◌ {A = Entry × Credits} (loads q, g) (loads p, i)
    → IsLoading key q g
    → IsLoading key p i
same_load key q p g i e l =
    let pointer : q ≡ p = ap (λ x. loaded_into x.0) e in
    let store : g ≡ i = ap (λ x. x.1) e in rw (← pointer, ← store) l

no_load :
    (p : ℕ) (h g : Credits) (x : Entry)
    → is_load x ≡ false
    → ¬ ◌≡◌ {A = Entry × Credits} (x, h) (loads p, g)
no_load p h g x other e = cc (ap (λ y. is_load y.0) e)

enter-IsLoading :
    (key : String) (now : ℤ) (p : ℕ) (h g : Credits)
    → IsAllocated h
    → enter key now h ≡ (loads p, g)
    → IsLoading key p g
unfolding enter
enter-IsLoading key now p h g low e = elim (Option-cases (h.credits key)) [
  | inl missing ↦ same_load key h.fresh p _ g (rw (missing, enter) at e) (new_IsLoading key h)
  | inr (q, found) ↦ elim (Bool-cases (h.states q).loading) [
    | inl busy ↦ absurd (no_load p h g waits refl (rw (found, enter, busy) at e))
    | inr idle ↦ elim (Bool-cases (ltb_ℤ now (h.states q).expires)) [
      | inl valid ↦ absurd (
          no_load p h g (admitted (snapshot (h.states q))) refl
            (rw (found, enter, idle, valid) at e))
      | inr expired ↦
          same_load key q p _ g (rw (found, enter, idle, expired) at e)
            (old_IsLoading key q h found (low key q found))
    ]
  ]
]

IsLoading-waits :
    (key : String) (now : ℤ) (p : ℕ) (h : Credits)
    → IsLoading key p h
    → enter key now h ≡ (waits, h)
unfolding enter
IsLoading-waits key now p h l = rw (l.points, enter) (rw l.loading refl)

-- A valid state is admitted with its snapshot.
enter-valid :
    (key : String) (now : ℤ) (p : ℕ) (s : CreditState) (h : Credits)
    → h.credits key ≡ some p
    → h.states p ≡ s
    → s.loading ≡ false
    → ltb_ℤ now s.expires ≡ true
    → (enter key now h).0 ≡ admitted (snapshot s)
unfolding enter
enter-valid key now p s h found same idle valid =
    rw (found, enter) (rw same (rw (idle, valid) refl))

-- A request that has started the load of a key's credit is alone with it: whatever the other requests
-- and the pruning have done since, another request for the key waits and changes nothing; and once
-- the load returns, every request before its expiry is admitted with the returned admission, without
-- another call of GizPay.
pub enter_once :
    (key : String) (now later : ℤ) (p : ℕ) (h g i : Credits) (r : CheckResult)
    → IsAllocated h
    → enter key now h ≡ (loads p, g)
    → Steps p g i
    → later <ℤ r.expires
    → (enter key later i ≡ (waits, i))
      × ((a : CreditAdmission) × ((leave key p (some r) i).0 ≡ some a)
          × ((enter key later (leave key p (some r) i).1).0 ≡ admitted a))
unfolding leave
enter_once key now later p h g i r low e steps valid =
    let l = IsLoading-Steps key p g i steps (enter-IsLoading key now p h g low e) in
    let state : CreditState = record (i.states p) {
      admission = r.admission;
      available = r.available;
      expires = r.expires;
      loading = false;
    } in
    let self : (p == p) ≡ true = (==_iff p p).1 refl in
    let set : (if p == p then state else i.states p) ≡ state = rw self refl in
    (
      IsLoading-waits key later p i l,
      (
        snapshot state,
        refl,
        enter-valid key later p state (set_state p state i) l.points set refl (ground arith),
      ),
    )
