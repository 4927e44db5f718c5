-- ===== src/Credit.antt =====
-- The local credit of GizWay (internal/gizway/protocol.go and handler.go): creditState, admit,
-- snapshot, consumeLocalCredit and pruneCreditStates. The mutex creditMu makes a step of each section
-- that holds it; admit is two steps, before and after its call of GizPay.
pub mod Spending
pub mod Loading
pub mod Once
pub mod Check
pub mod Agreement
mod Tests
mod FundedTests
use Prim.Native.String.{String}
use gizway.Prelude.{
  ℕ, ◌+◌, Bool, true, false, not, ◌&&◌, Option, none, some, List, [], ◌∷◌, ◌==◌, if◌then◌else◌,
}
use gizway.Int.{ℤ, pos, leb_ℤ, ltb_ℤ}
use gizway.Int64.{min_int64, add64, sub64}
use gizway.Text.{str_eq}

pub record CreditAdmission : Type 0 where
  pub account_id : String
  pub subscription_id : String
  pub subscription_key_id : String
  pub product_id : String
  pub billing : String
  pub owner_issuer : String
  pub owner_subject : String
  pub allowed : Bool

-- The channel `wait` is closed exactly while `loading` is false.
pub record CreditState : Type 0 where
  pub admission : CreditAdmission
  pub available : ℤ
  pub expires : ℤ
  pub loading : Bool

-- The map `credits` holds pointers; `fresh` is the next one.
pub record Credits : Type 0 where
  pub states : ℕ → CreditState
  pub credits : String → Option ℕ
  pub fresh : ℕ

pub record CheckResult : Type 0 where
  pub admission : CreditAdmission
  pub available : ℤ
  pub expires : ℤ

abbrev pub no_admission : CreditAdmission
no_admission = record {
  account_id = "";
  subscription_id = "";
  subscription_key_id = "";
  product_id = "";
  billing = "";
  owner_issuer = "";
  owner_subject = "";
  allowed = false;
}

-- `&creditState{}`; its expiry is Go's zero time.
abbrev pub no_state : CreditState
no_state = record { admission = no_admission; available = pos 0; expires = pos 0; loading = false }

unfoldable pub snapshot : CreditState → CreditAdmission
snapshot state = record state.admission {
  allowed = state.admission.allowed && ltb_ℤ (pos 0) state.available;
}

abbrev pub set_state : ℕ → CreditState → Credits → Credits
set_state p state h = record h { states = λ q. if q == p then state else h.states q }

abbrev pub set_credit : String → Option ℕ → Credits → Credits
set_credit key p h = record h { credits = λ k. if str_eq k key then p else h.credits k }

unfoldable pub lookup : String → Credits → Option CreditState
lookup key h = elim (h.credits key) [ none ↦ none | some p ↦ some (h.states p) ]

-- What the first section of admit decides.
pub data Entry : Type 0 where
  waits : Entry
  admitted : CreditAdmission → Entry
  loads : ℕ → Entry

abbrev pub start_load : ℕ → Credits → Entry × Credits
start_load p h = (loads p, set_state p (record (h.states p) { loading = true }) h)

unfoldable pub enter : String → ℤ → Credits → Entry × Credits
unfolding snapshot
enter key now h = elim (h.credits key) [
  | none ↦
      let p = h.fresh in
      start_load p (set_credit key (some p) (record (set_state p no_state h) { fresh = p + 1 }))
  | some p ↦
      if (h.states p).loading
      then (waits, h)
      else if ltb_ℤ now (h.states p).expires
      then (admitted (snapshot (h.states p)), h)
      else start_load p h
]

-- The second section of admit: the call of GizPay has failed (none), or has returned.
unfoldable pub leave : String → ℕ → Option CheckResult → Credits → Option CreditAdmission × Credits
unfolding snapshot
leave key p none h =
    let ended = set_state p (record (h.states p) { loading = false }) h in
    elim (h.credits key) [
      | none ↦ (none, ended)
      | some q ↦ if q == p then (none, set_credit key none ended) else (none, ended)
    ]
leave key p (some r) h =
    let state : CreditState = record (h.states p) {
      admission = r.admission;
      available = r.available;
      expires = r.expires;
      loading = false;
    } in
    (some (snapshot state), set_state p state h)

-- The debit of a state by a positive gross amount.
unfoldable pub debit : ℤ → CreditState → CreditState
debit gross state =
    let left =
      if ltb_ℤ state.available (add64 min_int64 gross)
      then min_int64
      else sub64 state.available gross in
    record state {
      available = left;
      admission = record state.admission {
        allowed = if leb_ℤ left (pos 0) then false else state.admission.allowed;
      };
    }

unfoldable pub consume_local_credit : String → ℤ → Credits → Credits
unfolding debit
consume_local_credit key gross h =
    if leb_ℤ gross (pos 0)
    then h
    else elim (h.credits key) [ none ↦ h | some p ↦ set_state p (debit gross (h.states p)) h ]

-- pruneCreditStates, once per tick.
unfoldable pub prune_credit_states : ℤ → Credits → Credits
prune_credit_states now h = record h {
  credits = λ k. elim (h.credits k) [
    | none ↦ none
    | some p ↦
        if not (h.states p).loading && not (ltb_ℤ now (h.states p).expires) then none else some p
  ];
}
