-- ===== src/Credit/Tests.antt =====
-- Spending of a small credit (consumeLocalCredit, internal/gizway/protocol.go).

use gizway.Prelude.{none, some, true, List, [], ◌∷◌, ◌≡◌, refl, arith}
use gizway.Int.{ℤ, pos, ◌<ℤ◌}
use gizway.Credit.Loading.{after, stay, pruning}
use gizway.Credit.Once.{enter_once}
use gizway.Credit.{
  CreditAdmission, CheckResult, waits, admitted, enter, leave, prune_credit_states, CreditState,
  Credits, no_admission, no_state, snapshot, lookup,
}
use gizway.Credit.Spending.{spent, consume_all, snapshot-consume_all}

abbrev loaded : CreditState
loaded = record no_state {
  admission = record no_admission { allowed = true };
  available = pos 100;
  expires = pos 50;
}

abbrev credits : Credits
credits = record { states = λ p. loaded; credits = λ k. some 0; fresh = 1 }

abbrev amounts : List ℤ
amounts = pos 60 ∷ pos 0 ∷ pos 30 ∷ []

loaded_found : lookup "h1" credits ≡ some loaded
unfolding lookup
loaded_found = refl

snapshot-consume_all_example :
    (t : CreditState) × (lookup "h1" (consume_all "h1" amounts credits) ≡ some t)
    × ((snapshot t).allowed ≡ true
        → (loaded.admission.allowed ≡ true) × (spent amounts <ℤ loaded.available))
snapshot-consume_all_example =
    snapshot-consume_all "h1" amounts credits loaded loaded_found (omega arith, omega arith)
      ((omega arith, omega arith), ((omega arith, omega arith), ((omega arith, omega arith), tt)))

abbrev nothing : Credits
nothing = record { states = λ p. no_state; credits = λ k. none; fresh = 0 }

abbrev result : CheckResult
result = record {
  admission = record no_admission { allowed = true };
  available = pos 100;
  expires = pos 50;
}

enter_once_example :
    (enter "h1" (pos 20) (prune_credit_states (pos 20) (enter "h1" (pos 10) nothing).1)
      ≡ (waits, prune_credit_states (pos 20) (enter "h1" (pos 10) nothing).1))
    × ((a : CreditAdmission) × ((leave "h1" 0
            (some result)
            (prune_credit_states (pos 20) (enter "h1" (pos 10) nothing).1)).0
          ≡ some a)
        × ((enter "h1"
              (pos 20)
              (leave "h1" 0
                (some result)
                (prune_credit_states (pos 20) (enter "h1" (pos 10) nothing).1)).1).0
            ≡ admitted a))
unfolding enter
enter_once_example =
    enter_once "h1" (pos 10) (pos 20) 0 nothing (enter "h1" (pos 10) nothing).1
      (prune_credit_states (pos 20) (enter "h1" (pos 10) nothing).1) result (λ k q e. absurd (cc))
      refl
      (after (stay (enter "h1" (pos 10) nothing).1)
        (pruning (pos 20) (enter "h1" (pos 10) nothing).1))
      (omega arith)
