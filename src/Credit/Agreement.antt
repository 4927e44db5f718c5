-- ===== src/Credit/Agreement.antt =====
-- The credit of a key in GizWay against the ledger of GizPay: checkCredit and admit
-- (internal/gizway/protocol.go) on an answer of creditCheck (internal/gizpay/handler.go).
use Prim.Native.String.{String}
use gizway.Prelude.{
  ℕ, ◌^◌, true, false, Option, none, some, ◌==◌, ◌≡◌, refl, ap, subst, sym, ◌∙◌, inl, inr,
  Bool-cases, Option-cases, ◌⊎◌, ==_iff, arith, if◌then◌else◌,
}
use gizway.Int.{ℤ, pos, ◌+ℤ◌}
use gizway.Int64.{mul64}
use gizway.Text.{str_eq}
use gizway.Gizpay.Store.{Store}
use gizway.Gizpay.Request.{World, done, Response, Body, failure, credit, CreditBody}
use gizway.Gizpay.Triple.{Post-of_done}
use gizway.Gizpay.CreditCheck.{credit_check}
use gizway.Gizpay.CreditCheck.Decision.{Funds, credit_check-Decides}
use gizway.Credit.{CreditAdmission, CreditState, Credits, CheckResult, snapshot, leave}
use gizway.Credit.Check.{
  CreditAnswer, CreditReply, refused, answered, working, check_result, has_bad_metadata, read_reply,
  check_credit, result_of,
}

-- A response of GizPay as GizWay reads it; `size` is what was read of an error.
abbrev pub answer_of : CreditBody → CreditAnswer
answer_of b = record {
  status = if b.allowed then "allowed" else "denied";
  product_id = b.product_id;
  billing_mode = b.billing_mode;
  available = b.available;
  recheck_after_seconds = b.recheck_after_seconds;
  account_id = b.account_id;
  subscription_id = b.subscription_id;
  subscription_key_id = b.subscription_key_id;
  owner_issuer = b.owner_issuer;
  owner_subject = b.owner_subject;
  checked_at = some b.checked_at;
}

abbrev pub wire_body : Option ℕ → ℕ → Body → CreditReply
wire_body size status (credit b) = answered (some (answer_of b))
wire_body size status (failure code) = refused status size (some code)
wire_body size status _ = refused status size none

abbrev pub wire : Option ℕ → Response → CreditReply
wire size r = wire_body size r.status r.body

-- What admit leaves and returns when the call has returned.
abbrev pub leaves :
    String → ℕ → String → Option ℕ → Response → Credits → Option CreditAdmission × Credits
leaves hmac p url size r h = leave hmac p (result_of (check_credit url working (wire size r))) h

leave-none : (key : String) (p : ℕ) (h : Credits) → (leave key p none h).0 ≡ none
unfolding leave
leave-none key p h = elim (Option-cases (h.credits key)) [
  | inl e ↦ rw (leave, e) refl
  | inr (q, e) ↦ elim (Bool-cases (q == p)) [
    | inl same ↦ rw (leave, e) (rw same refl)
    | inr other ↦ rw (leave, e) (rw other refl)
  ]
]

check_cases :
    (url : String) (r : CreditAnswer)
    → (result_of (check_credit url working (answered (some r))) ≡ none)
      ⊎ (result_of (check_credit url working (answered (some r))) ≡ some (check_result r))
unfolding check_credit read_reply
check_cases url r = elim (Bool-cases (str_eq url "")) [
  | inl blank ↦ inl (rw blank refl)
  | inr there ↦ elim (Bool-cases (has_bad_metadata r)) [
    | inl bad ↦ inl (rw (there, bad) refl)
    | inr good ↦ inr (rw (there, good) refl)
  ]
]

-- An admission that rests on the funds of the HMAC's subscription, and the credit that is cached.
pub record IsFunded (hmac : String) (recheck : ℤ) (s : Store) (a : CreditAdmission)
    (c : CreditState) : Type 0 where
  pub body : CreditBody
  pub funds : Funds hmac s body
  pub account : a.account_id ≡ body.account_id
  pub subscription : a.subscription_id ≡ body.subscription_id
  pub cached : c.available ≡ body.available
  pub until : c.expires ≡ body.checked_at +ℤ mul64 recheck (pos (10 ^ 9))

allowed_of_answer :
    (b : CreditBody) → str_eq (answer_of b).status "allowed" ≡ true → b.allowed ≡ true
allowed_of_answer b h = elim (Bool-cases b.allowed) [ inl e ↦ e | inr e ↦ absurd (cc (rw e at h)) ]

-- The state that admit stores.
abbrev loaded_state : CheckResult → CreditState
loaded_state r = record {
  admission = r.admission;
  available = r.available;
  expires = r.expires;
  loading = false;
}

leave-some :
    (key : String) (p : ℕ) (r : CheckResult) (h : Credits)
    → ((leave key p (some r) h).0 ≡ some (snapshot (loaded_state r)))
      × ((leave key p (some r) h).1.states p ≡ loaded_state r)
unfolding leave
leave-some key p r h = (refl, rw ((==_iff p p).1 refl) refl)

loaded-IsFunded :
    (hmac : String) (b : CreditBody) (recheck : ℤ) (s : Store)
    → (b.allowed ≡ true → Funds hmac s b)
    → b.recheck_after_seconds ≡ recheck
    → (snapshot (loaded_state (check_result (answer_of b)))).allowed ≡ true
    → IsFunded hmac recheck s
        (snapshot (loaded_state (check_result (answer_of b))))
        (loaded_state (check_result (answer_of b)))
unfolding snapshot check_result
loaded-IsFunded hmac b recheck s funds again allowed = record {
  body = b;
  funds = funds (allowed_of_answer b (ground arith));
  account = refl;
  subscription = refl;
  cached = refl;
  until = ap (λ n. b.checked_at +ℤ mul64 n (pos (10 ^ 9))) again;
}

some_inj {ℓ} : {A : Type ℓ} {a b : A} → some a ≡ some b → a ≡ b
some_inj h = cc (h)

answered-IsFunded :
    (hmac : String) (p : ℕ) (url : String) (h : Credits) (b : CreditBody) (recheck : ℤ) (s : Store)
    (a : CreditAdmission) (o : Option CheckResult)
    → (o ≡ none) ⊎ (o ≡ some (check_result (answer_of b)))
    → (b.allowed ≡ true → Funds hmac s b)
    → b.recheck_after_seconds ≡ recheck
    → (leave hmac p o h).0 ≡ some a
    → a.allowed ≡ true
    → IsFunded hmac recheck s a ((leave hmac p o h).1.states p)
answered-IsFunded hmac p url h b recheck s a o (inl gone) funds again e allowed =
    absurd (cc (leave-none hmac p h, rw gone at e))
answered-IsFunded hmac p url h b recheck s a o (inr came) funds again e allowed =
    let r = check_result (answer_of b) in
    let (answer, state) = leave-some hmac p r h in
    let same : snapshot (loaded_state r) ≡ a = some_inj (sym answer ∙ rw came at e) in
    rw (came, state)
      (subst (λ a. IsFunded hmac recheck s a (loaded_state r)) same
        (loaded-IsFunded hmac b recheck s funds again (ap (λ a. a.allowed) same ∙ allowed)))

-- A request that GizWay admits, on the response of a credit check that has gone through in GizPay, is
-- of an active key, subscription and product in GizPay's store, whose account has a positive ledger
-- balance; the admission names this account, the cached credit is this balance, and it expires the
-- interval of GizPay after the check.
pub admission-IsFunded :
    (recheck : ℤ) (hmac : String) (w : World) (r : Response) (p : ℕ) (url : String)
    (size : Option ℕ) (h : Credits) (a : CreditAdmission)
    → (credit_check recheck (some hmac) w).0 ≡ done r
    → (leaves hmac p url size r h).0 ≡ some a
    → a.allowed ≡ true
    → IsFunded hmac recheck w.store a ((leaves hmac p url size r h).1.states p)
admission-IsFunded recheck hmac w r p url size h a went e allowed =
    let (_, (b, ok, funds, _, _, again, _)) =
      Post-of_done _ (credit_check recheck (some hmac) w) r (credit_check-Decides recheck hmac w)
        went in
    let wired : wire size r ≡ answered (some (answer_of b)) = rw ok refl in
    let step : leaves hmac p url size r h
        ≡ leave hmac p (result_of (check_credit url working (answered (some (answer_of b))))) h =
      ap (λ x. leave hmac p (result_of (check_credit url working x)) h) wired in
    rw step (
      answered-IsFunded hmac p url h b recheck w.store a _ (check_cases url (answer_of b)) funds
        again (rw step at e) allowed)
