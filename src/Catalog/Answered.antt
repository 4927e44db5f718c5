-- ===== src/Catalog/Answered.antt =====
-- What a call of Current (internal/catalogtoken/manager.go) leaves and returns.

use gizway.Prelude.{true, ◌≡◌, ap, subst, ltb→lt, refl, inl, inr, Bool-cases, arith}
use gizway.Int.{ℤ, ◌+ℤ◌, ◌-ℤ◌, ◌≤ℤ◌, ◌<ℤ◌, ltb_ℤ, +ℤ_parts, -ℤ_parts}
use gizway.Int64.{neg64}
use gizway.Catalog.{
  Token, Config, Manager, Reply, Result, ok, err, fetch, maximum_ttl, is_present, is_current,
  is_alive, refresh, current, validates,
}
use gizway.Catalog.Parts.{IsJwt}
use gizway.Catalog.Accepted.{IsAccepted, fetch_iff}
use gizway.Catalog.Lifetime.{IsShort, HasTimes, Lives-fetch, due_parts}

-- A token that fetch has made no later than the instant.
pub record IsIssued (c : Config) (now : ℤ) (t : Token) : Type 0 where
  pub jwt : IsJwt t.access_token
  pub bearer : t.token_type ≡ "Bearer"
  pub valid : validates c.validate_jwt t.access_token ≡ true
  pub within_ttl : t.expires_at ≤ℤ (now +ℤ c.ttl)
  pub within_day : t.expires_at ≤ℤ (now +ℤ maximum_ttl)

pub record IsSound (c : Config) (now : ℤ) (m : Manager) : Type 0 where
  pub same : m.config ≡ c
  pub issued : is_present m.token ≡ true → IsIssued c now m.token

IsIssued-later :
    {c : Config} {before now : ℤ} {t : Token}
    → before ≤ℤ now
    → IsIssued c before t
    → IsIssued c now t
IsIssued-later {c} {before} {now} {t} le h =
    let ttl = h.within_ttl in
    let day = h.within_day in
    record {
      jwt = h.jwt;
      bearer = h.bearer;
      valid = h.valid;
      within_ttl = omega (arith, +ℤ_parts before c.ttl, +ℤ_parts now c.ttl);
      within_day = omega (arith, +ℤ_parts before maximum_ttl, +ℤ_parts now maximum_ttl);
    }

IsIssued-fetch :
    (c : Config) (now : ℤ) (reply : Reply) (t : Token)
    → IsShort reply
    → IsAccepted c now reply t
    → IsIssued c now t
IsIssued-fetch c now reply t short a =
    let lives = Lives-fetch c now reply t short a in
    let b = a.acceptable in
    record {
      jwt = rw (ap (λ t. t.access_token) a.made) b.jwt;
      bearer = rw (ap (λ t. t.token_type) a.made) b.bearer;
      valid = rw (ap (λ t. t.access_token) a.made) b.valid;
      within_ttl = lives.within_ttl;
      within_day = lives.within_day;
    }

-- A token that a call may return at the instant.
pub record IsServed (c : Config) (now : ℤ) (t : Token) : Type 0 where
  pub issued : IsIssued c now t
  pub alive : now <ℤ t.expires_at

-- What one call of Current leaves and returns.
pub record IsAnswered (c : Config) (now : ℤ) (r : Result Token × Manager) : Type 0 where
  pub sound : IsSound c now r.1
  pub served : (t : Token) → r.0 ≡ ok t → IsServed c now t

ok_inj {ℓ} : {A : Type ℓ} {a b : A} → ok a ≡ ok b → a ≡ b
ok_inj h = cc (h)

pub IsSound-later :
    {c : Config} {before now : ℤ} {m : Manager}
    → IsSound c before m
    → before ≤ℤ now
    → IsSound c now m
IsSound-later s le = record { same = s.same; issued = λ there. IsIssued-later le (s.issued there) }

is_alive_parts :
    (t : Token) (now : ℤ) → is_alive t now ≡ true → (is_present t ≡ true) × (now <ℤ t.expires_at)
unfolding is_alive
is_alive_parts t now h = ground arith

pub before_due_of_is_current :
    (c : Config) (m : Manager) (now : ℤ)
    → HasTimes c
    → m.config ≡ c
    → is_current m now ≡ true
    → now <ℤ (m.token.expires_at -ℤ c.refresh_before)
unfolding is_current
before_due_of_is_current c m now times same h =
    let test : ltb_ℤ now (m.token.expires_at +ℤ neg64 c.refresh_before) ≡ true =
      rw (← same) (ground arith) in
    ltb→lt _ _ (rw (← due_parts c m.token times) test)

pub alive_of_is_current :
    (c : Config) (m : Manager) (now : ℤ)
    → HasTimes c
    → m.config ≡ c
    → is_current m now ≡ true
    → (is_present m.token ≡ true) × (now <ℤ m.token.expires_at)
unfolding is_current
alive_of_is_current c m now times same h =
    let above = times.before_above in
    let early = before_due_of_is_current c m now times same h in
    (ground arith, omega (arith, early, above, -ℤ_parts m.token.expires_at c.refresh_before))

kept_token :
    {c : Config} {before now : ℤ} {m : Manager}
    → IsSound c before m
    → before ≤ℤ now
    → is_present m.token ≡ true
    → now <ℤ m.token.expires_at
    → IsAnswered c now (ok m.token, m)
kept_token {c} {before} {now} {m} s le there alive = record {
  sound = IsSound-later s le;
  served = λ t e.
      subst (IsServed c now) (ok_inj e)
        (record { issued = IsIssued-later le (s.issued there); alive = alive });
}

IsAnswered-refresh :
    (c : Config) (before now : ℤ) (m : Manager) (reply : Reply) (r : Result Token)
    → IsSound c before m
    → before ≤ℤ now
    → ((t : Token) → r ≡ ok t → IsIssued c now t × (now <ℤ t.expires_at))
    → IsAnswered c now (refresh m now r)
unfolding refresh
IsAnswered-refresh c before now m reply (ok t) s le fetched =
    let (issued, alive) = fetched t refl in
    record {
      sound = record { same = s.same; issued = λ h. issued };
      served = λ u e. subst (IsServed c now) (ok_inj e) (record { issued = issued; alive = alive });
    }
IsAnswered-refresh c before now m reply (err e) s le fetched =
    elim (Bool-cases (is_alive m.token now)) [
      | inl alive ↦
          let (there, later) = is_alive_parts m.token now alive in
          rw alive (kept_token s le there later)
      | inr dead ↦ rw dead (record { sound = IsSound-later s le; served = λ t h. absurd (cc (h)) })
    ]

pub IsAnswered-current :
    (c : Config) (before now : ℤ) (m : Manager) (reply : Reply)
    → HasTimes c
    → IsSound c before m
    → before ≤ℤ now
    → IsShort reply
    → IsAnswered c now (current m now reply)
unfolding current
IsAnswered-current c before now m reply times s le short = elim (Bool-cases (is_current m now)) [
  | inl fresh ↦
      let (there, alive) = alive_of_is_current c m now times s.same fresh in
      rw fresh (kept_token s le there alive)
  | inr stale ↦ rw stale (
      IsAnswered-refresh c before now m reply (fetch m.config now reply) s le λ t h.
        let accepted = (fetch_iff m.config now reply t).0 h in
        let a = subst (λ d. IsAccepted d now reply t) s.same accepted in
        (IsIssued-fetch c now reply t short a, (Lives-fetch c now reply t short a).later))
]
