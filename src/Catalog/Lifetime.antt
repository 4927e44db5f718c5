-- ===== src/Catalog/Lifetime.antt =====
-- The lifetime of a token (fetch, Current and refreshLoop, internal/catalogtoken/manager.go).
use Prim.Native.String.{String}
use gizway.Prelude.{ℕ, ◌^◌, ◌<◌, false, some, ◌≡◌, ap, sym, Option, inl, inr, Bool-cases, arith}
use gizway.Int.{ℤ, pos, negsuc, ◌+ℤ◌, ◌-ℤ◌, ◌≤ℤ◌, ◌<ℤ◌, +ℤ_parts, -ℤ_parts, eq_of_parts}
use gizway.Int64.{mul64, neg64}
use gizway.Int64.Laws.{mul64-pos, neg64-eq--ℤ}
use gizway.Catalog.{
  Token, Config, Manager, Reply, response, TokenBody, ok, time_to_live, second, maximum_ttl, Url,
  new_manager, is_bad_config, is_bad_url, no_token,
}
use gizway.Catalog.Accepted.{IsAccepted}

-- The seconds of a reply, as nanoseconds, are in the range of int64.
pub record IsShort (reply : Reply) : Type 0 where
  pub lasts :
      (status : ℕ) (body : TokenBody)
      → reply ≡ response status (some body)
      → body.expires_in <ℤ pos 9_223_372_037

-- The token expires after the instant, and at most a day and the configured time after it.
pub record Lives (c : Config) (now : ℤ) (t : Token) : Type 0 where
  pub later : now <ℤ t.expires_at
  pub within_ttl : t.expires_at ≤ℤ (now +ℤ c.ttl)
  pub within_day : t.expires_at ≤ℤ (now +ℤ maximum_ttl)

abbrev IsWithin : ℤ → Type 0
IsWithin n = (pos 0 <ℤ n) × (n <ℤ pos 9_223_372_037)

mul64-second : (n : ℤ) → IsWithin n → pos 0 <ℤ mul64 n second
mul64-second (pos n) (above, below) =
    rw (mul64-pos n (10 ^ 9) (omega arith)) (let h : 0 < n = omega arith in omega arith)
mul64-second (negsuc n) (above, below) = absurd (omega arith)

Lives-of_ttl :
    (c : Config) (now d : ℤ) (t : Token)
    → t.expires_at ≡ now +ℤ d
    → pos 0 <ℤ d
    → d ≤ℤ c.ttl
    → d ≤ℤ maximum_ttl
    → Lives c now t
Lives-of_ttl c now d t e above limit day = record {
  later = rw e (omega (arith, +ℤ_parts now d));
  within_ttl = rw e (omega (arith, +ℤ_parts now d, +ℤ_parts now c.ttl));
  within_day = rw e (omega (arith, +ℤ_parts now d, +ℤ_parts now maximum_ttl));
}

-- A token of a reply in range lives for the configured time and a day at most.
pub Lives-fetch :
    (c : Config) (now : ℤ) (reply : Reply) (t : Token)
    → IsShort reply
    → IsAccepted c now reply t
    → Lives c now t
Lives-fetch c now reply t short a =
    let b = a.acceptable in
    Lives-of_ttl c now (time_to_live a.body) t (ap (λ t. t.expires_at) a.made)
      (mul64-second a.body.expires_in (b.lasts, short.lasts a.status a.body a.came)) b.at_most_ttl
      b.at_most_day

-- What New demands of the times.
pub record HasTimes (c : Config) : Type 0 where
  pub ttl_above : pos 0 <ℤ c.ttl
  pub ttl_below : c.ttl ≤ℤ maximum_ttl
  pub before_above : pos 0 <ℤ c.refresh_before
  pub before_below : c.refresh_before <ℤ c.ttl

pub HasTimes-new_manager :
    (parse : String → Option Url) (c : Config) (m : Manager)
    → new_manager parse c ≡ ok m
    → HasTimes c × (m ≡ record { config = c; token = no_token; started = false; stopped = false })
unfolding new_manager is_bad_config
HasTimes-new_manager parse c m h = elim (Bool-cases (is_bad_config c)) [
  | inl bad ↦ absurd (cc (rw bad at h))
  | inr good ↦ elim (Bool-cases (is_bad_url (parse c.token_url))) [
    | inl bad ↦ absurd (cc (rw (good, bad) at h))
    | inr fine ↦ (
      record {
        ttl_above = ground arith;
        ttl_below = ground arith;
        before_above = ground arith;
        before_below = ground arith;
      },
      sym (cc (rw (good, fine) at h)),
    )
  ]
]

-- The instant from which on the token is to be refreshed.
pub due_parts :
    (c : Config) (t : Token)
    → HasTimes c
    → t.expires_at +ℤ neg64 c.refresh_before ≡ t.expires_at -ℤ c.refresh_before
due_parts c t h =
    let above = h.before_above in
    let below = h.before_below in
    let most = h.ttl_below in
    rw
      (neg64-eq--ℤ c.refresh_before (
        omega (arith, -ℤ_parts (pos 0) c.refresh_before),
        omega (arith, -ℤ_parts (pos 0) c.refresh_before),
      ))
      (eq_of_parts _ _ (
        omega (
          arith,
          -ℤ_parts (pos 0) c.refresh_before,
          +ℤ_parts t.expires_at (pos 0 -ℤ c.refresh_before),
          -ℤ_parts t.expires_at c.refresh_before,
        )))
