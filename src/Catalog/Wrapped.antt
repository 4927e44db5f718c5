-- ===== src/Catalog/Wrapped.antt =====
-- The product of the seconds of a token response in int64 (fetch, internal/catalogtoken/manager.go).

use gizway.Prelude.{ℕ, ◌^◌, ◌≤◌, true, ◌≡◌, some, refl, arith}
use gizway.Int.{ℤ, pos, ◌<ℤ◌, *ℤ-pos, +ℤ_parts}
use gizway.Int64.{mul64, wrap64}
use gizway.Catalog.{Config, response, TokenBody, ok, fetch, validates, time_to_live, second}
use gizway.Catalog.Parts.{IsJwt}
use gizway.Catalog.Accepted.{IsAcceptable, fetch_iff, token_of}
use gizway.Catalog.Lifetime.{HasTimes}

mul64-Wraps : (n : ℕ) → 9_223_372_037 ≤ n → n ≤ 18_446_744_073 → mul64 (pos n) second <ℤ pos 0
unfolding mul64 wrap64
mul64-Wraps n above below = rw (*ℤ-pos n (10 ^ 9)) (ground arith)

-- From 9223372037 to 18446744073 seconds, the product is negative, so it is below each limit: a
-- response that is in order otherwise gives a token that expires before the call.
pub fetch-Wraps :
    (c : Config) (now : ℤ) (n : ℕ) (body : TokenBody)
    → HasTimes c
    → body.expires_in ≡ pos n
    → 9_223_372_037 ≤ n
    → n ≤ 18_446_744_073
    → IsJwt body.access_token
    → body.token_type ≡ "Bearer"
    → validates c.validate_jwt body.access_token ≡ true
    → (fetch c now (response 200 (some body)) ≡ ok (token_of now body))
      × ((token_of now body).expires_at <ℤ now)
fetch-Wraps c now n body times e above below jwt bearer valid =
    let left : time_to_live body <ℤ pos 0 = rw e (mul64-Wraps n above below) in
    let limit = times.ttl_above in
    let acceptable : IsAcceptable c body = record {
      jwt = jwt;
      bearer = bearer;
      lasts = rw e (omega arith);
      at_most_day = omega arith;
      at_most_ttl = omega arith;
      valid = valid;
    } in
    (
      (fetch_iff c now (response 200 (some body)) (token_of now body)).1 (record {
        status = 200;
        body = body;
        came = refl;
        succeeded = (omega arith, omega arith);
        acceptable = acceptable;
        made = refl;
      }),
      omega (arith, +ℤ_parts now (time_to_live body)),
    )
