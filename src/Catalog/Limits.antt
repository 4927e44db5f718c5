-- ===== src/Catalog/Limits.antt =====
-- What fetch (internal/catalogtoken/manager.go) accepts of the replies whose seconds fit int64 as
-- nanoseconds, in exact integers.
use gizway.Prelude.{ℕ, ◌^◌, ◌≤◌, ◌<◌, true, some, ◌≡◌, ◌↔◌, sym, ◌∙◌, arith}
use gizway.Int.{ℤ, pos, negsuc, ◌+ℤ◌, ◌*ℤ◌, ◌≤ℤ◌, ◌<ℤ◌, *ℤ-pos}
use gizway.Int64.{mul64}
use gizway.Int64.Laws.{mul64-pos}
use gizway.Catalog.{
  Token, Config, Reply, response, TokenBody, ok, fetch, validates, second, maximum_ttl,
}
use gizway.Catalog.Parts.{IsJwt}
use gizway.Catalog.Accepted.{IsAccepted, fetch_iff}
use gizway.Catalog.Lifetime.{IsShort}

-- A successful response with a three-part, validated token of type Bearer, whose positive number of
-- seconds is at most a day and at most the configured time; the token expires so many seconds after
-- the call.
pub record IsGranted (c : Config) (now : ℤ) (reply : Reply) (t : Token) : Type 0 where
  pub status : ℕ
  pub body : TokenBody
  pub came : reply ≡ response status (some body)
  pub succeeded : (200 ≤ status) × (status < 300)
  pub jwt : IsJwt body.access_token
  pub bearer : body.token_type ≡ "Bearer"
  pub valid : validates c.validate_jwt body.access_token ≡ true
  pub lasts : pos 0 <ℤ body.expires_in
  pub at_most_day : body.expires_in ≤ℤ pos 86400
  pub at_most_ttl : body.expires_in *ℤ pos (10 ^ 9) ≤ℤ c.ttl
  pub made : t ≡ record {
    access_token = body.access_token;
    token_type = body.token_type;
    expires_at = now +ℤ body.expires_in *ℤ pos (10 ^ 9);
  }

exact_seconds : (n : ℤ) → pos 0 <ℤ n → n <ℤ pos 9_223_372_037 → mul64 n second ≡ n *ℤ pos (10 ^ 9)
exact_seconds (pos n) above below = mul64-pos n (10 ^ 9) (omega arith) ∙ sym (*ℤ-pos n (10 ^ 9))
exact_seconds (negsuc n) above below = absurd (omega arith)

day_iff : (n : ℤ) → pos 0 <ℤ n → (n *ℤ pos (10 ^ 9) ≤ℤ maximum_ttl) ↔ (n ≤ℤ pos 86400)
day_iff (pos n) above = rw (*ℤ-pos n (10 ^ 9)) ((λ h. omega arith), (λ h. omega arith))
day_iff (negsuc n) above = absurd (omega arith)

module _ (c : Config) (now : ℤ) (reply : Reply) (t : Token) (short : IsShort reply) where
  IsGranted-IsAccepted : IsAccepted c now reply t → IsGranted c now reply t
  IsGranted-IsAccepted h =
      let a = h.acceptable in
      let exact = exact_seconds h.body.expires_in a.lasts (short.lasts h.status h.body h.came) in
      record {
        status = h.status;
        body = h.body;
        came = h.came;
        succeeded = h.succeeded;
        jwt = a.jwt;
        bearer = a.bearer;
        valid = a.valid;
        lasts = a.lasts;
        at_most_day = (day_iff h.body.expires_in a.lasts).0 (rw exact at a.at_most_day);
        at_most_ttl = rw exact at a.at_most_ttl;
        made = rw (← exact) h.made;
      }

  IsAccepted-IsGranted : IsGranted c now reply t → IsAccepted c now reply t
  IsAccepted-IsGranted h =
      let exact = exact_seconds h.body.expires_in h.lasts (short.lasts h.status h.body h.came) in
      record {
        status = h.status;
        body = h.body;
        came = h.came;
        succeeded = h.succeeded;
        acceptable = record {
          jwt = h.jwt;
          bearer = h.bearer;
          lasts = h.lasts;
          at_most_day = rw exact ((day_iff h.body.expires_in h.lasts).1 h.at_most_day);
          at_most_ttl = rw exact h.at_most_ttl;
          valid = h.valid;
        };
        made = rw exact h.made;
      }

-- Of a reply whose seconds fit int64 as nanoseconds, fetch makes a token exactly where the response has
-- a status from 200 to 299 and a body that decodes, whose access token is three parts with dots between
-- them and passes the validator, whose type is Bearer, and whose positive number of seconds is at most
-- 86400 and at most the configured time; the token is the body's and expires so many seconds after the
-- call.
pub fetch_exact_iff :
    (c : Config) (now : ℤ) (reply : Reply) (t : Token)
    → IsShort reply
    → (fetch c now reply ≡ ok t) ↔ IsGranted c now reply t
fetch_exact_iff c now reply t short = (
  (λ h. IsGranted-IsAccepted c now reply t short ((fetch_iff c now reply t).0 h)),
  (λ h. (fetch_iff c now reply t).1 (IsAccepted-IsGranted c now reply t short h)),
)
