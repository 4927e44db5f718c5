-- ===== src/Catalog/Accepted.antt =====
-- What fetch accepts (internal/catalogtoken/manager.go).

use gizway.Prelude.{
  ℕ, ◌≤◌, ◌<◌, Bool, true, false, not, ◌||◌, Option, none, some, ◌≡◌, ◌↔◌, refl, inl, inr,
  Bool-cases, ltb, arith,
}
use gizway.Int.{ℤ, pos, ◌+ℤ◌, ◌≤ℤ◌, ◌<ℤ◌, ltb_ℤ, leb_ℤ}
use gizway.Text.{str_eq, str_eq_iff}
use gizway.Catalog.{
  Token, Config, Reply, lost, response, TokenBody, not_decoded, ok, err, accept, fetch, is_opaque,
  validates, time_to_live, maximum_ttl,
}
use gizway.Catalog.Parts.{IsJwt, is_opaque_iff}

-- What a body of a token that is accepted has.
pub record IsAcceptable (c : Config) (body : TokenBody) : Type 0 where
  pub jwt : IsJwt body.access_token
  pub bearer : body.token_type ≡ "Bearer"
  pub lasts : pos 0 <ℤ body.expires_in
  pub at_most_day : time_to_live body ≤ℤ maximum_ttl
  pub at_most_ttl : time_to_live body ≤ℤ c.ttl
  pub valid : validates c.validate_jwt body.access_token ≡ true

abbrev pub token_of : ℤ → TokenBody → Token
token_of now body = record {
  access_token = body.access_token;
  token_type = body.token_type;
  expires_at = now +ℤ time_to_live body;
}

-- The four tests of a body.
abbrev is_bad_type : TokenBody → Bool
is_bad_type body = not (str_eq body.token_type "Bearer") || leb_ℤ body.expires_in (pos 0)

abbrev is_too_long : Config → TokenBody → Bool
is_too_long c body = ltb_ℤ maximum_ttl (time_to_live body) || ltb_ℤ c.ttl (time_to_live body)

IsAcceptable-of_tests :
    (c : Config) (body : TokenBody)
    → is_opaque body.access_token ≡ false
    → is_bad_type body ≡ false
    → is_too_long c body ≡ false
    → not (validates c.validate_jwt body.access_token) ≡ false
    → IsAcceptable c body
IsAcceptable-of_tests c body clear typed short valid = record {
  jwt = (is_opaque_iff body.access_token).0 clear;
  bearer = (str_eq_iff body.token_type "Bearer").0 (ground arith);
  lasts = ground arith;
  at_most_day = ground arith;
  at_most_ttl = ground arith;
  valid = ground arith;
}

accept-ok :
    (c : Config) (now : ℤ) (body : TokenBody) (t : Token)
    → accept c now body ≡ ok t
    → IsAcceptable c body × (t ≡ token_of now body)
unfolding accept
accept-ok c now body t h = elim (Bool-cases (is_opaque body.access_token)) [
  | inl e1 ↦ absurd (cc (rw e1 at h))
  | inr e1 ↦ elim (Bool-cases (is_bad_type body)) [
    | inl e2 ↦ absurd (cc (rw (e1, e2) at h))
    | inr e2 ↦ elim (Bool-cases (is_too_long c body)) [
      | inl e3 ↦ absurd (cc (rw (e1, e2, e3) at h))
      | inr e3 ↦ elim (Bool-cases (not (validates c.validate_jwt body.access_token))) [
        | inl e4 ↦ absurd (cc (rw (e1, e2, e3, e4) at h))
        | inr e4 ↦ (IsAcceptable-of_tests c body e1 e2 e3 e4, cc (rw (e1, e2, e3, e4) at h))
      ]
    ]
  ]
]

accept-IsAcceptable :
    (c : Config) (now : ℤ) (body : TokenBody)
    → IsAcceptable c body
    → accept c now body ≡ ok (token_of now body)
unfolding accept
accept-IsAcceptable c now body a =
    let lasts = a.lasts in
    let day = a.at_most_day in
    let ttl = a.at_most_ttl in
    let no1 : leb_ℤ body.expires_in (pos 0) ≡ false = ground arith in
    let no2 : ltb_ℤ maximum_ttl (time_to_live body) ≡ false = ground arith in
    let no3 : ltb_ℤ c.ttl (time_to_live body) ≡ false = ground arith in
    rw
      (
        (is_opaque_iff body.access_token).1 a.jwt,
        (str_eq_iff body.token_type "Bearer").1 a.bearer,
        no1,
        no2,
        no3,
        a.valid,
      )
      refl

-- What fetch accepts of a reply of the token endpoint.
pub record IsAccepted (c : Config) (now : ℤ) (reply : Reply) (t : Token) : Type 0 where
  pub status : ℕ
  pub body : TokenBody
  pub came : reply ≡ response status (some body)
  pub succeeded : (200 ≤ status) × (status < 300)
  pub acceptable : IsAcceptable c body
  pub made : t ≡ token_of now body

fetch-ok :
    (c : Config) (now : ℤ) (reply : Reply) (t : Token)
    → fetch c now reply ≡ ok t
    → IsAccepted c now reply t
unfolding fetch
fetch-ok c now lost t h = absurd (cc)
fetch-ok c now (response status body) t h =
    elim (Bool-cases (ltb status 200 || not (ltb status 300))) [
      | inl bad ↦ absurd (cc (rw bad at h))
      | inr good ↦ of_body body good (rw good at h)
    ]
  where
    of_body :
        (b : Option TokenBody)
        → (ltb status 200 || not (ltb status 300)) ≡ false
        → elim b [ none ↦ err not_decoded | some b ↦ accept c now b ] ≡ ok t
        → IsAccepted c now (response status b) t
    of_body none good h = absurd (cc)
    of_body (some b) good h =
        let (acceptable, made) = accept-ok c now b t h in
        record {
          status = status;
          body = b;
          came = refl;
          succeeded = ground arith;
          acceptable = acceptable;
          made = made;
        }

fetch-IsAccepted :
    (c : Config) (now : ℤ) (reply : Reply) (t : Token)
    → IsAccepted c now reply t
    → fetch c now reply ≡ ok t
unfolding fetch
fetch-IsAccepted c now reply t a =
    let (above, below) = a.succeeded in
    let good : (ltb a.status 200 || not (ltb a.status 300)) ≡ false = ground arith in
    rw (a.came, good, accept-IsAcceptable c now a.body a.acceptable, a.made) refl

-- fetch makes a token exactly of a response with a status from 200 to 299 and a body that decodes,
-- whose access token is three parts with dots between them and passes the validator, whose type is
-- Bearer, and whose time to live, as an int64 of nanoseconds, is at most a day and the configured one
-- and is of a positive number of seconds; the token is the body's and expires that time after the call.
pub fetch_iff :
    (c : Config) (now : ℤ) (reply : Reply) (t : Token)
    → (fetch c now reply ≡ ok t) ↔ IsAccepted c now reply t
fetch_iff c now reply t = (fetch-ok c now reply t, fetch-IsAccepted c now reply t)
