-- ===== src/Catalog.antt =====
-- The access token of the Public Catalog (internal/catalogtoken/manager.go): New, Start, Current,
-- fetch and the loop of refreshes. An instant is a number of nanoseconds; a duration is an int64 of
-- nanoseconds. The mutex of the manager makes one step of each call of Current. The HTTP client, the
-- JSON decoder, url.Parse and the clock are parameters: what they return is an argument.
pub mod Parts
pub mod Accepted
pub mod Answered
pub mod History
pub mod Lifetime
pub mod Limits
pub mod Outage
pub mod Due
pub mod Wrapped
mod Tests
use Prim.Native.String.{String}
use gizway.Prelude.{
  ℕ, ◌*◌, ◌^◌, Bool, true, false, not, ◌&&◌, ◌||◌, Option, none, some, List, [], ◌∷◌, ltb, ◌==◌,
  if◌then◌else◌,
}
use gizway.Int.{ℤ, pos, ◌+ℤ◌, ◌-ℤ◌, ltb_ℤ, leb_ℤ}
use gizway.Int64.{max_int64, min_int64, mul64, neg64}
use gizway.Text.{str_eq, codes, split}

pub record Token : Type 0 where
  pub access_token : String
  pub token_type : String
  pub expires_at : ℤ

-- `Token{}`, with Go's zero time.
abbrev pub no_token : Token
no_token = record { access_token = ""; token_type = ""; expires_at = pos 0 }

-- The JWT validator may be nil.
pub record Config : Type 0 where
  pub token_url : String
  pub client_id : String
  pub client_secret : String
  pub scope : String
  pub ttl : ℤ
  pub refresh_before : ℤ
  pub validate_jwt : Option (String → Bool)

-- `token` is cached; `started` and `stopped` stand for the channels of the loop.
pub record Manager : Type 0 where
  pub config : Config
  pub token : Token
  pub started : Bool
  pub stopped : Bool

pub data Failure : Type 0 where
  bad_configuration bad_url already_started : Failure
  no_response not_decoded opaque_token invalid_token ttl_exceeded refused_token : Failure
  bad_status : ℕ → Failure

pub data Result {ℓ} (A : Type ℓ) : Type ℓ where
  ok : A → Result A
  err : Failure → Result A

infixl 5 ◌>>=◌
abbrev pub ◌>>=◌ {ℓ κ} : {A : Type ℓ} {B : Type κ} → Result A → (A → Result B) → Result B
ok a >>= f = f a
err e >>= f = err e

abbrev pub refuse_if : Bool → Failure → Result Bool
refuse_if true e = err e
refuse_if false e = ok true

abbrev pub second : ℤ
second = pos (10 ^ 9)

abbrev pub maximum_ttl : ℤ
maximum_ttl = pos (86_400 * 10 ^ 9)

-- Scheme and host of a URL.
pub record Url : Type 0 where
  pub scheme : String
  pub host : String

abbrev pub is_nil : Option (String → Bool) → Bool
is_nil none = true
is_nil (some f) = false

-- The first condition of New.
unfoldable pub is_bad_config : Config → Bool
is_bad_config c =
    str_eq c.token_url ""
    || str_eq c.client_id ""
    || str_eq c.client_secret ""
    || str_eq c.scope ""
    || leb_ℤ c.ttl (pos 0)
    || ltb_ℤ maximum_ttl c.ttl
    || leb_ℤ c.refresh_before (pos 0)
    || leb_ℤ c.ttl c.refresh_before
    || is_nil c.validate_jwt

abbrev pub is_bad_url : Option Url → Bool
is_bad_url none = true
is_bad_url (some url) = str_eq url.scheme "" || str_eq url.host ""

-- `parse` is url.Parse.
unfoldable pub new_manager : (String → Option Url) → Config → Result Manager
new_manager parse c = do
  _ ← refuse_if (is_bad_config c) bad_configuration
  _ ← refuse_if (is_bad_url (parse c.token_url)) bad_url
  ok (record { config = c; token = no_token; started = false; stopped = false })

-- The body of a token response.
pub record TokenBody : Type 0 where
  pub access_token : String
  pub token_type : String
  pub expires_in : ℤ

-- What the token endpoint does: the request fails, or a response with a status comes, whose body
-- may not decode.
pub data Reply : Type 0 where
  lost : Reply
  response : ℕ → Option TokenBody → Reply

abbrev pub is_empty_part : List ℕ → Bool
is_empty_part [] = true
is_empty_part (c ∷ cs) = false

-- The negation of the test for an opaque token; `b'.'` is the dot.
abbrev pub are_jwt_parts : List (List ℕ) → Bool
are_jwt_parts (a ∷ b ∷ c ∷ []) = not (is_empty_part a || is_empty_part b || is_empty_part c)
are_jwt_parts _ = false

unfoldable pub is_opaque : String → Bool
is_opaque token = not (are_jwt_parts (split 46 (codes token)))

-- The call of ValidateJWT; New has refused a nil one.
abbrev pub validates : Option (String → Bool) → String → Bool
validates none token = false
validates (some f) token = f token

abbrev pub time_to_live : TokenBody → ℤ
time_to_live body = mul64 body.expires_in second

-- What fetch does with a decoded body.
unfoldable pub accept : Config → ℤ → TokenBody → Result Token
accept c now body = do
  _ ← refuse_if (is_opaque body.access_token) opaque_token
  _ ←
      refuse_if (not (str_eq body.token_type "Bearer") || leb_ℤ body.expires_in (pos 0))
        invalid_token
  let ttl = time_to_live body
  _ ← refuse_if (ltb_ℤ maximum_ttl ttl || ltb_ℤ c.ttl ttl) ttl_exceeded
  _ ← refuse_if (not (validates c.validate_jwt body.access_token)) refused_token
  ok (record {
    access_token = body.access_token;
    token_type = body.token_type;
    expires_at = now +ℤ ttl;
  })

unfoldable pub fetch : Config → ℤ → Reply → Result Token
fetch c now lost = err no_response
fetch c now (response status body) =
    if ltb status 200 || not (ltb status 300)
    then err (bad_status status)
    else elim body [ none ↦ err not_decoded | some b ↦ accept c now b ]

abbrev pub is_present : Token → Bool
is_present t = not (str_eq t.access_token "")

-- The cached token is not yet to be refreshed.
unfoldable pub is_current : Manager → ℤ → Bool
is_current m now =
    is_present m.token && ltb_ℤ now (m.token.expires_at +ℤ neg64 m.config.refresh_before)

unfoldable pub is_alive : Token → ℤ → Bool
is_alive t now = is_present t && ltb_ℤ now t.expires_at

-- After a call of fetch.
unfoldable pub refresh : Manager → ℤ → Result Token → Result Token × Manager
refresh m now (ok t) = (ok t, record m { token = t })
refresh m now (err e) = (if is_alive m.token now then ok m.token else err e, m)

unfoldable pub current : Manager → ℤ → Reply → Result Token × Manager
current m now reply =
    if is_current m now then (ok m.token, m) else refresh m now (fetch m.config now reply)

abbrev pub mark_started : Result Token × Manager → Result Bool × Manager
mark_started (ok t, m) = (ok true, record m { started = true })
mark_started (err e, m) = (err e, m)

unfoldable pub start : Manager → ℤ → Reply → Result Bool × Manager
start m now reply =
    if m.started then (err already_started, m) else mark_started (current m now reply)

-- Close: the loop ends.
unfoldable pub close : Manager → Manager
close m = if m.started then record m { stopped = true } else m

-- time.Time.Sub saturates.
abbrev pub sub_times : ℤ → ℤ → ℤ
sub_times a b =
    let d = a -ℤ b in
    if ltb_ℤ max_int64 d then max_int64 else if ltb_ℤ d min_int64 then min_int64 else d

-- What a round of the loop waits for.
unfoldable pub refresh_delay : Manager → ℤ → ℤ
refresh_delay m now =
    let delay = sub_times (m.token.expires_at +ℤ neg64 m.config.refresh_before) now in
    if leb_ℤ delay (pos 0) then second else delay
