-- ===== src/Catalog/Tests.antt =====
-- The token manager (internal/catalogtoken/manager.go) at concrete inputs.
use Prim.Native.String.{String}
use gizway.Prelude.{
  ℕ, ◌*◌, ◌^◌, true, false, not, Option, none, some, [], ◌∷◌, All, ◌≡◌, ◌↔◌, ap, subst, refl, arith,
}
use gizway.Int.{ℤ, pos, ◌+ℤ◌, ◌-ℤ◌, ◌*ℤ◌, ◌<ℤ◌}
use gizway.Int64.{mul64, neg64, wrap64}
use gizway.Text.{str_eq, split}
use gizway.Catalog.{
  Token, Config, Manager, Reply, lost, response, TokenBody, ok, err, no_response, opaque_token,
  bad_status, Url, new_manager, is_bad_config, fetch, accept, is_opaque, current, is_current,
  refresh, refresh_delay, no_token,
}
use gizway.Catalog.Parts.{is_opaque_iff}
use gizway.Catalog.Accepted.{token_of}
use gizway.Catalog.Limits.{IsGranted, fetch_exact_iff}
use gizway.Catalog.Lifetime.{IsShort, HasTimes-new_manager}
use gizway.Catalog.Answered.{IsServed}
use gizway.Catalog.History.{Reaches, current-IsServed}
use gizway.Catalog.Outage.{IsOutage, answers, current-IsAvailable}
use gizway.Catalog.Due.{IsDue, refresh_delay-IsDue}
use gizway.Catalog.Wrapped.{fetch-Wraps}

abbrev seconds : ℕ → ℤ
seconds n = pos (n * 10 ^ 9)

-- A token of an hour, refreshed five minutes before it expires.
abbrev config : Config
config = record {
  token_url = "https://id.example/token";
  client_id = "gizway";
  client_secret = "s";
  scope = "catalog";
  ttl = seconds 3600;
  refresh_before = seconds 300;
  validate_jwt = some (λ token. not (str_eq token "x.y.z"));
}

abbrev parse : String → Option Url
parse url = some (record { scheme = "https"; host = "id.example" })

abbrev manager : Manager
manager = record { config = config; token = no_token; started = false; stopped = false }

abbrev body : TokenBody
body = record { access_token = "a.b.c"; token_type = "Bearer"; expires_in = pos 1800 }

abbrev reply : Reply
reply = response 200 (some body)

made : new_manager parse config ≡ ok manager
unfolding new_manager is_bad_config
made = refl

opaque_refused :
    fetch config (pos 5) (response 200 (some (record body { access_token = "a..c" })))
    ≡ err opaque_token
unfolding fetch accept is_opaque split
opaque_refused = refl

fetched : fetch config (pos 5) reply ≡ ok (token_of (pos 5) body)
unfolding fetch accept is_opaque split mul64 wrap64 ◌*ℤ◌ ◌+ℤ◌
fetched = refl

abbrev body_of : Reply → TokenBody
body_of (response status (some b)) = b
body_of _ = body

short : IsShort reply
short = record {
  lasts = λ status b e. subst (λ b. b.expires_in <ℤ pos 9_223_372_037) (ap body_of e) (omega arith);
}

fetch_exact_iff_example :
    (fetch config (pos 5) reply ≡ ok (token_of (pos 5) body))
    ↔ IsGranted config (pos 5) reply (token_of (pos 5) body)
fetch_exact_iff_example = fetch_exact_iff config (pos 5) reply (token_of (pos 5) body) short

abbrev token : Token
token = record { access_token = "a.b.c"; token_type = "Bearer"; expires_at = seconds 1800 }

abbrev holding : Manager
holding = record { config = config; token = token; started = false; stopped = false }

reached : Reaches parse config (pos 0) holding
unfolding current is_current refresh fetch accept is_opaque split mul64 neg64 wrap64 ◌*ℤ◌ ◌+ℤ◌ ◌-ℤ◌
reached =
    Reaches.asked {before = pos 0} {now = pos 0} {m = manager} {reply = reply} (Reaches.made made)
      (omega arith) short

kept : (current holding (seconds 100) lost).0 ≡ ok token
unfolding current is_current neg64 wrap64 ◌+ℤ◌ ◌-ℤ◌
kept = refl

IsShort-lost : IsShort lost
IsShort-lost = record { lasts = λ status b e. absurd (cc (e)) }

current-IsServed_example : IsServed config (seconds 100) token
current-IsServed_example =
    current-IsServed (seconds 100) lost token reached (omega arith) IsShort-lost kept

outage : IsOutage config token (seconds 1700, lost)
unfolding fetch
outage = record { before = omega arith; failure = no_response; failed = refl }

current-IsAvailable_example :
    All
      (λ r. r ≡ ok token)
      (answers holding ((seconds 1700, lost) ∷ (seconds 1799, response 503 none) ∷ []))
unfolding fetch
current-IsAvailable_example =
    current-IsAvailable holding ((seconds 1700, lost) ∷ (seconds 1799, response 503 none) ∷ []) refl
      (outage, (record { before = omega arith; failure = bad_status 503; failed = refl }, tt))

current_now : is_current holding (seconds 100) ≡ true
unfolding is_current neg64 wrap64 ◌+ℤ◌ ◌-ℤ◌
current_now = refl

refresh_delay-IsDue_example : IsDue holding (seconds 100) (refresh_delay holding (seconds 100))
refresh_delay-IsDue_example = refresh_delay-IsDue (seconds 100) reached (omega arith) current_now

delay_runs : refresh_delay holding (seconds 100) ≡ seconds 1400
unfolding refresh_delay neg64 wrap64 ◌+ℤ◌ ◌-ℤ◌
delay_runs = refl

abbrev long : TokenBody
long = record { access_token = "a.b.c"; token_type = "Bearer"; expires_in = pos 10_000_000_000 }

expired_token_accepted :
    (fetch config (seconds 100) (response 200 (some long)) ≡ ok (token_of (seconds 100) long))
    × ((token_of (seconds 100) long).expires_at <ℤ seconds 100)
unfolding is_opaque split
expired_token_accepted =
    fetch-Wraps config (seconds 100) 10_000_000_000 long
      (HasTimes-new_manager parse config manager made).0 refl (omega arith) (omega arith)
      ((is_opaque_iff "a.b.c").0 refl) refl refl
