-- ===== src/Realtime.antt =====
-- The realtime sessions of GizWay (createRealtimeSecret, pruneRealtimeSessions and the entry of
-- realtimeSocket, internal/gizway/protocol.go). The mutex realtimeMu makes a step of each section that
-- holds it. The decoded body, the route that Bifrost finds and uuid.NewString are parameters.
pub mod Once
pub mod Created
mod Tests
use Prim.Native.String
use Prim.Native.String.{String}
use gizway.Prelude.{
  ℕ, Bool, true, false, not, ◌&&◌, ◌||◌, Option, none, some, List, [], ◌∷◌, if◌then◌else◌,
}
use gizway.Int.{ℤ, ◌+ℤ◌, ltb_ℤ}
use gizway.Text.{str_eq}
use gizway.Credit.{CreditAdmission}
use gizway.Credit.Check.{apply_to}
use gizway.Targets.{
  Target, ResolvedCall, Selection, selection, unknown_key, missing_target, selected,
}
use gizway.Targets.Resolve.{CallStores, Resolution, resolved, no_target, failed, resolve_call}

-- The headers for the provider are passed on unread, so they are left out.
pub record Session : Type 0 where
  pub secret : String
  pub key_hmac : String
  pub provider_url : String
  pub call : ResolvedCall
  pub expires_at : ℤ

abbrev pub Sessions : Type 0
Sessions = String → Option Session

pub record SecretRequest : Type 0 where
  pub model : String
  pub transport : String

-- What a request reads: the stores, the routes of Bifrost (a URL and the key that was selected), three
-- readings of the clock, the lifetime of a session, three UUIDs, and the admitted key.
pub record Env : Type 0 where
  pub stores : CallStores
  pub route : List Target → Option (String × String)
  pub resolved_at : ℤ
  pub issued_at : ℤ
  pub pruned_at : ℤ
  pub session_ttl : ℤ
  pub session_uuid : String
  pub first_uuid : String
  pub second_uuid : String
  pub key_hmac : String
  pub admission : CreditAdmission

-- An error with its code, or the secret, the expiry, which the code writes in whole seconds, and the
-- session ID.
pub data Answer : Type 0 where
  refused : ℕ → String → Answer
  created : String → ℤ → String → Answer

abbrev pub store_session : String → Session → Sessions → Sessions
store_session id session s = λ k. if str_eq k id then some session else s k

abbrev pub unless_expired : ℤ → Option Session → Option Session
unless_expired now none = none
unless_expired now (some session) =
    if not (ltb_ℤ now session.expires_at) then none else some session

unfoldable pub prune_sessions : ℤ → Sessions → Sessions
prune_sessions now s = λ k. unless_expired now (s k)

abbrev pub session_id : Env → String
session_id e = String.◌++◌ "rts_" e.session_uuid

abbrev pub new_secret : Env → String
new_secret e = String.◌++◌ (String.◌++◌ "rtk_" e.first_uuid) e.second_uuid

abbrev pub new_session : Env → String → ResolvedCall → Session
new_session e url call = record {
  secret = new_secret e;
  key_hmac = e.key_hmac;
  provider_url = url;
  call = call;
  expires_at = e.issued_at +ℤ e.session_ttl;
}

-- The answer where the call is not resolved.
abbrev pub unresolved : Resolution → Answer
unresolved (no_target call) =
    if str_eq call.model_id ""
    then refused 404 "model_not_found"
    else refused 503 "no_active_provider_key"
unresolved _ = refused 503 "no_active_provider_key"

unfoldable pub open_session : Env → String → Selection → Sessions → Answer × Sessions
unfolding prune_sessions
open_session e url (selection call) s = (
  created (new_secret e) (new_session e url call).expires_at (session_id e),
  store_session (session_id e) (new_session e url call) (prune_sessions e.pruned_at s),
)
open_session e url (unknown_key key) s = (refused 500 "internal_error", s)
open_session e url (missing_target key) s = (refused 500 "internal_error", s)

unfoldable pub route_session : Env → Resolution → Sessions → Answer × Sessions
unfolding open_session
route_session e (resolved call) s = elim (e.route call.targets) [
  | none ↦ (refused 502 "provider_error", s)
  | some (url, key) ↦ open_session e url (selected key (apply_to e.admission call)) s
]
route_session e (no_target call) s = (unresolved (no_target call), s)
route_session e (failed call) s = (unresolved (failed call), s)

unfoldable pub create_realtime_secret : Env → Option SecretRequest → Sessions → Answer × Sessions
unfolding route_session
create_realtime_secret e none s = (refused 400 "invalid_request", s)
create_realtime_secret e (some body) s =
    if str_eq body.model "" || not (str_eq body.transport "websocket")
    then (refused 400 "invalid_request", s)
    else route_session e (resolve_call e.stores e.resolved_at body.model e.admission.product_id) s

-- The test of realtimeSocket; hmac.Equal is the equality of the texts.
unfoldable pub take_session : ℤ → String → Session → Bool
take_session now secret session = ltb_ℤ now session.expires_at && str_eq secret session.secret

-- The section of realtimeSocket that holds the mutex; the secret is the header's, less `Bearer `. The
-- session is taken, or the request is refused.
unfoldable pub open_socket : ℤ → String → String → Sessions → Option Session × Sessions
unfolding take_session
open_socket now id secret s = elim (s id) [
  | none ↦ (none, s)
  | some session ↦
      if take_session now secret session
      then (some session, λ k. if str_eq k id then none else s k)
      else (none, s)
]
