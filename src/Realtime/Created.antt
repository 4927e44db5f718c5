-- ===== src/Realtime/Created.antt =====
-- A realtime secret that is created (createRealtimeSecret, internal/gizway/protocol.go) opens its
-- session.
use Prim.Native.String.{String}
use gizway.Prelude.{
  Bool, true, false, not, ◌||◌, some, ◌≡◌, refl, ap, subst, sym, ◌∙◌, inl, inr, lt→ltb, Bool-cases,
  Option-cases,
}
use gizway.Int.{ℤ, ◌<ℤ◌}
use gizway.Text.{str_eq, str_eq_iff}
use gizway.Credit.Check.{apply_to}
use gizway.Targets.{ResolvedCall, Selection, selection, unknown_key, missing_target, selected}
use gizway.Targets.Resolve.{Resolution, resolved, no_target, failed, resolve_call}
use gizway.Realtime.{
  Session, Sessions, SecretRequest, Env, Answer, refused, created, store_session, prune_sessions,
  session_id, new_secret, new_session, open_session, route_session, create_realtime_secret,
  take_session, open_socket,
}

-- A session that the socket of the ID and the secret opens at the instant: it has the HMAC of the
-- request's key, and the call that the model resolves to for the admission, with a selected key.
pub record IsOpened (e : Env) (model : String) (now : ℤ) (id secret : String) (s : Sessions)
    : Type 0 where
  pub session : Session
  pub call : ResolvedCall
  pub key : String
  pub opened : (open_socket now id secret s).0 ≡ some session
  pub owner : session.key_hmac ≡ e.key_hmac
  pub resolution : resolve_call e.stores e.resolved_at model e.admission.product_id ≡ resolved call
  pub chosen : selected key (apply_to e.admission call) ≡ selection session.call

-- The answer of a request that goes through.
abbrev is_created : Env → Answer → Bool
is_created e (refused status code) = false
is_created e (created secret expires id) = true

-- What such a request has answered and stored.
record IsStored (e : Env) (model : String) (a : Answer) (s t : Sessions) : Type 0 where
  url : String
  call : ResolvedCall
  key : String
  final : ResolvedCall
  resolution : resolve_call e.stores e.resolved_at model e.admission.product_id ≡ resolved call
  chosen : selected key (apply_to e.admission call) ≡ selection final
  answer : a ≡ created (new_secret e) (new_session e url final).expires_at (session_id e)
  stored : t ≡ store_session (session_id e) (new_session e url final) (prune_sessions e.pruned_at s)

open_session-IsStored :
    (e : Env) (model url key : String) (call : ResolvedCall) (s : Sessions) (choice : Selection)
    → resolve_call e.stores e.resolved_at model e.admission.product_id ≡ resolved call
    → selected key (apply_to e.admission call) ≡ choice
    → is_created e (open_session e url choice s).0 ≡ true
    → IsStored e model (open_session e url choice s).0 s (open_session e url choice s).1
unfolding open_session
open_session-IsStored e model url key call s (selection final) r c h = record {
  url = url;
  call = call;
  key = key;
  final = final;
  resolution = r;
  chosen = c;
  answer = refl;
  stored = refl;
}
open_session-IsStored e model url key call s (unknown_key k) r c h = absurd (cc)
open_session-IsStored e model url key call s (missing_target k) r c h = absurd (cc)

route_session-IsStored :
    (e : Env) (model : String) (s : Sessions) (r : Resolution)
    → resolve_call e.stores e.resolved_at model e.admission.product_id ≡ r
    → is_created e (route_session e r s).0 ≡ true
    → IsStored e model (route_session e r s).0 s (route_session e r s).1
unfolding route_session
route_session-IsStored e model s (resolved call) r h = elim (Option-cases (e.route call.targets)) [
  | inl lost ↦ absurd (cc (rw (route_session, lost) at h))
  | inr ((url, key), found) ↦
      rw (route_session, found)
        (open_session-IsStored e model url key call s (selected key (apply_to e.admission call)) r
          refl (rw (route_session, found) at h))
]
route_session-IsStored e model s (no_target call) r h =
    elim (Bool-cases (str_eq call.model_id "")) [
      | inl blank ↦ absurd (cc (rw (route_session, blank) at h))
      | inr there ↦ absurd (cc (rw (route_session, there) at h))
    ]
route_session-IsStored e model s (failed call) r h = absurd (cc)

create-IsStored :
    (e : Env) (body : SecretRequest) (s : Sessions)
    → is_created e (create_realtime_secret e (some body) s).0 ≡ true
    → IsStored e body.model
        (create_realtime_secret e (some body) s).0
        s
        (create_realtime_secret e (some body) s).1
unfolding create_realtime_secret
create-IsStored e body s h =
    elim (Bool-cases (str_eq body.model "" || not (str_eq body.transport "websocket"))) [
      | inl bad ↦ absurd (cc (rw bad at h))
      | inr good ↦ rw good (
          route_session-IsStored e body.model s
            (resolve_call e.stores e.resolved_at body.model e.admission.product_id) refl
            (rw good at h))
    ]

opens_stored :
    (now : ℤ) (id : String) (session : Session) (s : Sessions)
    → now <ℤ session.expires_at
    → (open_socket now id session.secret (store_session id session s)).0 ≡ some session
unfolding open_socket take_session
opens_stored now id session s early =
    rw
      (
        open_socket,
        (str_eq_iff id id).1 refl,
        (str_eq_iff session.secret session.secret).1 refl,
        lt→ltb _ _ early,
      )
      refl

-- Where createRealtimeSecret answers with a secret, the socket of the answered session ID opens with
-- this secret at any time before the answered expiry; the session is of the key of the request, and
-- its call is what the model resolves to for the admission, with the key that was selected.
pub open_socket-create_realtime_secret :
    (e : Env) (body : SecretRequest) (s : Sessions) (secret : String) (expires : ℤ) (id : String)
    (now : ℤ)
    → (create_realtime_secret e (some body) s).0 ≡ created secret expires id
    → now <ℤ expires
    → IsOpened e body.model now id secret (create_realtime_secret e (some body) s).1
open_socket-create_realtime_secret e body s secret expires id now h early =
    let put = create-IsStored e body s (ap (is_created e) h) in
    let session = new_session e put.url put.final in
    let same : created (new_secret e) session.expires_at (session_id e)
        ≡ created secret expires id =
      sym put.answer ∙ h in
    let same_secret : new_secret e ≡ secret = cc (same) in
    let same_expiry : session.expires_at ≡ expires = cc (same) in
    let same_id : session_id e ≡ id = cc (same) in
    let pruned = prune_sessions e.pruned_at s in
    let opens : (open_socket now (session_id e) (new_secret e)
          (store_session (session_id e) session pruned)).0
        ≡ some session =
      opens_stored now (session_id e) session pruned (rw same_expiry early) in
    record {
      session = session;
      call = put.call;
      key = put.key;
      opened = rw put.stored (
          subst
            (λ k.
              (open_socket now k secret (store_session (session_id e) session pruned)).0
              ≡ some session)
            same_id
            (subst
              (λ k.
                (open_socket now (session_id e) k (store_session (session_id e) session pruned)).0
                ≡ some session)
              same_secret opens));
      owner = refl;
      resolution = put.resolution;
      chosen = put.chosen;
    }
