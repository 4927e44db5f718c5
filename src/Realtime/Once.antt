-- ===== src/Realtime/Once.antt =====
-- A realtime secret opens one session at most (realtimeSocket, internal/gizway/protocol.go).
use Prim.Native.String.{String}
use gizway.Prelude.{
  true, false, none, some, List, [], ◌∷◌, All, arith, ◌≡◌, refl, inl, inr, Bool-cases, Option-cases,
}
use gizway.Int.{ℤ, ◌<ℤ◌}
use gizway.Text.{str_eq, str_eq_iff}
use gizway.Realtime.{Session, Sessions, store_session, prune_sessions, take_session, open_socket}

-- What happens to the sessions: a request stores a new one, or prunes, or opens one.
pub data Event : Type 0 where
  stores : String → Session → Event
  prunes : ℤ → Event
  opens : ℤ → String → String → Event

abbrev pub after : Event → Sessions → Sessions
after (stores id session) s = store_session id session s
after (prunes now) s = prune_sessions now s
after (opens now id secret) s = (open_socket now id secret s).1

abbrev pub after_all : List Event → Sessions → Sessions
after_all [] s = s
after_all (e ∷ es) s = after_all es (after e s)

-- The event does not store a session of the ID; each new ID is a UUID.
abbrev pub IsOther : String → Event → Type 0
IsOther id (stores new session) = str_eq id new ≡ false
IsOther id (prunes now) = Unit
IsOther id (opens now other secret) = Unit

open_socket-absent :
    (now : ℤ) (k id secret : String) (s : Sessions)
    → s k ≡ none
    → (open_socket now id secret s).1 k ≡ none
unfolding open_socket
open_socket-absent now k id secret s h = elim (Option-cases (s id)) [
  | inl e ↦ rw (open_socket, e) h
  | inr (session, e) ↦ elim (Bool-cases (take_session now secret session)) [
    | inr kept ↦ rw (open_socket, e) (rw kept h)
    | inl taken ↦ elim (Bool-cases (str_eq k id)) [
      | inl same ↦ rw (open_socket, e) (rw taken (rw same refl))
      | inr other ↦ rw (open_socket, e) (rw taken (rw other h))
    ]
  ]
]

after-absent :
    (id : String) (e : Event) (s : Sessions) → IsOther id e → s id ≡ none → after e s id ≡ none
unfolding prune_sessions
after-absent id (stores new session) s other h = rw other h
after-absent id (prunes now) s other h = rw h refl
after-absent id (opens now k secret) s other h = open_socket-absent now id k secret s h

after_all-absent :
    (id : String) (es : List Event) (s : Sessions)
    → All (IsOther id) es
    → s id ≡ none
    → after_all es s id ≡ none
after_all-absent id [] s others h = h
after_all-absent id (e ∷ es) s (other, others) h =
    after_all-absent id es (after e s) others (after-absent id e s other h)

open_socket-taken :
    (now : ℤ) (id secret : String) (s : Sessions) (session : Session)
    → (open_socket now id secret s).0 ≡ some session
    → (s id ≡ some session)
      × (take_session now secret session ≡ true)
      × ((open_socket now id secret s).1 id ≡ none)
unfolding open_socket
open_socket-taken now id secret s session h = elim (Option-cases (s id)) [
  | inl e ↦ absurd (cc (rw (open_socket, e) at h))
  | inr (found, e) ↦ elim (Bool-cases (take_session now secret found)) [
    | inr kept ↦ absurd (cc (rw (open_socket, e, kept) at h))
    | inl taken ↦
        let same : some found ≡ some session = rw (open_socket, e, taken) at h in
        let eq : found ≡ session = cc (same) in
        (
          rw e same,
          rw (← eq) taken,
          rw (open_socket, e) (rw taken (rw ((str_eq_iff id id).1 refl) refl)),
        )
  ]
]

-- What realtimeSocket tests.
take_session-true :
    (now : ℤ) (secret : String) (session : Session)
    → take_session now secret session ≡ true
    → (now <ℤ session.expires_at) × (secret ≡ session.secret)
unfolding take_session
take_session-true now secret session h =
    (ground arith, (str_eq_iff secret session.secret).0 (ground arith))

-- The session that a socket opened, and that it does not open again.
pub record IsSpent (now : ℤ) (id secret : String) (s : Sessions) (session : Session)
    (es : List Event) (later : ℤ) (again : String) : Type 0 where
  pub stored : s id ≡ some session
  pub unexpired : now <ℤ session.expires_at
  pub with_secret : secret ≡ session.secret
  pub spent : (open_socket later id again (after_all es (open_socket now id secret s).1)).0 ≡ none

open_socket-none :
    (now : ℤ) (id secret : String) (s : Sessions)
    → s id ≡ none
    → (open_socket now id secret s).0 ≡ none
unfolding open_socket
open_socket-none now id secret s h = rw (open_socket, h) refl

-- A socket opens a session only as it is stored under the ID, with its secret and before its expiry;
-- and after any sequence of openings, prunings and new sessions with other IDs, no socket opens a
-- session of that ID again, whatever the secret and the time.
pub open_socket_once :
    (now : ℤ) (id secret : String) (s : Sessions) (session : Session) (es : List Event) (later : ℤ)
    (again : String)
    → (open_socket now id secret s).0 ≡ some session
    → All (IsOther id) es
    → IsSpent now id secret s session es later again
open_socket_once now id secret s session es later again h others =
    let (stored, valid, gone) = open_socket-taken now id secret s session h in
    record {
      stored = stored;
      unexpired = (take_session-true now secret session valid).0;
      with_secret = (take_session-true now secret session valid).1;
      spent =
          open_socket-none later id again (after_all es (open_socket now id secret s).1)
            (after_all-absent id es (open_socket now id secret s).1 others gone);
    }
