-- ===== src/Catalog/History.antt =====
-- Histories of a token manager (internal/catalogtoken/manager.go). The loop of refreshes calls
-- nothing but Current, so its rounds are calls of Current.
use Prim.Native.String.{String}
use gizway.Prelude.{true, false, ◌≡◌, Option, refl, if◌then◌else◌}
use gizway.Int.{ℤ, ◌≤ℤ◌}
use gizway.Catalog.{
  Token, Config, Manager, Reply, Result, ok, err, already_started, current, start, close,
  mark_started, Url, new_manager,
}
use gizway.Catalog.Lifetime.{IsShort, HasTimes, HasTimes-new_manager}
use gizway.Catalog.Answered.{IsServed, IsSound, IsAnswered-current, IsSound-later}

-- A manager of New, after calls of Current, Start and Close at instants that do not decrease; the
-- index is the latest.
pub data Reaches (parse : String → Option Url) (c : Config) : ℤ → Manager → Type 0 where
  made : {now : ℤ} {m : Manager} → new_manager parse c ≡ ok m → Reaches parse c now m
  asked :
      {before now : ℤ} {m : Manager} {reply : Reply}
      → Reaches parse c before m
      → before ≤ℤ now
      → IsShort reply
      → Reaches parse c now (current m now reply).1
  started_at :
      {before now : ℤ} {m : Manager} {reply : Reply}
      → Reaches parse c before m
      → before ≤ℤ now
      → IsShort reply
      → Reaches parse c now (start m now reply).1
  closed : {now : ℤ} {m : Manager} → Reaches parse c now m → Reaches parse c now (close m)

mark_started-IsSound :
    (c : Config) (now : ℤ) (r : Result Token × Manager)
    → IsSound c now r.1
    → IsSound c now (mark_started r).1
mark_started-IsSound c now (ok t, m) s = record { same = s.same; issued = s.issued }
mark_started-IsSound c now (err e, m) s = s

start-IsSound :
    (c : Config) (before now : ℤ) (m : Manager) (reply : Reply)
    → HasTimes c
    → IsSound c before m
    → before ≤ℤ now
    → IsShort reply
    → IsSound c now (start m now reply).1
unfolding start
start-IsSound c before now m reply times s le short =
    elim m.started
      as (λ b.
        IsSound c now
          (if b then (err already_started, m) else mark_started (current m now reply)).1) [
            | true ↦ IsSound-later s le
            | false ↦
                mark_started-IsSound c now (current m now reply)
                  (IsAnswered-current c before now m reply times s le short).sound
          ]

close-IsSound : (c : Config) (now : ℤ) (m : Manager) → IsSound c now m → IsSound c now (close m)
unfolding close
close-IsSound c now m s =
    elim m.started as (λ b. IsSound c now (if b then record m { stopped = true } else m)) [
      | true ↦ record { same = s.same; issued = s.issued }
      | false ↦ s
    ]

pub Reaches-IsSound :
    {parse : String → Option Url} {c : Config} {now : ℤ} {m : Manager}
    → Reaches parse c now m
    → HasTimes c × IsSound c now m
Reaches-IsSound {parse} {c} {now} {m} (Reaches.made e) =
    let (times, new) = HasTimes-new_manager parse c m e in
    (times, rw new (record { same = refl; issued = λ h. absurd (cc (h)) }))
Reaches-IsSound {c} (Reaches.asked {before} {now} {m} {reply} r le short) =
    let (times, s) = Reaches-IsSound r in
    (times, (IsAnswered-current c before now m reply times s le short).sound)
Reaches-IsSound {c} (Reaches.started_at {before} {now} {m} {reply} r le short) =
    let (times, s) = Reaches-IsSound r in
    (times, start-IsSound c before now m reply times s le short)
Reaches-IsSound {c} (Reaches.closed {now} {m} r) =
    let (times, s) = Reaches-IsSound r in (times, close-IsSound c now m s)

-- After any history of calls of Current, Start and Close of a manager of New, at instants that do not
-- decrease and with replies whose seconds fit int64 as nanoseconds, a token that Current returns has
-- not expired, is a JWT of type Bearer that passes the validator, and expires at most the configured
-- time and at most a day after the call.
pub current-IsServed :
    {parse : String → Option Url} {c : Config} {before : ℤ} {m : Manager} (now : ℤ) (reply : Reply)
    (t : Token)
    → Reaches parse c before m
    → before ≤ℤ now
    → IsShort reply
    → (current m now reply).0 ≡ ok t
    → IsServed c now t
current-IsServed {c} {before} {m} now reply t r le short h =
    let (times, s) = Reaches-IsSound r in
    (IsAnswered-current c before now m reply times s le short).served t h
