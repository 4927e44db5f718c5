-- ===== src/Catalog/Due.antt =====
-- The delay of refreshLoop (internal/catalogtoken/manager.go).
use Prim.Native.String.{String}
use gizway.Prelude.{true, false, ◌&&◌, Option, ◌≡◌, refl, ap, arith, lt→ltb}
use gizway.Int.{ℤ, pos, ◌+ℤ◌, ◌-ℤ◌, ◌≤ℤ◌, ◌<ℤ◌, ltb_ℤ, +ℤ_parts, -ℤ_parts}
use gizway.Int64.{neg64}
use gizway.Catalog.{
  Config, Manager, Url, is_present, is_current, is_alive, refresh_delay, sub_times, maximum_ttl,
}
use gizway.Catalog.Lifetime.{HasTimes, due_parts}
use gizway.Catalog.Answered.{alive_of_is_current, before_due_of_is_current}
use gizway.Catalog.History.{Reaches, Reaches-IsSound}

-- What a delay of the loop does: it is positive; at all times before its end the token is current, and
-- at its end the token is to be refreshed and has not yet expired.
pub record IsDue (m : Manager) (now delay : ℤ) : Type 0 where
  pub waits : pos 0 <ℤ delay
  pub not_sooner : (t : ℤ) → t <ℤ now +ℤ delay → is_current m t ≡ true
  pub due : is_current m (now +ℤ delay) ≡ false
  pub alive : is_alive m.token (now +ℤ delay) ≡ true

due_eq :
    (c : Config) (m : Manager)
    → HasTimes c
    → m.config ≡ c
    → m.token.expires_at +ℤ neg64 m.config.refresh_before ≡ m.token.expires_at -ℤ c.refresh_before
due_eq c m times same = rw (ap (λ (d : Config). d.refresh_before) same) (due_parts c m.token times)

is_current-eq :
    (c : Config) (m : Manager) (now : ℤ)
    → HasTimes c
    → m.config ≡ c
    → is_current m now ≡ (is_present m.token && ltb_ℤ now (m.token.expires_at -ℤ c.refresh_before))
unfolding is_current
is_current-eq c m now times same =
    ap (λ due. is_present m.token && ltb_ℤ now due) (due_eq c m times same)

sub_times-eq : (a b : ℤ) → pos 0 <ℤ (a -ℤ b) → (a -ℤ b) ≤ℤ maximum_ttl → sub_times a b ≡ a -ℤ b
sub_times-eq a b above below = ground arith

refresh_delay-eq :
    (c : Config) (m : Manager) (now : ℤ)
    → HasTimes c
    → m.config ≡ c
    → pos 0 <ℤ (m.token.expires_at -ℤ c.refresh_before -ℤ now)
    → (m.token.expires_at -ℤ c.refresh_before -ℤ now) ≤ℤ maximum_ttl
    → refresh_delay m now ≡ m.token.expires_at -ℤ c.refresh_before -ℤ now
unfolding refresh_delay
refresh_delay-eq c m now times same above below =
    rw
      (due_eq c m times same, sub_times-eq (m.token.expires_at -ℤ c.refresh_before) now above below)
      (ground arith)

IsDue-of_parts :
    (c : Config) (m : Manager) (now : ℤ)
    → HasTimes c
    → m.config ≡ c
    → is_present m.token ≡ true
    → now <ℤ (m.token.expires_at -ℤ c.refresh_before)
    → IsDue m now (m.token.expires_at -ℤ c.refresh_before -ℤ now)
unfolding is_alive
IsDue-of_parts c m now times same there early =
    let due = m.token.expires_at -ℤ c.refresh_before in
    let above = times.before_above in
    let parts1 = -ℤ_parts m.token.expires_at c.refresh_before in
    let parts2 = -ℤ_parts due now in
    let parts3 = +ℤ_parts now (due -ℤ now) in
    record {
      waits = omega (arith, parts2);
      not_sooner = λ t sooner.
          rw (is_current-eq c m t times same, there)
            (lt→ltb _ _ (omega (arith, sooner, parts2, parts3)));
      due = rw (is_current-eq c m (now +ℤ (due -ℤ now)) times same) (
          let not_before : ltb_ℤ (now +ℤ (due -ℤ now)) due ≡ false =
            ground (arith, parts2, parts3) in
          rw (there, not_before) refl);
      alive = rw there (lt→ltb _ _ (omega (arith, parts1, parts2, parts3)));
    }

-- In any history of a manager at instants that do not decrease and with replies whose seconds fit int64
-- as nanoseconds, a round of the loop of refreshes that starts while the token is current waits exactly
-- until it is to be refreshed: the token is current at every time before the end of the delay and not at
-- its end, when it has not expired.
pub refresh_delay-IsDue :
    {parse : String → Option Url} {c : Config} {before : ℤ} {m : Manager} (now : ℤ)
    → Reaches parse c before m
    → before ≤ℤ now
    → is_current m now ≡ true
    → IsDue m now (refresh_delay m now)
refresh_delay-IsDue {c} {before} {m} now r le h =
    let (times, s) = Reaches-IsSound r in
    let (there, later) = alive_of_is_current c m now times s.same h in
    let issued = s.issued there in
    let within = issued.within_day in
    let above = times.before_above in
    let due = m.token.expires_at -ℤ c.refresh_before in
    let early = before_due_of_is_current c m now times s.same h in
    let parts1 = -ℤ_parts m.token.expires_at c.refresh_before in
    let parts2 = -ℤ_parts due now in
    let parts3 = +ℤ_parts before maximum_ttl in
    rw
      (refresh_delay-eq c m now times s.same (omega (arith, early, parts2))
        (omega (arith, le, within, above, parts1, parts2, parts3)))
      (IsDue-of_parts c m now times s.same there early)
