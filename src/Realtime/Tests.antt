-- ===== src/Realtime/Tests.antt =====
-- Realtime sessions (createRealtimeSecret and realtimeSocket, internal/gizway/protocol.go) at concrete
-- inputs.

use gizway.Prelude.{true, none, some, List, [], ◌∷◌, ◌≡◌, refl, arith, if◌then◌else◌}
use gizway.Int.{pos, ◌+ℤ◌}
use gizway.Text.{str_eq}
use gizway.Rating.{PriceRow}
use gizway.Credit.{no_admission}
use gizway.Credit.Check.{apply_to}
use gizway.Targets.{prices_cover_metrics, delete, delete_all, select_from, selected}
use gizway.Targets.Cheapest.{cheapest_targets}
use gizway.Targets.Resolve.{
  found, missing, CallStores, offer, add_key, choose_cheapest, resolve_keys, resolve_provider,
  resolve_call, new_call,
}
use gizway.Realtime.{
  Session, Sessions, SecretRequest, Env, created, prune_sessions, open_session, route_session,
  create_realtime_secret, take_session, open_socket,
}
use gizway.Realtime.Once.{Event, stores, prunes, opens, IsSpent, open_socket_once}
use gizway.Realtime.Created.{IsOpened, open_socket-create_realtime_secret}

abbrev prices : List PriceRow
prices = record { metric = "input_tokens"; unit = pos 1000; amount = pos 2 } ∷ []

abbrev catalog : CallStores
catalog = record {
  active_model = λ name.
      if str_eq name "live"
      then found (record { id = "m"; provider_id = "p"; provider_model = "rt" })
      else missing;
  customer_prices = λ m. some prices;
  provider = λ p. found (record { kind = "openai"; base_url = "https://api"; status = "active" });
  keys = λ p.
      some (
        record { id = "k"; api_key = "c"; weight = pos 1; enabled = true; status = "active" } ∷ []);
  billing = λ k. found (record { merchant_id = "merchant"; status = "active" });
  key_prices = λ m k. some prices;
}

abbrev env : Env
env = record {
  stores = catalog;
  route = λ targets. some ("wss://api", "k");
  resolved_at = pos 10;
  issued_at = pos 11;
  pruned_at = pos 12;
  session_ttl = pos 100;
  session_uuid = "1";
  first_uuid = "2";
  second_uuid = "3";
  key_hmac = "h1";
  admission = record no_admission { allowed = true };
}

abbrev none_yet : Sessions
none_yet = λ k. none

abbrev request : SecretRequest
request = record { model = "live"; transport = "websocket" }

created_now :
    (create_realtime_secret env (some request) none_yet).0 ≡ created "rtk_23" (pos 111) "rts_1"
unfolding create_realtime_secret route_session open_session prune_sessions resolve_call
    resolve_provider resolve_keys choose_cheapest add_key offer prices_cover_metrics delete
    delete_all cheapest_targets selected select_from apply_to ◌+ℤ◌
created_now = refl

open_socket-create_realtime_secret_example :
    IsOpened env "live"
      (pos 50)
      "rts_1"
      "rtk_23"
      (create_realtime_secret env (some request) none_yet).1
open_socket-create_realtime_secret_example =
    open_socket-create_realtime_secret env request none_yet "rtk_23" (pos 111) "rts_1" (pos 50)
      created_now (omega arith)

abbrev session : Session
session = record {
  secret = "s";
  key_hmac = "h1";
  provider_url = "wss://api";
  call = new_call (pos 10) "live" "product";
  expires_at = pos 100;
}

abbrev one : Sessions
one = λ k. if str_eq k "a" then some session else none

abbrev events : List Event
events = prunes (pos 20) ∷ stores "b" session ∷ opens (pos 30) "b" "s" ∷ []

taken : (open_socket (pos 10) "a" "s" one).0 ≡ some session
unfolding open_socket take_session
taken = refl

open_socket_once_example : IsSpent (pos 10) "a" "s" one session events (pos 40) "s"
open_socket_once_example =
    open_socket_once (pos 10) "a" "s" one session events (pos 40) "s" taken (tt, (refl, (tt, tt)))
