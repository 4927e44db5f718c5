-- ===== src/Outbox/Worker/Tests.antt =====
-- A history of the Outbox with a small GizPay (completeCall, newHandler and runOutbox,
-- internal/gizway).
use Prim.Native.String.{String}
use gizway.Prelude.{ℕ, ◌==◌, none, List, [], ◌∷◌, refl, if◌then◌else◌}
use gizway.Int.{pos}
use gizway.Outbox.{Db, Fault, works, lost, Site}
use gizway.Outbox.Fixture.{has, gizpay, gizpay-IsFaithful}
use gizway.Outbox.Report.Soundness.{IsSound}
use gizway.Outbox.Worker.{Completion, complete_call, tick}
use gizway.Outbox.Worker.Reach.{completes, ticks, Reaches, stays, steps, Reaches-IsSound}

abbrev call : Completion
call = record {
  order_id = "aio_1";
  external_id = "ord_1";
  outbox_id = "out_1";
  key_hmac = "h1";
  key_id = "key_1";
  merchant_id = "m1";
  gross = pos 100;
  commission = pos 80;
  prompt_tokens = pos 10;
  completion_tokens = pos 5;
}

abbrev empty : Db
empty = record {
  ai_orders = [];
  ai_usage = [];
  charge_outbox = [];
  provider_key_billing =
      record { provider_key_id = "key_1"; last_used_at = none; earned = pos 0; updated_at = pos 0 }
      ∷ [];
  provider_keys = [];
}

-- The answer of the ninth statement is lost.
abbrev ninth_lost : ℕ → Fault
ninth_lost n = if n == 9 then lost else works

abbrev first : Site (List String)
first = record { db = empty; remote = []; fault = λ n. works; ran = 0; now = pos 9 }

abbrev second : Site (List String)
second = record {
  db = (complete_call call "" first).1.db;
  remote = (complete_call call "" first).1.remote;
  fault = ninth_lost;
  ran = 0;
  now = pos 10;
}

abbrev third : Site (List String)
third = (tick gizpay (pos 100) 20 second).1

history : Reaches gizpay has empty [] third.db third.remote
history = steps (steps (stays empty []) (completes call "" first refl)) (ticks (pos 100) 20 second)

Reaches-IsSound_example : IsSound (has third.remote) third.db
Reaches-IsSound_example =
    Reaches-IsSound gizpay has gizpay-IsFaithful history (record { sound = tt; keyed = tt })
