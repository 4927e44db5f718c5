-- ===== src/Outbox/Worker.antt =====
-- completeCall (internal/gizway/protocol.go), and the start and the ticks of the Outbox worker
-- (newHandler and runOutbox, internal/gizway/handler.go).
pub mod Tables
pub mod Calls
pub mod Reach
mod Tests
use Prim.Native.String.{String}
use gizway.Prelude.{
  ℕ, zero, suc, Bool, true, false, not, ◌&&◌, ◌||◌, Option, none, some, List, [], ◌∷◌, any,
  if◌then◌else◌,
}
use gizway.Int.{ℤ, pos, ◌-ℤ◌, ltb_ℤ, leb_ℤ}
use gizway.Text.{str_eq}
use gizway.Gizpay.Store.{Instant}
use gizway.Outbox.{
  OutboxStatus, pending, sending, abandoned, is_open, ChargePayload, OutboxRow, AiOrder, unbilled,
  billing_failed, UsageRow, Db, GizPay, Site, Run, ◌>>=◌, ◌>>◌, pure, stop, stop_if, attempt, must,
  reading, in_transaction,
}
use gizway.Outbox.Report.{update_rows, set_row, ignore, report_outbox}

-- What completeCall takes of the resolved call and its usage, and the identifiers that it draws.
pub record Completion : Type 0 where
  pub order_id : String
  pub external_id : String
  pub outbox_id : String
  pub key_hmac : String
  pub key_id : String
  pub merchant_id : String
  pub gross : ℤ
  pub commission : ℤ
  pub prompt_tokens : ℤ
  pub completion_tokens : ℤ

abbrev pub new_order : Completion → AiOrder
new_order c = record {
  id = c.order_id;
  external_order_id = c.external_id;
  provider_key_id = c.key_id;
  gross = c.gross;
  commission = c.commission;
  billing_error = if ltb_ℤ c.gross c.commission then some "commission_exceeds_gross" else none;
  status = if ltb_ℤ c.gross c.commission then billing_failed else unbilled;
}

abbrev pub new_row : Completion → Instant → OutboxRow
new_row c now = record {
  id = c.outbox_id;
  external_order_id = c.external_id;
  ai_order_id = c.order_id;
  payload = record {
    external_order_id = c.external_id;
    subscription_key_hmac = c.key_hmac;
    gross = c.gross;
    merchant_id = c.merchant_id;
    commission = c.commission;
  };
  status = pending;
  recover_duplicate = false;
  created_at = now;
  updated_at = now;
}

-- Whether the row is inserted: the primary key, the unique external order ID and the checks.
unfoldable pub insert_order : AiOrder → Db → Bool × Db
insert_order o db =
    if any (λ r. str_eq r.id o.id || str_eq r.external_order_id o.external_order_id) db.ai_orders
      || not (ltb_ℤ (pos 0) o.gross)
      || ltb_ℤ o.commission (pos 0)
    then (false, db)
    else (true, record db { ai_orders = o ∷ db.ai_orders })

unfoldable pub insert_usage : String → String → ℤ → Db → Bool × Db
insert_usage order_id metric quantity db = if ltb_ℤ quantity (pos 0) then (false, db) else (
  true,
  record db {
    ai_usage = record { order_id = order_id; metric = metric; quantity = quantity } ∷ db.ai_usage;
  },
)

unfoldable pub insert_outbox : OutboxRow → Db → Bool × Db
insert_outbox r db =
    if any (λ q. str_eq q.id r.id || str_eq q.external_order_id r.external_order_id)
        db.charge_outbox
      || not (any (λ o. str_eq o.id r.ai_order_id) db.ai_orders)
    then (false, db)
    else (true, record db { charge_outbox = r ∷ db.charge_outbox })

-- `SET status='pending',recover_duplicate=true WHERE status='sending'`
abbrev pub is_sending : OutboxRow → Bool
is_sending r = elim r.status [ sending ↦ true | _ ↦ false ]

abbrev pub is_pending : OutboxRow → Bool
is_pending r = elim r.status [ pending ↦ true | _ ↦ false ]

unfoldable pub recover_sending : Instant → Db → Unit {0} × Db
recover_sending now db = (
  tt,
  record db { charge_outbox = update_rows is_sending (set_row pending true now) db.charge_outbox },
)

-- `SET status='abandoned',updated_at=$1 WHERE status='pending' AND created_at < $2`
unfoldable pub abandon_old : Instant → ℤ → Db → Unit {0} × Db
abandon_old now abandon_after db = (
  tt,
  record db {
    charge_outbox =
        update_rows (λ r. is_pending r && ltb_ℤ r.created_at (now -ℤ abandon_after))
          (λ r. record r { status = abandoned; updated_at = now }) db.charge_outbox;
  },
)

-- `ORDER BY created_at LIMIT $1`
unfoldable pub insert_by_created : OutboxRow → List OutboxRow → List OutboxRow
insert_by_created r [] = r ∷ []
insert_by_created r (q ∷ qs) =
    let rest = insert_by_created r qs in
    if leb_ℤ r.created_at q.created_at then r ∷ q ∷ qs else q ∷ rest

unfoldable pub open_by_created : List OutboxRow → List OutboxRow
open_by_created [] = []
open_by_created (r ∷ rs) =
    let rest = open_by_created rs in if is_open r.status then insert_by_created r rest else rest

abbrev pub first_orders : ℕ → List OutboxRow → List String
first_orders zero rs = []
first_orders (suc n) [] = []
first_orders (suc n) (r ∷ rs) = r.external_order_id ∷ first_orders n rs

unfoldable pub find_batch : ℕ → Db → List String
find_batch size db = first_orders size (open_by_created db.charge_outbox)

abbrev pub is_free : ℤ → Bool
is_free gross = leb_ℤ gross (pos 0) && leb_ℤ (pos 0) gross

module _ {R : Type 0} where
  -- An insertion that is refused is an error.
  abbrev pub insert : (Db → Bool × Db) → Run R (Unit {0})
  insert f = must f >>= λ inserted. stop_if (not inserted)

  abbrev pub now_utc : Run R Instant
  now_utc w = (some w.now, w)

  unfoldable pub queue_charge : Completion → String → Instant → Run R (Unit {0})
  queue_charge c failpoint now = do
    stop_if (str_eq failpoint "charge_outbox_write")
    insert (insert_outbox (new_row c now))

  unfoldable pub write_call : Completion → String → Instant → Run R (Unit {0})
  write_call c failpoint now = do
    stop_if (str_eq failpoint "ai_order_write")
    insert (insert_order (new_order c))
    insert (insert_usage c.order_id "input_tokens" c.prompt_tokens)
    insert (insert_usage c.order_id "output_tokens" c.completion_tokens)
    if ltb_ℤ (pos 0) c.gross && leb_ℤ c.commission c.gross
        then queue_charge c failpoint now
        else pure tt

  -- Whether it returned without an error.
  unfoldable pub complete_call : Completion → String → Run R Bool
  complete_call c failpoint =
      if is_free c.gross
      then pure true
      else (now_utc >>= λ now. in_transaction (write_call c failpoint now))

  -- A statement on its own whose error nobody reads.
  unfoldable pub start_worker : Run R (Unit {0})
  start_worker = now_utc >>= λ now. attempt (recover_sending now) >>= ignore

  module _ (g : GizPay R) where
    -- The early returns of a report do not end the loop.
    unfoldable pub report_each : List String → Run R (Unit {0})
    report_each [] w = (some tt, w)
    report_each (e ∷ es) w = report_each es (report_outbox g e w).1

    unfoldable pub tick : ℤ → ℕ → Run R (Unit {0})
    tick abandon_after batch_size = do
      now ← now_utc
      attempt (abandon_old now abandon_after)
      ids ← must (reading (find_batch batch_size))
      report_each ids
