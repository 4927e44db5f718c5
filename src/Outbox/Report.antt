-- ===== src/Outbox/Report.antt =====
-- reportOutbox and markOutboxReported (internal/gizway/protocol.go).
pub mod Rules
pub mod Rows
pub mod Soundness
pub mod Kept
pub mod Safe
pub mod Earned
pub mod Settled
mod Tests
use Prim.Native.String.{String}
use gizway.Prelude.{
  ℕ, Bool, true, false, not, ◌&&◌, ◌==◌, Option, none, some, List, [], ◌∷◌, any, find,
  if◌then◌else◌,
}
use gizway.Int.{ℤ, ◌+ℤ◌}
use gizway.Int64.{fits64}
use gizway.Text.{str_eq}
use gizway.Gizpay.Store.{Instant}
use gizway.Outbox.{
  OutboxStatus, pending, sending, reported, abandoned, is_open, OutboxRow, AiOrder, OrderStatus,
  unbilled, charged, billing_failed, KeyRow, Db, GizPay, Site, Run, ◌>>=◌, ◌>>◌, pure, stop,
  stop_if, attempt, must, reading, in_transaction,
}

-- `UPDATE charge_outbox SET ... WHERE ...`
abbrev pub update_rows :
    (OutboxRow → Bool) → (OutboxRow → OutboxRow) → List OutboxRow → List OutboxRow
update_rows p f [] = []
update_rows p f (r ∷ rs) = (if p r then f r else r) ∷ update_rows p f rs

abbrev pub open_row : String → OutboxRow → Bool
open_row id r = str_eq r.id id && is_open r.status

-- `SET status=...,recover_duplicate=...,updated_at=...`
abbrev pub set_row : OutboxStatus → Bool → Instant → OutboxRow → OutboxRow
set_row status recover now r = record r {
  status = status;
  recover_duplicate = recover;
  updated_at = now;
}

unfoldable pub find_open : String → Db → Option OutboxRow
find_open external_id db =
    find (λ r. str_eq r.external_order_id external_id && is_open r.status) db.charge_outbox

-- Persist uncertainty: whether a row was updated.
unfoldable pub mark_sending : String → Instant → Db → Bool × Db
mark_sending id now db = (
  any (open_row id) db.charge_outbox,
  record db {
    charge_outbox = update_rows (open_row id) (set_row sending true now) db.charge_outbox;
  },
)

-- `UPDATE charge_outbox SET status='pending',recover_duplicate=$1,... WHERE id=$2`
unfoldable pub set_pending : String → Bool → Instant → Db → Unit {0} × Db
set_pending id recover now db = (
  tt,
  record db {
    charge_outbox =
        update_rows (λ r. str_eq r.id id) (set_row pending recover now) db.charge_outbox;
  },
)

unfoldable pub update_orders : (AiOrder → Bool) → (AiOrder → AiOrder) → List AiOrder → List AiOrder
update_orders p f [] = []
update_orders p f (o ∷ os) = (if p o then f o else o) ∷ update_orders p f os

abbrev pub row_of_order : String → String → OutboxRow → Bool
row_of_order id order_id r = str_eq r.id id && str_eq r.ai_order_id order_id

-- The statement `WITH conflict AS (...)`: whether an AI Order was updated.
unfoldable pub abandon_conflict : String → String → Instant → Db → Bool × Db
abandon_conflict id order_id now db =
    let found = any (row_of_order id order_id) db.charge_outbox in
    (
      found && any (λ o. str_eq o.id order_id) db.ai_orders,
      record db {
        charge_outbox =
            update_rows (row_of_order id order_id) (set_row abandoned false now) db.charge_outbox;
        ai_orders =
            update_orders (λ o. found && str_eq o.id order_id)
              (λ o. record o {
                status = billing_failed;
                billing_error = some "duplicate_external_order_id";
              })
              db.ai_orders;
      },
    )

unfoldable pub complete_row : String → String → Instant → Db → Bool × Db
complete_row id order_id now db = (
  any (λ r. open_row id r && str_eq r.ai_order_id order_id) db.charge_outbox,
  record db {
    charge_outbox =
        update_rows (λ r. open_row id r && str_eq r.ai_order_id order_id)
          (set_row reported false now) db.charge_outbox;
  },
)

unfoldable pub charge_order : String → Db → Unit {0} × Db
charge_order order_id db = (
  tt,
  record db {
    ai_orders =
        update_orders (λ o. str_eq o.id order_id) (λ o. record o { status = charged }) db.ai_orders;
  },
)

-- `SET earned_microcredits=earned_microcredits+$1,updated_at=$2`
unfoldable pub earn : String → ℤ → Instant → List KeyRow → List KeyRow
earn key amount now [] = []
earn key amount now (k ∷ ks) =
    (if str_eq k.provider_key_id key
      then record k { earned = k.earned +ℤ amount; updated_at = now }
      else k)
    ∷ earn key amount now ks

-- Whether the sum does not fit a BIGINT, which the statement refuses.
unfoldable pub earns_too_much : String → ℤ → List KeyRow → Bool
earns_too_much key amount ks =
    any (λ k. str_eq k.provider_key_id key && not (fits64 (k.earned +ℤ amount))) ks

abbrev pub earn_billing : String → ℤ → Instant → Db → Bool × Db
earn_billing key amount now db = (
  earns_too_much key amount db.provider_key_billing,
  record db { provider_key_billing = earn key amount now db.provider_key_billing },
)

abbrev pub earn_sync : String → ℤ → Instant → Db → Bool × Db
earn_sync key amount now db = (
  earns_too_much key amount db.provider_keys,
  record db { provider_keys = earn key amount now db.provider_keys },
)

unfoldable pub find_order : String → Db → Option AiOrder
find_order order_id db = find (λ o. str_eq o.id order_id) db.ai_orders

module _ {R : Type 0} where
  -- sql.ErrNoRows is an error.
  abbrev pub some_row : {A : Type 0} → Option A → Run R A
  some_row none = stop
  some_row (some a) = pure a

  -- The last two statements of the transaction.
  unfoldable pub earn_commission : AiOrder → Instant → Run R (Unit {0})
  earn_commission order now = do
    billing_overflow ← must (earn_billing order.provider_key_id order.commission now)
    stop_if billing_overflow
    sync_overflow ← must (earn_sync order.provider_key_id order.commission now)
    stop_if sync_overflow

  -- The body of the transaction of markOutboxReported.
  unfoldable pub complete : String → String → Instant → Run R (Unit {0})
  complete id order_id now = do
    found ← must (reading (find_order order_id))
    order ← some_row found
    updated ← must (complete_row id order_id now)
    stop_if (not updated)
    must (charge_order order_id)
    earn_commission order now

  -- Whether it returned without an error.
  unfoldable pub mark_outbox_reported : String → String → Instant → Run R Bool
  mark_outbox_reported id order_id now = in_transaction (complete id order_id now)

  abbrev pub ignore : {A : Type 0} → Option A → Run R (Unit {0})
  ignore _ = pure tt

  -- `_, _ = h.config.DB.Exec(...)`
  abbrev pub leave_pending : String → Bool → Instant → Run R (Unit {0})
  leave_pending id recover now = attempt (set_pending id recover now) >>= ignore

  -- A row is reported: GizPay has the charge, or it has answered otherwise.
  unfoldable pub finish : OutboxRow → Instant → Bool → Run R (Unit {0})
  finish r now true = mark_outbox_reported r.id r.ai_order_id now >>= λ ok. elim ok [
    | true ↦ pure tt
    | false ↦ leave_pending r.id true now
  ]
  finish r now false = leave_pending r.id r.recover_duplicate now

  abbrev pub answer_abandon : OutboxRow → Instant → Option Bool → Run R (Unit {0})
  answer_abandon r now (some true) = pure tt
  answer_abandon r now (some false) = leave_pending r.id false now
  answer_abandon r now none = leave_pending r.id false now

  -- A conflict of a fresh row.
  unfoldable pub abandon : OutboxRow → Instant → Run R (Unit {0})
  abandon r now = attempt (abandon_conflict r.id r.ai_order_id now) >>= answer_abandon r now

  abbrev pub answer_find : OutboxRow → Instant → Option ℕ → Run R (Unit {0})
  answer_find r now none = leave_pending r.id true now
  answer_find r now (some code) = finish r now (code == 200)

  abbrev pub now_utc : Run R Instant
  now_utc w = (some w.now, w)

  module _ (g : GizPay R) where
    abbrev pub stop_without_token : Run R (Unit {0})
    stop_without_token w = stop_if (not (g.has_token w.remote)) w

    abbrev pub post_charge : OutboxRow → Run R (Option ℕ)
    post_charge r w =
        let (answer, s) = g.post r.payload w.remote in (some answer, record w { remote = s })

    abbrev pub find_charge : String → Run R (Option ℕ)
    find_charge external_id w =
        let (answer, s) = g.find external_id w.remote in (some answer, record w { remote = s })

    -- A conflict of a row whose earlier POST may have been accepted.
    unfoldable pub recover : String → OutboxRow → Instant → Run R (Unit {0})
    recover external_id r now =
        if g.find_builds external_id
        then (find_charge external_id >>= answer_find r now)
        else leave_pending r.id true now

    abbrev pub answer_post : String → OutboxRow → Instant → Option ℕ → Run R (Unit {0})
    answer_post external_id r now none = leave_pending r.id true now
    answer_post external_id r now (some code) =
        if code == 409
        then (if r.recover_duplicate then recover external_id r now else abandon r now)
        else finish r now (code == 201)

    -- From the row that is read on: the uncertainty is written before the POST, which answers by the
    -- row as it was read.
    unfoldable pub send_row : String → OutboxRow → Run R (Unit {0})
    send_row external_id r = do
      stop_without_token
      stop_if (not g.post_builds)
      now ← now_utc
      updated ← must (mark_sending r.id now)
      stop_if (not updated)
      answer ← post_charge r
      answer_post external_id r now answer

    unfoldable pub report_outbox : String → Run R (Unit {0})
    report_outbox external_id = do
      stop_if (not g.configured)
      found ← must (reading (find_open external_id))
      r ← some_row found
      send_row external_id r
