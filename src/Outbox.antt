-- ===== src/Outbox.antt =====
-- The Charge Outbox of GizWay (internal/gizway/protocol.go and internal/gizway/handler.go, with the
-- tables of data/sql/gizway/migrations/000001_schema.sql): the rows, the database with its faults, and
-- GizPay as the Outbox sees it.
pub mod Report
pub mod Worker
pub mod KeyUse
mod Fixture
use Prim.Native.String.{String}
use gizway.Prelude.{ℕ, ◌+◌, Bool, true, false, Option, none, some, List, [], ◌∷◌}
use gizway.Int.{ℤ}
use gizway.Gizpay.Store.{Instant}

pub data OutboxStatus : Type 0 where
  pending sending reported abandoned : OutboxStatus

abbrev pub is_open : OutboxStatus → Bool
is_open pending = true
is_open sending = true
is_open reported = false
is_open abandoned = false

-- What the POST to /service/v1/payg-charges says.
pub record ChargePayload : Type 0 where
  pub external_order_id : String
  pub subscription_key_hmac : String
  pub gross : ℤ
  pub merchant_id : String
  pub commission : ℤ

pub record OutboxRow : Type 0 where
  pub id : String
  pub external_order_id : String
  pub ai_order_id : String
  pub payload : ChargePayload
  pub status : OutboxStatus
  pub recover_duplicate : Bool
  pub created_at : Instant
  pub updated_at : Instant

pub data OrderStatus : Type 0 where
  unbilled charged billing_failed : OrderStatus

-- An AI Order: the columns that the Outbox reads and writes. `unbilled` is the status 'pending'.
pub record AiOrder : Type 0 where
  pub id : String
  pub external_order_id : String
  pub provider_key_id : String
  pub gross : ℤ
  pub commission : ℤ
  pub billing_error : Option String
  pub status : OrderStatus

-- A row of provider_key_billing, and of client_sync.provider_keys.
pub record KeyRow : Type 0 where
  pub provider_key_id : String
  pub last_used_at : Option Instant
  pub earned : ℤ
  pub updated_at : Instant

pub record UsageRow : Type 0 where
  pub order_id : String
  pub metric : String
  pub quantity : ℤ

pub record Db : Type 0 where
  pub ai_orders : List AiOrder
  pub ai_usage : List UsageRow
  pub charge_outbox : List OutboxRow
  pub provider_key_billing : List KeyRow
  pub provider_keys : List KeyRow

-- What becomes of a statement: it takes effect and says so, it fails, or it takes effect and the
-- answer is lost, which the caller sees as a failure.
pub data Fault : Type 0 where
  works fails lost : Fault

-- GizPay and the network, not under this program's control: what a POST of a charge and a GET of one
-- answer (the HTTP status; nothing where the exchange fails) and how they change GizPay; whether a
-- service token is there, and whether the requests can be built.
pub record GizPay (R : Type 0) : Type 0 where
  pub configured : Bool
  pub post_builds : Bool
  pub find_builds : String → Bool
  pub has_token : R → Bool
  pub post : ChargePayload → R → Option ℕ × R
  pub find : String → R → Option ℕ × R

pub record Site (R : Type 0) : Type 0 where
  pub db : Db
  pub remote : R
  pub fault : ℕ → Fault
  pub ran : ℕ
  pub now : Instant

-- A step of a function without a result: `none` is an early return.
abbrev pub Run : Type 0 → Type 0 → Type 0
Run R A = Site R → Option A × Site R

-- A query leaves the database alone.
abbrev pub reading : {A : Type 0} → (Db → A) → Db → A × Db
reading f db = (f db, db)

module _ {R : Type 0} where
  abbrev pub pure : {A : Type 0} → A → Run R A
  pure a w = (some a, w)

  infixl 5 ◌>>=◌ ◌>>◌
  abbrev pub ◌>>=◌ : {A B : Type 0} → Run R A → (A → Run R B) → Run R B
  ◌>>=◌ m f w = let (r, w') = m w in elim r [ none ↦ (none, w') | some a ↦ f a w' ]

  abbrev pub ◌>>◌ : {A B : Type 0} → Run R A → Run R B → Run R B
  m >> n = m >>= λ _. n

  abbrev pub stop : {A : Type 0} → Run R A
  stop w = (none, w)

  abbrev pub stop_if : Bool → Run R (Unit {0})
  stop_if true = stop
  stop_if false = pure tt

  abbrev pub faulted : {A : Type 0} → Fault → A → Db → Site R → Option (Option A) × Site R
  faulted works a db w = (some (some a), record w { db = db; ran = w.ran + 1 })
  faulted fails a db w = (some none, record w { ran = w.ran + 1 })
  faulted lost a db w = (some none, record w { db = db; ran = w.ran + 1 })

  -- A statement of its own: what it answers, or nothing where its answer is an error.
  unfoldable pub attempt : {A : Type 0} → (Db → A × Db) → Run R (Option A)
  attempt f w = let (a, db) = f w.db in faulted (w.fault w.ran) a db w

  abbrev pub or_stop : {A : Type 0} → Option A → Run R A
  or_stop none = stop
  or_stop (some a) = pure a

  -- `if err != nil { return }`
  unfoldable pub must : {A : Type 0} → (Db → A × Db) → Run R A
  must f = attempt f >>= or_stop

  abbrev pub committed : Fault → Db → Site R → Option Bool × Site R
  committed works before w = (some true, record w { ran = w.ran + 1 })
  committed fails before w = (some false, record w { db = before; ran = w.ran + 1 })
  committed lost before w = (some false, record w { ran = w.ran + 1 })

  abbrev pub ended : Db → Option (Unit {0}) → Site R → Option Bool × Site R
  ended before (some _) w = committed (w.fault w.ran) before w
  ended before none w = (some false, record w { db = before })

  abbrev pub begun : Fault → Run R (Unit {0}) → Run R Bool
  begun works body w = let (r, w') = body (record w { ran = w.ran + 1 }) in ended w.db r w'
  begun fails body w = (some false, record w { ran = w.ran + 1 })
  begun lost body w = (some false, record w { ran = w.ran + 1 })

  -- BeginTxx, the body, the commit and the deferred Rollback: whether it returned without an error. A
  -- commit may have happened where its answer was lost.
  unfoldable pub in_transaction : Run R (Unit {0}) → Run R Bool
  in_transaction body w = begun (w.fault w.ran) body w
