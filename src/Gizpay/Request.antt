-- ===== src/Gizpay/Request.antt =====
-- One request of GizPay's HTTP handlers: the database with the statements that may fail, the
-- identifiers and the time that the handler draws, and the early returns with a response.
use Prim.Native.String
use Prim.Native.String.{String}
use gizway.Prelude.{ℕ, ◌+◌, Bool, true, false, Option, none, some, List, ◌∷◌, any, if◌then◌else◌}
use gizway.Int.{ℤ}
use gizway.Gizpay.Store.{Store, Instant, TopupRow, Subscription, SubscriptionKey, Merchant, Product}

pub record ChargeBody : Type 0 where
  pub charge_id : String
  pub external_order_id : String
  pub gross : ℤ
  pub platform_fee : ℤ
  pub main_merchant_net : ℤ
  pub ledger_transaction_id : String

pub record CreditBody : Type 0 where
  pub allowed : Bool
  pub available : ℤ
  pub account_id : String
  pub subscription_id : String
  pub subscription_key_id : String
  pub product_id : String
  pub billing_mode : String
  pub owner_issuer : String
  pub owner_subject : String
  pub checked_at : Instant
  pub recheck_after_seconds : ℤ

-- What a response carries; an error carries its code.
pub data Body : Type 0 where
  failure : String → Body
  charge : ChargeBody → Body
  topup : TopupRow → Body
  subscription : Subscription → Body
  subscription_key : SubscriptionKey → Body
  credit : CreditBody → Body
  merchant : Merchant → Body
  product : Product → Body

pub record Response : Type 0 where
  pub status : ℕ
  pub body : Body

-- errorJSON, and the calls of it that internal, invalid and notFound make.
abbrev pub error_json : ℕ → String → Response
error_json status code = record { status = status; body = failure code }

abbrev pub internal : Response
internal = error_json 500 "internal_error"

abbrev pub invalid : Response
invalid = error_json 400 "invalid_request"

abbrev pub not_found : Response
not_found = error_json 404 "not_found"

-- `fails n` says whether the n-th statement of the request fails in the database or on the way to
-- it or back; `lost n`, whether it then takes effect nonetheless, or whether the answer of the commit
-- that comes n-th is lost after it has taken effect. And `uuid n` is the n-th value of uuid.NewString.
pub record World : Type 0 where
  pub store : Store
  pub fails : ℕ → Bool
  pub lost : ℕ → Bool
  pub ran : ℕ
  pub uuid : ℕ → String
  pub drawn : ℕ
  pub now : Instant

pub data Outcome (A : Type 0) : Type 0 where
  done : A → Outcome A
  reply : Response → Outcome A

abbrev pub M : Type 0 → Type 0
M A = World → Outcome A × World

infixl 5 ◌>>=◌ ◌>>◌
abbrev pub ◌>>=◌ : {A B : Type 0} → M A → (A → M B) → M B
◌>>=◌ m f w = let (r, w') = m w in elim r [ done a ↦ f a w' | reply e ↦ (reply e, w') ]

abbrev pub ◌>>◌ : {A B : Type 0} → M A → M B → M B
m >> k = m >>= λ _. k

module _ {A : Type 0} where
  abbrev pub pure : A → M A
  pure a w = (done a, w)

  abbrev pub fail : Response → M A
  fail e w = (reply e, w)

-- `if test { errorJSON(...); return }`
abbrev pub reply_if : Bool → Response → M (Unit {0})
reply_if true e w = (reply e, w)
reply_if false e w = (done tt, w)

-- What a statement of the database returns.
pub data Sql (A : Type 0) : Type 0 where
  row : A → Sql A
  no_rows : Sql A
  violates : String → Sql A
  failed : Sql A

-- A join on a primary key.
abbrev pub join : {A B : Type 0} → Option A → (A → Sql B) → Sql B
join none f = no_rows
join (some a) f = f a

unfoldable pub statement : {A : Type 0} → (Store → Sql A × Store) → M (Sql A)
statement f w =
    let (r, s) = f w.store in
    if w.fails w.ran
    then (done failed, record w { ran = w.ran + 1; store = if w.lost w.ran then s else w.store })
    else (done r, record w { ran = w.ran + 1; store = s })

-- `if err != nil { errorJSON(...); return }`
abbrev pub or_reply : {A : Type 0} → Response → Sql A → M A
or_reply e (row a) w = (done a, w)
or_reply e no_rows w = (reply e, w)
or_reply e (violates c) w = (reply e, w)
or_reply e failed w = (reply e, w)

unfoldable pub exec : {A : Type 0} → Response → (Store → Sql A × Store) → M A
unfolding statement
exec e f = statement f >>= or_reply e

-- A query leaves the store alone.
abbrev pub query : {A : Type 0} → (Store → Sql A) → Store → Sql A × Store
query f s = (f s, s)

-- uuid.NewString behind a prefix.
unfoldable pub new_id : String → M String
new_id prefix w = (done (String.◌++◌ prefix (w.uuid w.drawn)), record w { drawn = w.drawn + 1 })

unfoldable pub now_utc : M Instant
now_utc w = (done w.now, w)

-- The answer of tx.Commit, when the commit has taken effect.
abbrev pub answer_commit : {A : Type 0} → Bool → A → World → Outcome A × World
answer_commit true a w = (reply internal, w)
answer_commit false a w = (done a, w)

-- BeginTxx, the body, and the deferred Rollback: a body that replies leaves no trace in the store. The
-- last statement of a body is its Commit, which fails without effect there, or else has taken effect.
unfoldable pub transaction : {A : Type 0} → M A → M A
transaction body w = elim (w.fails w.ran) [
  | true ↦ (reply internal, record w { ran = w.ran + 1 })
  | false ↦
      let (r, w') = body (record w { ran = w.ran + 1 }) in
      elim r [
        | done a ↦ answer_commit (w'.lost w'.ran) a w'
        | reply e ↦ (reply e, record w' { store = w.store })
      ]
]

-- An insertion with a uniqueness constraint.
abbrev pub insert_unique : {A : Type 0} → (A → Bool) → String → A → List A → Sql (Unit {0}) × List A
insert_unique clashes constraint new rows =
    if any clashes rows then (violates constraint, rows) else (row tt, new ∷ rows)
