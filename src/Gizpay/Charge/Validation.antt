-- ===== src/Gizpay/Charge/Validation.antt =====
-- The request of createCharge (internal/gizpay/handler.go) and the checks made before the database
-- is asked: the fields, and the loop over the commissions.
pub mod Laws
use Prim.Native.String.{String}
use gizway.Prelude.{
  ℕ, zero, Bool, true, false, ◌||◌, not, Option, none, some, List, [], ◌∷◌, any, length, ltb,
  if◌then◌else◌,
}
use gizway.Int.{ℤ, pos, ltb_ℤ, leb_ℤ}
use gizway.Int64.{sub64, add64}
use gizway.Text.{str_eq, is_blank}
use gizway.Gizpay.Store.{Instant}
use gizway.Gizpay.Request.{M, pure, fail, Response, error_json}
use gizway.Gizpay.Metadata.{RawMessage, validate_order_metadata}

-- The fields of Config that the charge reads.
pub record Config : Type 0 where
  pub platform_fee_bps : ℤ
  pub max_order_metadata_bytes : ℕ
  pub max_commissions : ℕ

pub record CommissionRequest : Type 0 where
  pub merchant_id : String
  pub amount : ℤ

pub record ChargeRequest : Type 0 where
  pub external_order_id : String
  pub subscription_key_hmac : String
  pub gross : ℤ
  pub commissions : List CommissionRequest
  pub order : RawMessage
  pub started : Instant
  pub completed : Instant

pub data Check (A : Type 0) : Type 0 where
  pass : A → Check A
  reject : String → Check A

abbrev pub of_check : {A : Type 0} → Check A → M A
of_check (pass a) = pure a
of_check (reject code) = fail (error_json 400 code)

-- `Time.IsZero`
abbrev pub is_zero : Instant → Bool
is_zero (pos zero) = true
is_zero _ = false

-- The tests from `external_order_id` to the order metadata.
unfoldable pub check_request : Config → ChargeRequest → Check (Unit {0})
check_request config body =
    if is_blank body.external_order_id
    then reject "invalid_external_order_id"
    else if is_blank body.subscription_key_hmac
    then reject "invalid_subscription_key_hmac"
    else if leb_ℤ body.gross (pos 0)
    then reject "invalid_gross_microcredits"
    else if is_zero body.started || is_zero body.completed || ltb_ℤ body.completed body.started
    then reject "invalid_service_time_range"
    else if ltb config.max_commissions (length body.commissions)
    then reject "too_many_commissions"
    else if not (validate_order_metadata body.order config.max_order_metadata_bytes)
    then reject "invalid_order_metadata"
    else pass tt

-- The loop over the commissions, from a sum and the Merchants seen on.
unfoldable pub check_from : ℤ → List String → ℤ → List CommissionRequest → Check ℤ
check_from gross seen sum [] = pass sum
check_from gross seen sum (c ∷ cs) =
    let rest = check_from gross (c.merchant_id ∷ seen) (add64 sum c.amount) cs in
    if is_blank c.merchant_id || ltb_ℤ c.amount (pos 0)
    then reject "invalid_commission_amount"
    else if any (str_eq c.merchant_id) seen
    then reject "duplicate_commission_merchant"
    else if ltb_ℤ (sub64 gross sum) c.amount
    then reject "commission_exceeds_gross"
    else rest

unfoldable pub check_commissions : ℤ → List CommissionRequest → Check ℤ
check_commissions gross commissions = check_from gross [] (pos 0) commissions
