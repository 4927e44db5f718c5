-- ===== src/Gizpay/Tests.antt =====
-- platformFee and validateOrderMetadata (internal/gizpay/handler.go) at concrete inputs.

use gizway.Prelude.{◌≤◌, ◌<◌, ◌≡◌, ◌↔◌, true, some, arith}
use gizway.Int.{pos}
use gizway.Gizpay.Fee.{platform_fee, fee_of, platform_fee-eq-fee_of}
use gizway.Gizpay.Metadata.{object, string, end, field, RawMessage, validate_order_metadata}
use gizway.Gizpay.Metadata.Keys.{IsCleanObject, validate_order_metadata_iff}

platform_fee-eq-fee_of_example :
    (platform_fee (pos 12345678) (pos 250) ≡ pos (fee_of 12345678 250))
    × (fee_of 12345678 250 ≤ 12345678)
platform_fee-eq-fee_of_example = platform_fee-eq-fee_of 12345678 250 (omega arith) (omega arith)

abbrev order : RawMessage
order = record {
  size = 44;
  value = some (
      object (
        field "model" (string "m")
          (field "nested" (object (field "Secret_ID" (string "x") end)) end)));
}

validate_order_metadata_iff_example :
    (validate_order_metadata order 4096 ≡ true)
    ↔ ((0 < 44) × (44 ≤ 4096) × IsCleanObject order.value)
validate_order_metadata_iff_example = validate_order_metadata_iff order 4096
