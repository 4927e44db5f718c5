-- ===== src/Credit/Check.antt =====
-- The call of GizPay for the credit of a key (checkCredit and applyTo, internal/gizway/protocol.go).
-- The token source, the HTTP client and the JSON decoder are parameters: what they return is an
-- argument. An instant is a number of nanoseconds.
use Prim.Native.String.{String}
use gizway.Prelude.{
  ℕ, ◌^◌, Bool, true, false, not, ◌&&◌, ◌||◌, Option, none, some, leb, ◌==◌, if◌then◌else◌,
}
use gizway.Int.{ℤ, pos, ◌+ℤ◌, leb_ℤ}
use gizway.Int64.{mul64}
use gizway.Text.{str_eq}
use gizway.Targets.{ResolvedCall}
use gizway.Credit.{CreditAdmission, CheckResult}

-- The body of a credit check that succeeds.
pub record CreditAnswer : Type 0 where
  pub status : String
  pub product_id : String
  pub billing_mode : String
  pub available : ℤ
  pub recheck_after_seconds : ℤ
  pub account_id : String
  pub subscription_id : String
  pub subscription_key_id : String
  pub owner_issuer : String
  pub owner_subject : String
  pub checked_at : Option ℤ

-- A response: the status; of an error, the size that was read, unless reading failed, and the code
-- of a body that decodes; of a success, the body if it decodes.
pub data CreditReply : Type 0 where
  lost : CreditReply
  refused : ℕ → Option ℕ → Option String → CreditReply
  answered : Option CreditAnswer → CreditReply

-- ServiceToken may be nil, and may fail.
pub data TokenSource : Type 0 where
  absent failing working : TokenSource

pub data Failure : Type 0 where
  not_configured no_token no_response invalid_subscription_key not_decoded bad_metadata : Failure
  bad_status : ℕ → Failure

pub data Checked : Type 0 where
  checked : CheckResult → Checked
  failed : Failure → Checked

abbrev pub is_short : Option ℕ → Bool
is_short none = false
is_short (some size) = leb size 65_536

abbrev pub is_invalid_key_code : Option String → Bool
is_invalid_key_code none = false
is_invalid_key_code (some code) = str_eq code "invalid_subscription_key"

-- The zero time, and what is not a positive number of seconds or a known decision.
abbrev pub has_bad_metadata : CreditAnswer → Bool
has_bad_metadata r =
    leb_ℤ r.recheck_after_seconds (pos 0)
    || (elim r.checked_at [ none ↦ true | some t ↦ false ])
    || not (str_eq r.status "allowed") && not (str_eq r.status "denied")

abbrev pub instant_of : Option ℤ → ℤ
instant_of none = pos 0
instant_of (some t) = t

unfoldable pub check_result : CreditAnswer → CheckResult
check_result r = record {
  admission = record {
    account_id = r.account_id;
    subscription_id = r.subscription_id;
    subscription_key_id = r.subscription_key_id;
    product_id = r.product_id;
    billing = r.billing_mode;
    owner_issuer = r.owner_issuer;
    owner_subject = r.owner_subject;
    allowed = str_eq r.status "allowed";
  };
  available = r.available;
  expires = instant_of r.checked_at +ℤ mul64 r.recheck_after_seconds (pos (10 ^ 9));
}

unfoldable pub read_reply : CreditReply → Checked
unfolding check_result
read_reply lost = failed no_response
read_reply (refused status size code) =
    if is_short size && status == 401 && is_invalid_key_code code
    then failed invalid_subscription_key
    else failed (bad_status status)
read_reply (answered none) = failed not_decoded
read_reply (answered (some r)) =
    if has_bad_metadata r then failed bad_metadata else checked (check_result r)

-- `url` is GizPayURL.
unfoldable pub check_credit : String → TokenSource → CreditReply → Checked
unfolding read_reply
check_credit url absent reply = failed not_configured
check_credit url failing reply = if str_eq url "" then failed not_configured else failed no_token
check_credit url working reply = if str_eq url "" then failed not_configured else read_reply reply

-- What admit takes of the result.
abbrev pub result_of : Checked → Option CheckResult
result_of (checked r) = some r
result_of (failed f) = none

-- creditAdmission.applyTo
unfoldable pub apply_to : CreditAdmission → ResolvedCall → ResolvedCall
apply_to a call = record call {
  product_id = a.product_id;
  account_id = a.account_id;
  subscription_id = a.subscription_id;
  subscription_key_id = a.subscription_key_id;
  owner_issuer = a.owner_issuer;
  owner_subject = a.owner_subject;
}
