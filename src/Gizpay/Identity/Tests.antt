-- ===== src/Gizpay/Identity/Tests.antt =====
-- A person who signs in to a small database (initializeIdentity and its webhook,
-- internal/gizpay/handler.go).
use mathlib.Core.Option
use Prim.Native.String.{String}
use gizway.Prelude.{[], ◌∷◌, ◌++◌, none, some, true, ◌≡◌, ◌↔◌, refl}
use gizway.Int.{pos, ◌+ℤ◌, ◌-ℤ◌, ◌*ℤ◌}
use gizway.Int64.{wrap64}
use gizway.Text.{codes_eq, split, trim_left, trim_right, is_space}
use gizway.Gizpay.Store.{Instant}
use gizway.Gizpay.Request.{World}
use gizway.Gizpay.Fixture.{start, world, healthy}
use gizway.Gizpay.Triple.{Post}
use gizway.Gizpay.Identity.{Identity, initialize_identity}
use gizway.Gizpay.Identity.Signature.{
  Mac, validate_action_signature, read_parts, parse_int, digits_from, decode_hex, age_at, cut,
}
use gizway.Gizpay.Identity.Signed.{IsSigned, validate_action_signature_iff}
use gizway.Gizpay.Identity.Webhook.{Payload, WebhookConfig, WebhookRequest}
use gizway.Gizpay.Identity.Tied.{Tied, initialize_identity-Tied}

abbrev person : Identity
person = record {
  issuer = "iss";
  subject = "new";
  email = "n@x";
  display_name = "New";
  requested_merchant = "0b6e";
}

initialized_tested : Post (Tied person) (initialize_identity person (world healthy start))
initialized_tested = initialize_identity-Tied person (world healthy start)

-- A digest that is its own text.
abbrev plain : Mac
plain secret text = secret ++ text

abbrev epoch : Instant
epoch = pos 62135596800000000000

abbrev header : String
header = " t=0, v1=07302E01"

webhook_signed :
    validate_action_signature plain (1 ∷ []) header (7 ∷ []) epoch (pos 300000000000) ≡ true
unfolding validate_action_signature read_parts parse_int digits_from decode_hex age_at cut codes_eq
    split trim_left trim_right is_space wrap64 ◌+ℤ◌ ◌-ℤ◌ ◌*ℤ◌ Option.bind
webhook_signed = refl

validate_action_signature_iff_example :
    (validate_action_signature plain (1 ∷ []) header (7 ∷ []) epoch (pos 300000000000) ≡ true)
    ↔ IsSigned plain (1 ∷ []) header (7 ∷ []) epoch (pos 300000000000)
validate_action_signature_iff_example =
    validate_action_signature_iff plain (1 ∷ []) header (7 ∷ []) epoch (pos 300000000000)

abbrev new_user : Payload
new_user = record {
  merchant_id = "";
  user_id = "new";
  human = some "{}";
  email = " n@x";
  name = "";
  preferred_username = "New ";
}

abbrev hook : WebhookConfig
hook = record {
  zitadel_issuer = "iss";
  action_signing_key = 7 ∷ [];
  action_signing_key_file = "";
  action_signature_max_age = pos 0;
  mac = plain;
  read_file = λ name. none;
  unmarshal = λ body. some new_user;
  canonical = λ id. some id;
}

abbrev call : WebhookRequest
call = record { body = some (1 ∷ []); signature = ""; old_signature = header }

abbrev at_epoch : World
at_epoch = record (world healthy start) { now = epoch }
