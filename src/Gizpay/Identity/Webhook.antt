-- ===== src/Gizpay/Identity/Webhook.antt =====
-- zitadelUserAuthenticated (internal/gizpay/handler.go): the webhook that initializes an identity. The
-- JSON decoder, the UUID library and the file system are parameters.
use Prim.Native.String.{String}
use gizway.Prelude.{
  ℕ, Bool, false, not, ◌&&◌, ◌||◌, leb, Option, none, some, List, [], ◌∷◌, if◌then◌else◌, length,
  ltb,
}
use gizway.Int.{ℤ, pos, leb_ℤ}
use gizway.Text.{str_eq, is_blank, trim_space}
use gizway.Gizpay.Request.{M, ◌>>◌, pure, fail, reply_if, error_json, Response}
use gizway.Gizpay.Identity.{Identity, initialize_identity}
use gizway.Gizpay.Identity.Signature.{Mac, validate_action_signature}

pub record Payload : Type 0 where
  pub merchant_id : String
  pub user_id : String
  pub human : Option String
  pub email : String
  pub name : String
  pub preferred_username : String

-- The part of Config that the webhook reads, and the libraries that it calls: ReadFile and Unmarshal
-- are none where they fail, and `canonical` is Parse and String of a UUID.
pub record WebhookConfig : Type 0 where
  pub zitadel_issuer : String
  pub action_signing_key : List ℕ
  pub action_signing_key_file : String
  pub action_signature_max_age : ℤ
  pub mac : Mac
  pub read_file : String → Option (List ℕ)
  pub unmarshal : List ℕ → Option Payload
  pub canonical : String → Option String

-- The body is what ReadAll returns behind the limit of 64 KiB and a byte; a header that is not there
-- is empty.
pub record WebhookRequest : Type 0 where
  pub body : Option (List ℕ)
  pub signature : String
  pub old_signature : String

abbrev pub current_key : List ℕ → Option (List ℕ) → List ℕ
current_key key none = key
current_key key (some []) = key
current_key key (some (b ∷ bs)) = b ∷ bs

abbrev pub signing_key : WebhookConfig → List ℕ
signing_key c =
    if str_eq c.action_signing_key_file ""
    then c.action_signing_key
    else current_key c.action_signing_key (c.read_file c.action_signing_key_file)

-- Five minutes where none is configured.
abbrev pub maximum_age_of : WebhookConfig → ℤ
maximum_age_of c =
    if leb_ℤ c.action_signature_max_age (pos 0)
    then pos 300000000000
    else c.action_signature_max_age

abbrev pub signature_of : WebhookRequest → String
signature_of r = if str_eq r.signature "" then r.old_signature else r.signature

abbrev pub is_human : Option String → Bool
is_human none = false
is_human (some human) = not (str_eq human "null")

abbrev pub is_same_text : String → Option String → Bool
is_same_text text none = false
is_same_text text (some other) = str_eq other text

abbrev pub is_bad_merchant : WebhookConfig → String → Bool
is_bad_merchant c merchant =
    not (str_eq merchant "") && not (is_same_text merchant (c.canonical merchant))

abbrev pub or_else : String → String → String
or_else text other = if str_eq text "" then other else text

abbrev pub identity_of : WebhookConfig → Payload → Identity
identity_of c p = record {
  issuer = c.zitadel_issuer;
  subject = p.user_id;
  email = trim_space p.email;
  display_name = or_else (or_else (trim_space p.name) (trim_space p.preferred_username)) p.user_id;
  requested_merchant = trim_space p.merchant_id;
}

abbrev pub bad_payload : Response
bad_payload = error_json 400 "invalid_request"

-- StatusNoContent is the outcome `tt`.
unfoldable pub initialize_human : WebhookConfig → Payload → M (Unit {0})
initialize_human c p = do
  reply_if (is_bad_merchant c (trim_space p.merchant_id)) bad_payload
  initialize_identity (identity_of c p)
  pure tt

abbrev pub serve_payload : WebhookConfig → Option Payload → M (Unit {0})
serve_payload c none = fail bad_payload
serve_payload c (some p) =
    if is_blank p.user_id
    then fail bad_payload
    else if is_human p.human
    then initialize_human c p
    else pure tt

abbrev pub is_bad_size : ℕ → Bool
is_bad_size n = leb n 0 || ltb 65536 n

abbrev pub serve_body : WebhookConfig → WebhookRequest → Option (List ℕ) → M (Unit {0})
serve_body c r none w = fail bad_payload w
serve_body c r (some body) w =
    if is_bad_size (length body)
    then fail bad_payload w
    else if validate_action_signature c.mac body (signature_of r) (signing_key c) w.now
        (maximum_age_of c)
    then serve_payload c (c.unmarshal body) w
    else fail (error_json 401 "invalid_webhook_signature") w

unfoldable pub zitadel_user_authenticated : WebhookConfig → WebhookRequest → M (Unit {0})
unfolding initialize_human
zitadel_user_authenticated c r = serve_body c r r.body
