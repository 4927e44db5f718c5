-- ===== src/Gizpay/Identity/Authentic.antt =====
-- Who a webhook acts for (zitadelUserAuthenticated, internal/gizpay/handler.go).

use Prim.Native.String.{String}
use gizway.Prelude.{ℕ, true, false, some, List, ◌≡◌, ◌⊎◌, length, ◌≤◌}
use gizway.Text.{str_eq, trim_space}
use gizway.Gizpay.Store.{Store}
use gizway.Gizpay.Request.{internal, World, Outcome, done, reply}
use gizway.Gizpay.Identity.{Identity, Initialized}
use gizway.Gizpay.Identity.Tied.{Tied}
use gizway.Gizpay.Identity.Signed.{IsSigned}
use gizway.Gizpay.Identity.Webhook.{
  Payload, WebhookConfig, WebhookRequest, signing_key, maximum_age_of, signature_of,
}

-- A database with the user of an identity, the user's account and its default Merchant: the identity is
-- of the configured issuer and of the payload's user, and the Merchant is the one that the payload
-- requests, if any.
pub record HasUser (c : WebhookConfig) (p : Payload) (t : Store) : Type 0 where
  pub identity : Identity
  pub initialized : Initialized
  pub of_issuer : identity.issuer ≡ c.zitadel_issuer
  pub of_user : identity.subject ≡ p.user_id
  pub of_merchant : identity.requested_merchant ≡ trim_space p.merchant_id
  pub tied : Tied identity initialized t

-- The payload has a human, as far as JSON goes.
abbrev pub IsHuman : Payload → Type 0
IsHuman p = (human : String) × (p.human ≡ some human) × (str_eq human "null" ≡ false)

abbrev pub Initializes : WebhookConfig → Payload → Store → Store → Type 0
Initializes c p s t = (¬ IsHuman p) × (t ≡ s) ⊎ IsHuman p × HasUser c p t

-- A request that is authentic, and what comes of it.
pub record IsAccepted (c : WebhookConfig) (r : WebhookRequest) (w : World) (t : Store)
    : Type 0 where
  pub body : List ℕ
  pub is_read : r.body ≡ some body
  pub small : length body ≤ 65536
  pub signed : IsSigned c.mac body (signature_of r) (signing_key c) w.now (maximum_age_of c)
  pub payload : Payload
  pub is_decoded : c.unmarshal body ≡ some payload
  pub initializes : Initializes c payload w.store t

abbrev Outcomes : WebhookConfig → WebhookRequest → World → Outcome (Unit {0}) × World → Type 0
Outcomes c r w (done a, w') = IsAccepted c r w w'.store
Outcomes c r w (reply e, w') =
    (w'.store ≡ w.store) ⊎ ((e ≡ internal) × (w'.lost w'.ran ≡ true) × IsAccepted c r w w'.store)

pub record IsAuthentic (c : WebhookConfig) (r : WebhookRequest) (w : World)
    (o : Outcome (Unit {0}) × World) : Type 0 where
  pub outcomes : Outcomes c r w o

abbrev Effects : WebhookConfig → Payload → Store → Outcome (Unit {0}) × World → Type 0
Effects c p s (done a, w) = Initializes c p s w.store
Effects c p s (reply e, w) =
    (w.store ≡ s) ⊎ ((e ≡ internal) × (w.lost w.ran ≡ true) × Initializes c p s w.store)

record HasEffects (c : WebhookConfig) (p : Payload) (s : Store) (o : Outcome (Unit {0}) × World)
    : Type 0 where
  effects : Effects c p s o
