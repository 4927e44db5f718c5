-- ===== src/Gizpay/Merchants/Tests.antt =====
-- Merchants and products of a small database (internal/gizpay/handler.go).
use Prim.Native.String.{String}
use gizway.Gizpay.Store.{Merchant, Account}
use gizway.Prelude.{inl, inr, sym, ap, ◌∙◌, none, some, List, [], ◌∷◌, ◌≡◌, refl, false}
use gizway.Text.{str_eq, str_eq_iff}
use gizway.Gizpay.Fixture.{start, world, healthy}
use gizway.Gizpay.Merchants.{MerchantRequest, Patch, ProductRequest}
use gizway.Gizpay.Merchants.Defaults.{HasDefaults}
use gizway.Gizpay.Merchants.History.{Call, creates, patches, serve_all, serve_all-HasDefaults}
use gizway.Gizpay.Merchants.Owned.{Owns, IsRefused, creates_product, serve, IsRefused-serve}

apart : (a b : String) → str_eq a b ≡ false → a ≡ b → ⊥
apart a b other same = let yes = (str_eq_iff a b).1 same in absurd (cc)

start-HasDefaults : HasDefaults start
start-HasDefaults = record {
  live = (λ e. refl, (λ e. refl, tt));
  keyed = (
    (λ e. refl, (λ e. absurd (apart "m2" "m1" refl e), tt)),
    ((λ e. absurd (apart "m1" "m2" refl e), (λ e. refl, tt)), tt),
  );
}

abbrev body : MerchantRequest
body = record { settlement_account_id = "a2"; legal_name = "Shop"; public_name = "Shop" }

abbrev disable : Patch
disable = record { name = none; status = some "inactive" }

abbrev requests : List Call
requests = creates "u2" (some body) ∷ patches "u2" "m1" (some disable) ∷ []

serve_all-HasDefaults_example : HasDefaults (serve_all requests (world healthy start)).store
serve_all-HasDefaults_example =
    serve_all-HasDefaults requests (world healthy start) start-HasDefaults

abbrev api : ProductRequest
api = record { name = "API"; billing_mode = "pay_as_you_go"; terms_version = "1" }

-- The owner of a1 has neither Merchant.
not_owned : ¬ Owns "u1" (creates_product "m2" (some api)) start
not_owned (m, there, same, (a, listed, its, own)) = elim there [
  | inl first ↦ apart "m1" "m2" refl (sym (ap (λ (x : Merchant). x.id) first) ∙ same)
  | inr (inl second) ↦
      let settles : m.settlement_account_id ≡ "a3" =
        ap (λ (x : Merchant). x.settlement_account_id) second in
      elim listed [
        | inl e ↦ apart "a1" "a3" refl (sym (ap (λ (x : Account). x.id) e) ∙ its ∙ settles)
        | inr (inl e) ↦ apart "u2" "u1" refl (sym (ap (λ (x : Account). x.owner_user_id) e) ∙ own)
        | inr (inr (inl e)) ↦
            apart "u2" "u1" refl (sym (ap (λ (x : Account). x.owner_user_id) e) ∙ own)
        | inr (inr (inr no_more)) ↦ no_more
      ]
  | inr (inr no_more) ↦ no_more
]

IsRefused-serve_example :
    IsRefused
      (world healthy start)
      (serve "u1" (creates_product "m2" (some api)) (world healthy start))
IsRefused-serve_example =
    IsRefused-serve "u1" (creates_product "m2" (some api)) (world healthy start) not_owned
