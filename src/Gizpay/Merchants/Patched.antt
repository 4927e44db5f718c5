-- ===== src/Gizpay/Merchants/Patched.antt =====
-- The PATCH of a Merchant (merchantResource, internal/gizpay/handler.go) and the default Merchants.
use Prim.Native.String.{String}
use gizway.Prelude.{All, Bool, true, false, ◌&&◌, ◌||◌, Option, none, some, ◌≡◌, arith}
use gizway.Text.{str_eq, str_eq_iff}
use gizway.Gizpay.Store.{Store, Merchant}
use gizway.Gizpay.Request.{
  World, pure, reply_if, row, exec, query, now_utc, error_json, internal, invalid, not_found,
  merchant,
}
use gizway.Gizpay.Keeps.{
  Keeps, Keeps-done, Keeps-reply, Keeps-bind, Keeps-bind_weaker, Keeps-bind_post, Keeps-reply_if,
  Keeps-exec, Keeps-exec_query, Keeps-now_utc,
}
use gizway.Gizpay.Merchants.{
  owns_account, find_own_merchant, Patch, is_empty, is_blank_name, is_bad_status, is_disabling,
  or_old, update_merchant, check_patch, patch_own_merchant, patch_merchant,
}
use gizway.Gizpay.Triple.{Post, Post-bind, Post-weaken}
use gizway.Gizpay.Charge.Reading.{query-row, reply_if-same}
use gizway.Gizpay.Merchants.Defaults.{
  IsLive, Owns, HasDefaults, All-both, All-select, update_merchant-HasDefaults,
}

-- The status that a PATCH sets on a default Merchant.
status-IsLive :
    (status : Option String) (m : Merchant)
    → IsLive m
    → is_bad_status status ≡ false
    → is_disabling status && m.is_default ≡ false
    → m.is_default ≡ true
    → str_eq (or_old status m.status) "active" ≡ true
status-IsLive none m live good kept default = live default
status-IsLive (some status) m live good kept default = ground arith

Keeps-check_patch :
    (I : Store → Type 0) (body : Patch) (w : World) → I w.store → Keeps I (check_patch body w)
unfolding check_patch
Keeps-check_patch I body w i =
    Keeps-bind I (reply_if (is_empty body || is_blank_name body.name) invalid)
      (λ _. reply_if (is_bad_status body.status) invalid) w
      (Keeps-reply_if I (is_empty body || is_blank_name body.name) invalid w i)
      (λ _ w' i'. Keeps-reply_if I (is_bad_status body.status) invalid w' i')

check_patch-status :
    (body : Patch) (w : World)
    → Post (λ _ t. is_bad_status body.status ≡ false) (check_patch body w)
unfolding check_patch
check_patch-status body w =
    Post-bind _ _ (reply_if (is_empty body || is_blank_name body.name) invalid)
      (λ _. reply_if (is_bad_status body.status) invalid) w
      (reply_if-same (is_empty body || is_blank_name body.name) invalid w)
      (λ _ w' s.
        Post-weaken _ _ _ (reply_if-same (is_bad_status body.status) invalid w')
          (λ _ t (_, good). good))

module _ (id : String) (m : Merchant) where
  -- The Merchants are as they should be, and the row that is read is the one of its ID.
  J : Store → Type 0
  J s = HasDefaults s × All (Owns m) s.merchants

  patch_own_merchant-HasDefaults :
      (request : Option Patch) (w : World)
      → m.id ≡ id
      → IsLive m
      → J w.store
      → Keeps HasDefaults (patch_own_merchant id request m w)
  unfolding patch_own_merchant J
  patch_own_merchant-HasDefaults none w own live (h, owns) = Keeps-reply HasDefaults invalid w h
  patch_own_merchant-HasDefaults (some body) w own live h =
      let I = HasDefaults in
      Keeps-bind_post J I (λ s j. j.0) (λ _ t. is_bad_status body.status ≡ false) (check_patch body)
        _ w (Keeps-check_patch J body w h) (check_patch-status body w)
        (λ _ w1 h1 good.
          Keeps-bind_post J I (λ s j. j.0)
            (λ _ t. (t ≡ w1.store) × (is_disabling body.status && m.is_default ≡ false))
            (reply_if (is_disabling body.status && m.is_default)
              (error_json 409 "default_merchant_in_use"))
            _ w1 (Keeps-reply_if J _ _ w1 h1) (reply_if-same _ _ w1)
            (λ _ w2 h2 (_, kept).
              Keeps-bind_weaker J I (λ s j. j.0) now_utc _ w2 (Keeps-now_utc J w2 h2)
                (λ now w3 (h3, owns).
                  let name = or_old body.name m.public_name in
                  let status = or_old body.status m.status in
                  Keeps-bind I (exec internal (update_merchant id name status))
                    (λ _. pure (record {
                      status = 200;
                      body = merchant (record m { public_name = name; status = status });
                    }))
                    w3
                    (Keeps-exec I internal (update_merchant id name status) w3 h3 (
                      update_merchant-HasDefaults id name status m w3.store own owns
                        (status-IsLive body.status m live good kept) h3))
                    (λ _ w4 h4. Keeps-done I _ w4 h4))))

-- Whatever the outcome of the PATCH of a Merchant, and whichever statements fail, every default
-- Merchant is active and the Merchants keep their key.
pub patch_merchant-HasDefaults :
    (user id : String) (request : Option Patch) (w : World)
    → HasDefaults w.store
    → HasDefaults (patch_merchant user id request w).1.store
unfolding patch_merchant J find_own_merchant
patch_merchant-HasDefaults user id request w h =
    let I = HasDefaults in
    (Keeps-bind_post I I (λ s i. i)
      (λ m t. (t ≡ w.store) × (find_own_merchant user id w.store ≡ row m))
      (exec not_found (query (find_own_merchant user id))) (patch_own_merchant id request) w
      (Keeps-exec_query I not_found (find_own_merchant user id) w h)
      (query-row not_found (find_own_merchant user id) w)
      (λ m w1 h1 (same, found).
        let ((live, owns), named) =
          All-select (λ q. IsLive q × All (Owns q) w.store.merchants)
            (λ q. str_eq q.id id && owns_account user q.settlement_account_id w.store)
            w.store.merchants m
            (All-both IsLive (λ q. All (Owns q) w.store.merchants) w.store.merchants h.live h.keyed)
            found in
        patch_own_merchant-HasDefaults id m request w1 ((str_eq_iff m.id id).0 (left _ _ named))
          live (h1, rw same owns))).holds
  where
    left : (a b : Bool) → a && b ≡ true → a ≡ true
    left a b e = ground arith
