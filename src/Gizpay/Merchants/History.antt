-- ===== src/Gizpay/Merchants/History.antt =====
-- Sequences of the requests that write Merchants (merchants and merchantResource,
-- internal/gizpay/handler.go).
use Prim.Native.String.{String}
use gizway.Prelude.{Option, List, [], ◌∷◌}
use gizway.Gizpay.Request.{World}
use gizway.Gizpay.Merchants.{MerchantRequest, create_merchant, Patch, patch_merchant}
use gizway.Gizpay.Merchants.Defaults.{HasDefaults, create_merchant-HasDefaults}
use gizway.Gizpay.Merchants.Patched.{patch_merchant-HasDefaults}

-- A request of a user.
pub data Call : Type 0 where
  creates : String → Option MerchantRequest → Call
  patches : String → String → Option Patch → Call

abbrev pub serve : Call → World → World
serve (creates user request) w = (create_merchant user request w).1
serve (patches user id request) w = (patch_merchant user id request w).1

abbrev pub serve_all : List Call → World → World
serve_all [] w = w
serve_all (call ∷ calls) w = serve_all calls (serve call w)

-- After any sequence of POSTs and PATCHes of Merchants, with any outcomes and whichever statements
-- fail, every default Merchant is active and the Merchants have keys of their own, if so at the start.
pub serve_all-HasDefaults :
    (calls : List Call) (w : World) → HasDefaults w.store → HasDefaults (serve_all calls w).store
serve_all-HasDefaults [] w h = h
serve_all-HasDefaults (creates user request ∷ calls) w h =
    serve_all-HasDefaults calls (create_merchant user request w).1
      (create_merchant-HasDefaults user request w h)
serve_all-HasDefaults (patches user id request ∷ calls) w h =
    serve_all-HasDefaults calls (patch_merchant user id request w).1
      (patch_merchant-HasDefaults user id request w h)
