-- ===== src/Gizpay/Keys/Tests.antt =====
-- The revocation and the creation of a key on a small database (subscriptionKeys,
-- internal/gizpay/handler.go).
use Prim.Native.String
use Prim.Native.String.{String}
use gizway.Prelude.{some}
use gizway.Gizpay.Fixture.{start, world, healthy}
use gizway.Gizpay.Keys.{KeyRequest}
use gizway.Gizpay.Keys.Aging.{Extends, creates, serve, serve-Extends}

abbrev body : KeyRequest
body = record { id = "k2"; name = "spare" }

abbrev hmac : String → String
hmac key = String.◌++◌ "hmac:" key

serve-Extends_example :
    Extends start.subscription_keys
      (serve
        (creates hmac (some "gzk2") "s1" (some body))
        (world healthy start)).store.subscription_keys
serve-Extends_example =
    serve-Extends (creates hmac (some "gzk2") "s1" (some body)) (world healthy start)
