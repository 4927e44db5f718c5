-- ===== src/Gizpay/Subscribe/Tests.antt =====
-- Subscriptions on a small database (createSubscription, internal/gizpay/handler.go).

use gizway.Prelude.{false, some, ◌∷◌, ◌≡◌, refl}
use gizway.Gizpay.Store.{Subscription}
use gizway.Text.{is_blank}
use gizway.Gizpay.Request.{World, reply, subscription, exec, statement}
use gizway.Gizpay.Triple.{Post}
use gizway.Gizpay.Fixture.{start, world, healthy, ninth}
use gizway.Gizpay.Subscribe.{
  SubscriptionRequest, new_subscription, create_subscription, check_subscription,
  replay_subscription, find_subscription, find_terms, find_other, check_other, insert_subscription,
  clashes,
}
use gizway.Gizpay.Subscribe.Unique.{IsUnique, create_subscription-IsUnique}
use gizway.Gizpay.Subscribe.Accepted.{
  IsCreated, IsOffered, create_subscription-IsCreated, create_subscription_again,
}

-- The owner of a2 subscribes to p1.
abbrev body : SubscriptionRequest
body = record { id = "s2"; account_id = "a2"; terms_version = "1" }

create_subscription-IsUnique_example :
    IsUnique (create_subscription "a2" "p1" (some body) (world ninth start)).1.store.subscriptions
create_subscription-IsUnique_example =
    create_subscription-IsUnique "a2" "p1" (some body) (world ninth start) (tt, tt)

create_subscription-IsCreated_example :
    Post
      (λ answer t.
        (r : Subscription) × IsCreated "a2" "p1" body r
        × (answer ≡ record { status = 201; body = subscription r })
        × (t.subscriptions ≡ r ∷ start.subscriptions)
        × IsOffered "p1" "1" start
        × (is_blank "s2" ≡ false))
      (create_subscription "a2" "p1" (some body) (world healthy start))
create_subscription-IsCreated_example =
    create_subscription-IsCreated "a2" "p1" body (world healthy start)

abbrev subscribed : World
subscribed = world healthy (create_subscription "a2" "p1" (some body) (world healthy start)).1.store

create_subscription_again_example :
    (create_subscription "a2" "p1" (some body) subscribed).0
    ≡ reply (record { status = 200; body = subscription (new_subscription "p1" body) })
unfolding create_subscription check_subscription replay_subscription find_subscription find_terms
    find_other check_other insert_subscription clashes exec statement is_blank
create_subscription_again_example =
    create_subscription_again "a2" "p1" body (world healthy start) subscribed
      (record { status = 201; body = subscription (new_subscription "p1" body) }) refl refl refl
