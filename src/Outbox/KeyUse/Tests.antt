-- ===== src/Outbox/KeyUse/Tests.antt =====
-- The use of a key of the small Outbox (markProviderKeyUsed, internal/gizway/protocol.go).
use gizway.Int.{pos}
use gizway.Outbox.Fixture.{queue, site, fifth}
use gizway.Outbox.KeyUse.{mark_provider_key_used}
use gizway.Outbox.KeyUse.Later.{IsLater, mark_provider_key_used-IsLater}

mark_provider_key_used-IsLater_example :
    IsLater queue (mark_provider_key_used "key_1" (pos 5) (site fifth)).1.db
mark_provider_key_used-IsLater_example = mark_provider_key_used-IsLater "key_1" (pos 5) (site fifth)
