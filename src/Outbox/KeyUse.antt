-- ===== src/Outbox/KeyUse.antt =====
-- markProviderKeyUsed (internal/gizway/protocol.go).
pub mod Later
mod Tests
use Prim.Native.String.{String}
use gizway.Prelude.{Bool, true, false, not, Option, none, some, List, [], ◌∷◌, any, if◌then◌else◌}
use gizway.Int.{ltb_ℤ}
use gizway.Text.{str_eq}
use gizway.Gizpay.Store.{Instant}
use gizway.Outbox.{KeyRow, Db, Run, ◌>>=◌, ◌>>◌, stop_if, must, in_transaction}

-- `CASE WHEN last_used_at IS NULL OR last_used_at < $1 THEN $1 ELSE last_used_at END`
abbrev pub since_use : Option Instant → Instant → Option Instant
since_use none at = some at
since_use (some old) at = if ltb_ℤ old at then some at else some old

-- `CASE WHEN updated_at < $1 THEN $1 ELSE updated_at END`
abbrev pub since_update : Instant → Instant → Instant
since_update old at = if ltb_ℤ old at then at else old

abbrev pub use_row : String → Instant → KeyRow → KeyRow
use_row key at k =
    if str_eq k.provider_key_id key
    then record k {
      last_used_at = since_use k.last_used_at at;
      updated_at = since_update k.updated_at at;
    }
    else k

unfoldable pub use_rows : String → Instant → List KeyRow → List KeyRow
use_rows key at [] = []
use_rows key at (k ∷ ks) = use_row key at k ∷ use_rows key at ks

-- Whether a row was updated.
unfoldable pub use_billing : String → Instant → Db → Bool × Db
use_billing key at db = (
  any (λ k. str_eq k.provider_key_id key) db.provider_key_billing,
  record db { provider_key_billing = use_rows key at db.provider_key_billing },
)

unfoldable pub use_sync : String → Instant → Db → Bool × Db
use_sync key at db = (
  any (λ k. str_eq k.provider_key_id key) db.provider_keys,
  record db { provider_keys = use_rows key at db.provider_keys },
)

module _ {R : Type 0} where
  unfoldable pub use_tables : String → Instant → Run R (Unit {0})
  use_tables key at = do
    billed ← must (use_billing key at)
    stop_if (not billed)
    synced ← must (use_sync key at)
    stop_if (not synced)

  -- Whether it returned without an error.
  unfoldable pub mark_provider_key_used : String → Instant → Run R Bool
  mark_provider_key_used key at = in_transaction (use_tables key at)
