-- ===== src/Outbox/KeyUse/Later.antt =====
-- The times of use of a Provider Key do not go back (markProviderKeyUsed, internal/gizway/protocol.go).
use Prim.Native.String.{String}
use gizway.Prelude.{
  Bool, true, false, not, Option, none, some, List, [], ◌∷◌, ◌≡◌, refl, arith, Bool-cases, inl, inr,
}
use gizway.Int.{ℤ, ltb_ℤ, leb_ℤ}
use gizway.Text.{str_eq}
use gizway.Gizpay.Store.{Instant}
use gizway.Outbox.{KeyRow, Db, Site, stop_if, must}
use gizway.Outbox.Report.Rules.{
  Ends, Ends-stop_if, Ends-bind, Ends-must, Local, Ends-in_transaction,
}
use gizway.Outbox.KeyUse.{
  since_use, since_update, use_row, use_rows, use_billing, use_sync, use_tables,
  mark_provider_key_used,
}

-- A key that was used has been used since, and not earlier.
abbrev pub is_later : Option Instant → Option Instant → Bool
is_later none new = true
is_later (some old) none = false
is_later (some old) (some new) = leb_ℤ old new

-- From one row to another only the times have changed, and not backwards.
pub record Later (k l : KeyRow) : Type 0 where
  pub key : l.provider_key_id ≡ k.provider_key_id
  pub earned : l.earned ≡ k.earned
  pub used : is_later k.last_used_at l.last_used_at ≡ true
  pub updated : leb_ℤ k.updated_at l.updated_at ≡ true

abbrev pub AllLater : List KeyRow → List KeyRow → Type 0
AllLater [] [] = Unit
AllLater (k ∷ ks) (l ∷ ls) = Later k l × AllLater ks ls
AllLater _ _ = ⊥

leb_refl : (x : ℤ) → leb_ℤ x x ≡ true
leb_refl x = ground arith

is_later_refl : (t : Option Instant) → is_later t t ≡ true
is_later_refl none = refl
is_later_refl (some t) = leb_refl t

same-AllLater : (ks : List KeyRow) → AllLater ks ks
same-AllLater [] = tt
same-AllLater (k ∷ ks) = (
  record {
    key = refl;
    earned = refl;
    used = is_later_refl k.last_used_at;
    updated = leb_refl k.updated_at;
  },
  same-AllLater ks,
)

since_use-is_later :
    (t u : Option Instant) (at : Instant) → is_later t u ≡ true → is_later t (since_use u at) ≡ true
since_use-is_later none u at h = refl
since_use-is_later (some old) none at h = absurd (cc)
since_use-is_later (some old) (some new) at h = elim (Bool-cases (ltb_ℤ new at)) [
  | inl after ↦ rw after (ground arith)
  | inr before ↦ rw before h
]

since_update-later : (t u at : Instant) → leb_ℤ t u ≡ true → leb_ℤ t (since_update u at) ≡ true
since_update-later t u at h = ground arith

use_row-Later :
    (key : String) (at : Instant) (k l : KeyRow) → Later k l → Later k (use_row key at l)
use_row-Later key at k l h = elim (Bool-cases (str_eq l.provider_key_id key)) [
  | inl own ↦ rw own (record {
    key = h.key;
    earned = h.earned;
    used = since_use-is_later k.last_used_at l.last_used_at at h.used;
    updated = since_update-later k.updated_at l.updated_at at h.updated;
  })
  | inr other ↦ rw other h
]

use_rows-AllLater :
    (key : String) (at : Instant) (ks ls : List KeyRow)
    → AllLater ks ls
    → AllLater ks (use_rows key at ls)
unfolding use_rows
use_rows-AllLater key at [] [] h = tt
use_rows-AllLater key at [] (l ∷ ls) h = absurd h
use_rows-AllLater key at (k ∷ ks) [] h = absurd h
use_rows-AllLater key at (k ∷ ks) (l ∷ ls) (h, hs) =
    (use_row-Later key at k l h, use_rows-AllLater key at ks ls hs)

-- Both tables of keys.
pub record IsLater (before after : Db) : Type 0 where
  pub billing : AllLater before.provider_key_billing after.provider_key_billing
  pub sync : AllLater before.provider_keys after.provider_keys

module _ {R : Type 0} (start : Db) (s : R) (key : String) (at : Instant) where
  L : Db → R → Type 0
  L = Local (IsLater start) s

  must-L :
      (f : Db → Bool × Db) (w : Site R)
      → ((db : Db) → IsLater start db → IsLater start (f db).1)
      → L w.db w.remote
      → Ends L (λ _. L) (must f w)
  unfolding L
  must-L f w kept (same, h) =
      Ends-must L (λ _. L) f w (same, h) (same, kept w.db h) (same, kept w.db h)

  use_billing-IsLater : (db : Db) → IsLater start db → IsLater start (use_billing key at db).1
  unfolding use_billing
  use_billing-IsLater db h = record {
    billing = use_rows-AllLater key at start.provider_key_billing db.provider_key_billing h.billing;
    sync = h.sync;
  }

  use_sync-IsLater : (db : Db) → IsLater start db → IsLater start (use_sync key at db).1
  unfolding use_sync
  use_sync-IsLater db h = record {
    billing = h.billing;
    sync = use_rows-AllLater key at start.provider_keys db.provider_keys h.sync;
  }

  use_tables-L : (w : Site R) → L w.db w.remote → Ends L (λ _. L) (use_tables key at w)
  unfolding use_tables
  use_tables-L w h =
      Ends-bind L (λ _. L) (λ _. L) (must (use_billing key at)) _ w
        (must-L (use_billing key at) w use_billing-IsLater h)
        (λ billed w1 h1.
          Ends-bind L (λ _. L) (λ _. L) (stop_if (not billed)) _ w1
            (Ends-stop_if L L (not billed) w1 h1 h1)
            (λ _ w2 h2.
              Ends-bind L (λ _. L) (λ _. L) (must (use_sync key at))
                (λ synced. stop_if (not synced)) w2
                (must-L (use_sync key at) w2 use_sync-IsLater h2)
                (λ synced w3 h3. Ends-stop_if L L (not synced) w3 h3 h3)))

-- Whatever the outcome of markProviderKeyUsed, and whichever statements fail or lose their answers, no
-- key is lost, no earnings change, and no time of use or update goes back, in both tables.
pub mark_provider_key_used-IsLater :
    {R : Type 0} (key : String) (at : Instant) (w : Site R)
    → IsLater w.db (mark_provider_key_used key at w).1.db
unfolding mark_provider_key_used L
mark_provider_key_used-IsLater {R} key at w = of_ends (mark_provider_key_used key at w) (
    Ends-in_transaction (IsLater w.db) w.remote (Local (IsLater w.db) w.remote) (use_tables key at)
      w
      (
        refl,
        record {
          billing = same-AllLater w.db.provider_key_billing;
          sync = same-AllLater w.db.provider_keys;
        },
      )
      (λ w' h'. use_tables-L w.db w.remote key at w' h'))
  where
    of_ends :
        (o : Option Bool × Site R)
        → Ends (Local (IsLater w.db) w.remote) (λ _. Local (IsLater w.db) w.remote) o
        → IsLater w.db o.1.db
    of_ends (none, w') h = h.cases.1
    of_ends (some b, w') h = h.cases.1
