-- ===== src/Outbox/Report/Rows.antt =====
-- The rows of the Outbox under the updates of reportOutbox (internal/gizway/protocol.go), and what
-- they say of GizPay.
use Prim.Native.String.{String}
use gizway.Prelude.{
  All, Bool, true, false, none, some, List, [], ◌∷◌, find, ◌≡◌, refl, sym, ap, ◌∙◌, Bool-cases, inl,
  inr, if◌then◌else◌, arith,
}
use gizway.Gizpay.Store.{Instant}
use gizway.Outbox.{pending, sending, reported, abandoned, is_open, OutboxRow}
use gizway.Outbox.Report.{update_rows, set_row}

pub All-map :
    (P Q : OutboxRow → Type 0) (rs : List OutboxRow)
    → ((r : OutboxRow) → P r → Q r)
    → All P rs
    → All Q rs
All-map P Q [] f h = tt
All-map P Q (r ∷ rs) f (h, hs) = (f r h, All-map P Q rs f hs)

pub All-both :
    (P Q : OutboxRow → Type 0) (rs : List OutboxRow) → All P rs → All Q rs → All (λ r. P r × Q r) rs
All-both P Q [] h k = tt
All-both P Q (r ∷ rs) (h, hs) (k, ks) = ((h, k), All-both P Q rs hs ks)

pub All-find :
    (P : OutboxRow → Type 0) (p : OutboxRow → Bool) (rs : List OutboxRow) (r : OutboxRow)
    → All P rs
    → find p rs ≡ some r
    → P r × (p r ≡ true)
All-find P p [] r h e = absurd (cc)
All-find P p (q ∷ rs) r (h, hs) e = elim (Bool-cases (p q)) [
  | inl holds ↦
      let first : some q ≡ some r = rw (holds, find) at e in
      let same : q ≡ r = ap (λ o. elim o [ none ↦ q | some y ↦ y ]) first in rw (← same) (h, holds)
  | inr fails ↦ All-find P p rs r hs (rw (fails, find) at e)
]

if-row :
    (Q : OutboxRow → Type 0) (b : Bool) (x y : OutboxRow)
    → (b ≡ true → Q x)
    → (b ≡ false → Q y)
    → Q (if b then x else y)
if-row Q true x y h k = h refl
if-row Q false x y h k = k refl

-- An update of some rows, row by row.
pub All-update_rows :
    (P Q : OutboxRow → Type 0) (p : OutboxRow → Bool) (f : OutboxRow → OutboxRow)
    (rs : List OutboxRow)
    → ((r : OutboxRow) → p r ≡ true → P r → Q (f r))
    → ((r : OutboxRow) → p r ≡ false → P r → Q r)
    → All P rs
    → All Q (update_rows p f rs)
All-update_rows P Q p f [] changed left h = tt
All-update_rows P Q p f (r ∷ rs) changed left (h, hs) = (
  if-row Q (p r) (f r) r (λ e. changed r e h) (λ e. left r e h),
  All-update_rows P Q p f rs changed left hs,
)

-- The row with the ID is the row with the external order ID.
pub record Keyed (id external_id : String) (r : OutboxRow) : Type 0 where
  pub by_id : r.id ≡ id → r.external_order_id ≡ external_id
  pub by_order : r.external_order_id ≡ external_id → r.id ≡ id

-- The primary key, and the unique external order ID.
abbrev pub IsKeyed : List OutboxRow → Type 0
IsKeyed rs = All (λ r. All (Keyed r.id r.external_order_id) rs) rs

-- An update that leaves the keys alone.
module _ (p : OutboxRow → Bool) (f : OutboxRow → OutboxRow)
    (id_same : (r : OutboxRow) → (f r).id ≡ r.id)
    (order_same : (r : OutboxRow) → (f r).external_order_id ≡ r.external_order_id) where
  pub Keyed-update_rows :
      (id external_id : String) (rs : List OutboxRow)
      → All (Keyed id external_id) rs
      → All (Keyed id external_id) (update_rows p f rs)
  Keyed-update_rows id external_id rs h =
      All-update_rows (Keyed id external_id) (Keyed id external_id) p f rs
        (λ r e k. record {
          by_id = λ same. order_same r ∙ k.by_id (sym (id_same r) ∙ same);
          by_order = λ same. id_same r ∙ k.by_order (sym (order_same r) ∙ same);
        })
        (λ r e k. k) h

  pub IsKeyed-update_rows : (rs : List OutboxRow) → IsKeyed rs → IsKeyed (update_rows p f rs)
  IsKeyed-update_rows rs h =
      All-update_rows (λ r. All (Keyed r.id r.external_order_id) rs)
        (λ r. All (Keyed r.id r.external_order_id) (update_rows p f rs)) p f rs
        (λ r e k. rw (id_same r, order_same r) (Keyed-update_rows r.id r.external_order_id rs k))
        (λ r e k. Keyed-update_rows r.id r.external_order_id rs k) h

-- What a row says of the charges of GizPay: an open row whose charge may be there is marked so, a
-- reported row has its charge, and the payload is of the row's order.
pub record Sound (charge : String → Bool) (r : OutboxRow) : Type 0 where
  pub uncertain :
      is_open r.status ≡ true → charge r.external_order_id ≡ true → r.recover_duplicate ≡ true
  pub accepted : r.status ≡ reported → charge r.external_order_id ≡ true
  pub said : r.payload.external_order_id ≡ r.external_order_id

module _ (charge : String → Bool) (r : OutboxRow) where
  -- A row that is set pending.
  pub pending-Sound :
      (recover : Bool) (now : Instant)
      → (recover ≡ false → charge r.external_order_id ≡ false)
      → Sound charge r
      → Sound charge (set_row pending recover now r)
  pending-Sound recover now fresh h = record {
    uncertain = λ live there. ground arith;
    accepted = λ e. absurd (cc);
    said = h.said;
  }

  pub sending-Sound : (now : Instant) → Sound charge r → Sound charge (set_row sending true now r)
  sending-Sound now h = record {
    uncertain = λ live there. refl;
    accepted = λ e. absurd (cc);
    said = h.said;
  }

  pub reported-Sound :
      (now : Instant)
      → charge r.external_order_id ≡ true
      → Sound charge r
      → Sound charge (set_row reported false now r)
  reported-Sound now there h = record {
    uncertain = λ live there. absurd (cc);
    accepted = λ e. there;
    said = h.said;
  }

  pub abandoned-Sound :
      (recover : Bool) (now : Instant)
      → Sound charge r
      → Sound charge (set_row abandoned recover now r)
  abandoned-Sound recover now h = record {
    uncertain = λ live there. absurd (cc);
    accepted = λ e. absurd (cc);
    said = h.said;
  }
