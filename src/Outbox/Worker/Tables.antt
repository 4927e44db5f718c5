-- ===== src/Outbox/Worker/Tables.antt =====
-- The statements of completeCall, newHandler and runOutbox (internal/gizway/protocol.go and
-- internal/gizway/handler.go) keep the Outbox sound.
use Prim.Native.String.{String}
use gizway.Prelude.{
  All, Bool, true, false, not, ◌&&◌, ◌||◌, List, [], ◌∷◌, any, ◌≡◌, refl, sym, arith, Bool-cases,
  inl, inr,
}
use gizway.Int.{ℤ, pos, ltb_ℤ, ◌-ℤ◌}
use gizway.Text.{str_eq, str_eq_iff}
use gizway.Gizpay.Store.{Instant}
use gizway.Outbox.{pending, abandoned, OutboxRow, AiOrder, Db}
use gizway.Outbox.Report.{set_row}
use gizway.Outbox.Report.Rows.{
  All-map, All-both, All-update_rows, Keyed, IsKeyed, IsKeyed-update_rows, Sound, pending-Sound,
  abandoned-Sound,
}
use gizway.Outbox.Report.Soundness.{IsSound}
use gizway.Outbox.Worker.{
  insert_order, insert_usage, insert_outbox, is_sending, is_pending, recover_sending, abandon_old,
}

-- A new row among the keys.
clash_free :
    (r : OutboxRow) (rs : List OutboxRow)
    → any (λ q. str_eq q.id r.id || str_eq q.external_order_id r.external_order_id) rs ≡ false
    → All (λ q. Keyed r.id r.external_order_id q × Keyed q.id q.external_order_id r) rs
clash_free r [] h = tt
clash_free r (q ∷ rs) h = (
  (
    record {
      by_id = λ e. let yes = (str_eq_iff q.id r.id).1 e in absurd (ground arith);
      by_order = λ e.
          let yes = (str_eq_iff q.external_order_id r.external_order_id).1 e in
          absurd (ground arith);
    },
    record {
      by_id = λ e. let yes = (str_eq_iff q.id r.id).1 (sym e) in absurd (ground arith);
      by_order = λ e.
          let yes = (str_eq_iff q.external_order_id r.external_order_id).1 (sym e) in
          absurd (ground arith);
    },
  ),
  clash_free r rs (ground arith),
)

cons-IsKeyed :
    (r : OutboxRow) (rs : List OutboxRow)
    → any (λ q. str_eq q.id r.id || str_eq q.external_order_id r.external_order_id) rs ≡ false
    → IsKeyed rs
    → IsKeyed (r ∷ rs)
cons-IsKeyed r rs h keyed =
    let there = clash_free r rs h in
    (
      (
        record { by_id = λ e. refl; by_order = λ e. refl },
        All-map (λ q. Keyed r.id r.external_order_id q × Keyed q.id q.external_order_id r)
            (Keyed r.id r.external_order_id) rs (λ q (k, _). k) there,
      ),
      All-map
          (λ q.
            (Keyed r.id r.external_order_id q × Keyed q.id q.external_order_id r)
            × All (Keyed q.id q.external_order_id) rs)
          (λ q. All (Keyed q.id q.external_order_id) (r ∷ rs)) rs (λ q ((_, k), ks). (k, ks))
          (All-both _ _ rs there keyed),
    )

module _ (charge : String → Bool) where
  pub insert_outbox-IsSound :
      (r : OutboxRow) (db : Db)
      → Sound charge r
      → IsSound charge db
      → IsSound charge (insert_outbox r db).1
  unfolding insert_outbox
  insert_outbox-IsSound r db new h =
      elim (Bool-cases (
        any (λ q. str_eq q.id r.id || str_eq q.external_order_id r.external_order_id)
          db.charge_outbox
        || not (any (λ o. str_eq o.id r.ai_order_id) db.ai_orders))) [
          | inl refused ↦ rw refused h
          | inr fresh ↦ rw fresh (record {
            sound = (new, h.sound);
            keyed = cons-IsKeyed r db.charge_outbox (left _ _ fresh) h.keyed;
          })
        ]
    where
      left : (a b : Bool) → a || b ≡ false → a ≡ false
      left a b e = ground arith

  pub recover_sending-IsSound :
      (now : Instant) (db : Db) → IsSound charge db → IsSound charge (recover_sending now db).1
  unfolding recover_sending
  recover_sending-IsSound now db h = record {
    sound =
        All-update_rows (Sound charge) (Sound charge) is_sending (set_row pending true now)
          db.charge_outbox (λ r e s. pending-Sound charge r true now (λ f. absurd (cc)) s)
          (λ r e s. s) h.sound;
    keyed =
        IsKeyed-update_rows is_sending (set_row pending true now) (λ r. refl) (λ r. refl) _ h.keyed;
  }

  pub abandon_old-IsSound :
      (now : Instant) (abandon_after : ℤ) (db : Db)
      → IsSound charge db
      → IsSound charge (abandon_old now abandon_after db).1
  unfolding abandon_old
  abandon_old-IsSound now abandon_after db h =
      let old : OutboxRow → Bool = λ r. is_pending r && ltb_ℤ r.created_at (now -ℤ abandon_after) in
      let give_up : OutboxRow → OutboxRow =
        λ r. record r { status = abandoned; updated_at = now } in
      record {
        sound =
            All-update_rows (Sound charge) (Sound charge) old give_up db.charge_outbox
              (λ r e s. abandoned-Sound charge r r.recover_duplicate now s) (λ r e s. s) h.sound;
        keyed = IsKeyed-update_rows old give_up (λ r. refl) (λ r. refl) db.charge_outbox h.keyed;
      }

  -- The insertions into the other tables.
  pub insert_order-IsSound :
      (o : AiOrder) (db : Db) → IsSound charge db → IsSound charge (insert_order o db).1
  unfolding insert_order
  insert_order-IsSound o db h =
      elim (Bool-cases (
        any (λ r. str_eq r.id o.id || str_eq r.external_order_id o.external_order_id) db.ai_orders
        || not (ltb_ℤ (pos 0) o.gross)
        || ltb_ℤ o.commission (pos 0))) [
          | inl refused ↦ rw refused h
          | inr fresh ↦ rw fresh (record { sound = h.sound; keyed = h.keyed })
        ]

  pub insert_usage-IsSound :
      (order_id metric : String) (n : ℤ) (db : Db)
      → IsSound charge db
      → IsSound charge (insert_usage order_id metric n db).1
  unfolding insert_usage
  insert_usage-IsSound order_id metric n db h = elim (Bool-cases (ltb_ℤ n (pos 0))) [
    | inl refused ↦ rw refused h
    | inr fresh ↦ rw fresh (record { sound = h.sound; keyed = h.keyed })
  ]
