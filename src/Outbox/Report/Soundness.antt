-- ===== src/Outbox/Report/Soundness.antt =====
-- The reports of reportOutbox (internal/gizway/protocol.go) keep the Outbox sound with respect to the
-- charges that GizPay has.
use Prim.Native.String.{String}
use gizway.Prelude.{All, ℕ, Bool, true, false, ◌&&◌, ◌==◌, some, ◌≡◌, ◌≢◌, refl, ap, ◌∙◌, arith}
use gizway.Text.{str_eq, str_eq_iff}
use gizway.Gizpay.Store.{Instant}
use gizway.Outbox.{OutboxStatus, pending, sending, reported, ChargePayload, OutboxRow, Db, GizPay}
use gizway.Outbox.Report.{update_rows, open_row, set_row, mark_sending, set_pending, complete_row}
use gizway.Outbox.Report.Rows.{
  All-both, All-update_rows, Keyed, IsKeyed, Keyed-update_rows, IsKeyed-update_rows, Sound,
  pending-Sound, sending-Sound, reported-Sound,
}

-- What the answers of GizPay say of the charges that it has, by external order ID: 201 that the charge
-- is there now, 409 that it was there before, another status that this POST made none; a POST takes
-- no charge away and makes none of another ID; a GET answers 200 for a charge that is there alone.
pub record IsFaithful {R : Type 0} (g : GizPay R) (charge : R → String → Bool) : Type 0 where
  pub created :
      (p : ChargePayload) (s : R)
      → (g.post p s).0 ≡ some 201
      → charge (g.post p s).1 p.external_order_id ≡ true
  pub conflict :
      (p : ChargePayload) (s : R) → (g.post p s).0 ≡ some 409 → charge s p.external_order_id ≡ true
  pub refused :
      (p : ChargePayload) (s : R) (code : ℕ)
      → (g.post p s).0 ≡ some code
      → code == 201 ≡ false
      → code == 409 ≡ false
      → charge s p.external_order_id ≡ false
      → charge (g.post p s).1 p.external_order_id ≡ false
  pub posted_other :
      (p : ChargePayload) (s : R) (e : String)
      → e ≢ p.external_order_id
      → charge (g.post p s).1 e ≡ charge s e
  pub posted_keeps :
      (p : ChargePayload) (s : R) (e : String) → charge s e ≡ true → charge (g.post p s).1 e ≡ true
  pub found : (e : String) (s : R) → (g.find e s).0 ≡ some 200 → charge s e ≡ true
  pub found_same : (e : String) (s : R) → charge (g.find e s).1 ≡ charge s

-- Every row is sound for the charges, and the rows have their keys.
pub record IsSound (charge : String → Bool) (db : Db) : Type 0 where
  pub sound : All (Sound charge) db.charge_outbox
  pub keyed : IsKeyed db.charge_outbox

-- While the row of an ID is reported, the row is the one of the external order ID.
pub record Reporting (charge : String → Bool) (id external_id : String) (db : Db) : Type 0 where
  pub whole : IsSound charge db
  pub own : All (Keyed id external_id) db.charge_outbox

module _ (charge : String → Bool) (id external_id : String) where
  -- An update of rows of the ID.
  update-Reporting :
      (p : OutboxRow → Bool) (status : OutboxStatus) (b : Bool) (now : Instant) (db : Db)
      → ((r : OutboxRow) → p r ≡ true → str_eq r.id id ≡ true)
      → ((r : OutboxRow)
          → charge r.external_order_id ≡ charge external_id
          → Sound charge r
          → Sound charge (set_row status b now r))
      → Reporting charge id external_id db
      → Reporting charge id external_id
          (record db { charge_outbox = update_rows p (set_row status b now) db.charge_outbox })
  update-Reporting p status b now db mine set h =
      let rows = db.charge_outbox in
      record {
        whole = record {
          sound =
              All-update_rows (λ r. Sound charge r × Keyed id external_id r) (Sound charge) p
                (set_row status b now) rows
                (λ r e (s, k). set r (ap charge (k.by_id ((str_eq_iff r.id id).0 (mine r e)))) s)
                (λ r e (s, k). s)
                (All-both (Sound charge) (Keyed id external_id) rows h.whole.sound h.own);
          keyed =
              IsKeyed-update_rows p (set_row status b now) (λ r. refl) (λ r. refl) rows
                h.whole.keyed;
        };
        own =
            Keyed-update_rows p (set_row status b now) (λ r. refl) (λ r. refl) id external_id rows
              h.own;
      }

  pub set_pending-Reporting :
      (b : Bool) (now : Instant) (db : Db)
      → (b ≡ false → charge external_id ≡ false)
      → Reporting charge id external_id db
      → Reporting charge id external_id (set_pending id b now db).1
  unfolding set_pending
  set_pending-Reporting b now db fresh h =
      update-Reporting (λ r. str_eq r.id id) pending b now db (λ r e. e)
        (λ r same s. pending-Sound charge r b now (λ e. same ∙ fresh e) s) h

  pub mark_sending-Reporting :
      (now : Instant) (db : Db)
      → Reporting charge id external_id db
      → Reporting charge id external_id (mark_sending id now db).1
  unfolding mark_sending
  mark_sending-Reporting now db h =
      update-Reporting (open_row id) sending true now db (λ r e. ground arith)
        (λ r same s. sending-Sound charge r now s) h

  pub complete_row-Reporting :
      (order_id : String) (now : Instant) (db : Db)
      → charge external_id ≡ true
      → Reporting charge id external_id db
      → Reporting charge id external_id (complete_row id order_id now db).1
  unfolding complete_row
  complete_row-Reporting order_id now db there h =
      update-Reporting (λ r. open_row id r && str_eq r.ai_order_id order_id) reported false now db
        (λ r e. ground arith) (λ r same s. reported-Sound charge r now (same ∙ there) s) h

  -- An update of the other tables.
  pub other-Reporting :
      (db new : Db)
      → new.charge_outbox ≡ db.charge_outbox
      → Reporting charge id external_id db
      → Reporting charge id external_id new
  other-Reporting db new same h = record {
    whole = record { sound = rw same h.whole.sound; keyed = rw same h.whole.keyed };
    own = rw same h.own;
  }
