-- ===== src/Outbox/Worker/Reach.antt =====
-- The histories of the Outbox (completeCall, newHandler, runOutbox and reportOutbox,
-- internal/gizway): the steps as a relation, and what holds after any number of them.
use Prim.Native.String.{String}
use gizway.Prelude.{
  All, ℕ, Bool, true, false, Option, none, some, List, [], ◌∷◌, ◌≡◌, refl, sym, ◌∙◌,
}
use gizway.Int.{ℤ}
use gizway.Gizpay.Store.{Instant}
use gizway.Outbox.{OutboxRow, Db, GizPay, Site, attempt, must, reading, in_transaction}
use gizway.Outbox.Report.{ignore, report_outbox}
use gizway.Outbox.Report.Rules.{
  Ends, Ends-pure, Ends-branch, Ends-weaken, Ends-bind, Ends-attempt, Ends-must, Local,
  Ends-in_transaction,
}
use gizway.Outbox.Report.Rows.{All-map, All-both, Sound}
use gizway.Outbox.Report.Soundness.{IsFaithful, IsSound}
use gizway.Outbox.Report.Kept.{Inv}
use gizway.Outbox.Report.Safe.{report_outbox-IsSound}
use gizway.Outbox.Worker.{
  Completion, new_order, new_row, recover_sending, abandon_old, find_batch, write_call, is_free,
  complete_call, start_worker, report_each, tick,
}
use gizway.Outbox.Worker.Tables.{
  insert_outbox-IsSound, insert_order-IsSound, insert_usage-IsSound, recover_sending-IsSound,
  abandon_old-IsSound,
}
use gizway.Outbox.Worker.Calls.{L, write_call-L}

module _ {R : Type 0} (charge : R → String → Bool) where
  Inv-Ends :
      {A : Type 0} (o : Option A × Site R)
      → Ends (Inv charge) (λ _. Inv charge) o
      → Inv charge o.1.db o.1.remote
  Inv-Ends (none, w) h = h.cases
  Inv-Ends (some a, w) h = h.cases

  new_row-Sound :
      (c : Completion) (now : Instant) (s : R)
      → charge s c.external_id ≡ false
      → Sound (charge s) (new_row c now)
  new_row-Sound c now s fresh = record {
    uncertain = λ live there. absurd (cc);
    accepted = λ e. absurd (cc);
    said = refl;
  }

  complete_call-Inv :
      (c : Completion) (failpoint : String) (w : Site R)
      → charge w.remote c.external_id ≡ false
      → Inv charge w.db w.remote
      → Ends (Inv charge) (λ _. Inv charge) (complete_call c failpoint w)
  unfolding complete_call L
  complete_call-Inv c failpoint w fresh h =
      let I = Inv charge in
      let J : Db → Type 0 = IsSound (charge w.remote) in
      Ends-branch I (λ _. I) (is_free c.gross) _ _ w (λ zero. Ends-pure I (λ _. I) true w h)
        (λ some_gross.
          Ends-weaken I (λ _. Local J w.remote) (λ _. I)
            (in_transaction (write_call c failpoint w.now) w) (λ _ db t (same, i). rw same i)
            (Ends-in_transaction J w.remote I (write_call c failpoint w.now) w (refl, h)
              (λ w' h'.
                write_call-L J w.remote c failpoint w.now
                  (insert_order-IsSound (charge w.remote) (new_order c))
                  (insert_usage-IsSound (charge w.remote) c.order_id)
                  (λ db i.
                    insert_outbox-IsSound (charge w.remote) (new_row c w.now) db
                      (new_row-Sound c w.now w.remote fresh) i)
                  w' h')))

  start_worker-Inv :
      (w : Site R) → Inv charge w.db w.remote → Ends (Inv charge) (λ _. Inv charge) (start_worker w)
  unfolding start_worker
  start_worker-Inv w h =
      let I = Inv charge in
      let left = recover_sending-IsSound (charge w.remote) w.now w.db h in
      Ends-bind I (λ _. I) (λ _. I) (attempt (recover_sending w.now)) ignore w
        (Ends-attempt I (λ _. I) (recover_sending w.now) w h left left)
        (λ a w' i. Ends-pure I (λ _. I) tt w' i)

  module _ (g : GizPay R) (faith : IsFaithful g charge) where
    report_each-Inv :
        (es : List String) (w : Site R)
        → Inv charge w.db w.remote
        → Ends (Inv charge) (λ _. Inv charge) (report_each g es w)
    unfolding report_each
    report_each-Inv [] w h = Ends-pure (Inv charge) (λ _. Inv charge) tt w h
    report_each-Inv (e ∷ es) w h =
        report_each-Inv es (report_outbox g e w).1
          (Inv-Ends (report_outbox g e w) (report_outbox-IsSound charge g faith e w h))

    tick-Inv :
        (abandon_after : ℤ) (batch_size : ℕ) (w : Site R)
        → Inv charge w.db w.remote
        → Ends (Inv charge) (λ _. Inv charge) (tick g abandon_after batch_size w)
    unfolding tick
    tick-Inv abandon_after batch_size w h =
        let I = Inv charge in
        let left = abandon_old-IsSound (charge w.remote) w.now abandon_after w.db h in
        Ends-bind I (λ _. I) (λ _. I) (attempt (abandon_old w.now abandon_after)) _ w
          (Ends-attempt I (λ _. I) (abandon_old w.now abandon_after) w h left left)
          (λ a w1 h1.
            Ends-bind I (λ _. I) (λ _. I) (must (reading (find_batch batch_size))) (report_each g)
              w1 (Ends-must I (λ _. I) (reading (find_batch batch_size)) w1 h1 h1 h1)
              (λ ids w2 h2. report_each-Inv ids w2 h2))

-- The steps of a history, with any faults: a call is completed under an external order ID that is new
-- to GizPay, the process starts, the worker ticks, and GizPay changes by itself, without a charge for
-- an order of the Outbox.
pub data Step {R : Type 0} (g : GizPay R) (charge : R → String → Bool)
    : Db → R → Db → R → Type 0 where
  completes :
      (c : Completion) (failpoint : String) (w : Site R)
      → charge w.remote c.external_id ≡ false
      → Step g charge w.db w.remote
          (complete_call c failpoint w).1.db
          (complete_call c failpoint w).1.remote
  starts :
      (w : Site R) → Step g charge w.db w.remote (start_worker w).1.db (start_worker w).1.remote
  ticks :
      (abandon_after : ℤ) (batch_size : ℕ) (w : Site R)
      → Step g charge w.db w.remote
          (tick g abandon_after batch_size w).1.db
          (tick g abandon_after batch_size w).1.remote
  moves :
      (db : Db) (s t : R)
      → All (λ r. charge t r.external_order_id ≡ charge s r.external_order_id) db.charge_outbox
      → Step g charge db s db t

pub data Reaches {R : Type 0} (g : GizPay R) (charge : R → String → Bool)
    : Db → R → Db → R → Type 0 where
  stays : (db : Db) (s : R) → Reaches g charge db s db s
  steps :
      {a : Db} {s : R} {b : Db} {t : R} {c : Db} {u : R}
      → Reaches g charge a s b t
      → Step g charge b t c u
      → Reaches g charge a s c u

moved-Sound :
    (before after : String → Bool) (r : OutboxRow)
    → after r.external_order_id ≡ before r.external_order_id
    → Sound before r
    → Sound after r
moved-Sound before after r same h = record {
  uncertain = λ live there. h.uncertain live (sym same ∙ there);
  accepted = λ e. same ∙ h.accepted e;
  said = h.said;
}

module _ {R : Type 0} (g : GizPay R) (charge : R → String → Bool)
    (faith : IsFaithful g charge) where
  Step-IsSound :
      {db : Db} {s : R} {new : Db} {t : R}
      → Step g charge db s new t
      → IsSound (charge s) db
      → IsSound (charge t) new
  Step-IsSound (completes c failpoint w fresh) h =
      Inv-Ends charge (complete_call c failpoint w) (complete_call-Inv charge c failpoint w fresh h)
  Step-IsSound (starts w) h = Inv-Ends charge (start_worker w) (start_worker-Inv charge w h)
  Step-IsSound (ticks abandon_after batch_size w) h =
      Inv-Ends charge (tick g abandon_after batch_size w)
        (tick-Inv charge g faith abandon_after batch_size w h)
  Step-IsSound (moves db s t same) h = record {
    sound =
        All-map
          (λ r. (charge t r.external_order_id ≡ charge s r.external_order_id) × Sound (charge s) r)
          (Sound (charge t)) db.charge_outbox
          (λ r (e, so). moved-Sound (charge s) (charge t) r e so)
          (All-both _ _ db.charge_outbox same h.sound);
    keyed = h.keyed;
  }

  -- After any history with a faithful GizPay, whichever statements fail or lose their answers and
  -- wherever an exchange with GizPay breaks off: an open row whose charge GizPay has is marked for
  -- recovery, a row that is reported has its charge, a payload names the order of its row, and no two
  -- rows share one of the ID and the external order ID alone.
  pub Reaches-IsSound :
      {db : Db} {s : R} {new : Db} {t : R}
      → Reaches g charge db s new t
      → IsSound (charge s) db
      → IsSound (charge t) new
  Reaches-IsSound (stays db s) h = h
  Reaches-IsSound (steps path step) h = Step-IsSound step (Reaches-IsSound path h)
