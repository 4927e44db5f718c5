-- ===== src/Outbox/Report/Kept.antt =====
-- Every run of reportOutbox (internal/gizway/protocol.go) keeps the Outbox sound.
use Prim.Native.String.{String}
use gizway.Prelude.{ℕ, Bool, true, false, not, ◌==◌, ==_iff, Option, none, some, ◌≡◌, refl, ap, ◌∙◌}
use gizway.Gizpay.Store.{Instant}
use gizway.Outbox.{OutboxRow, AiOrder, Db, GizPay, Site, Run, pure, stop_if, attempt, must, reading}
use gizway.Outbox.Report.{
  set_pending, complete_row, charge_order, earn_billing, earn_sync, find_order, some_row, complete,
  earn_commission, mark_outbox_reported, ignore, leave_pending, finish, answer_find, recover,
  answer_post,
}
use gizway.Outbox.Report.Rules.{
  Ends, Ends-pure, Ends-some_row, Ends-branch, Ends-bind, Ends-attempt, Ends-must, Local,
  Ends-in_transaction,
}
use gizway.Outbox.Report.Soundness.{
  IsFaithful, IsSound, Reporting, set_pending-Reporting, complete_row-Reporting, other-Reporting,
}

unmarked : (a b : Bool) → (a ≡ true → b ≡ true) → b ≡ false → a ≡ false
unmarked true b h e = absurd (let yes = h refl in cc)
unmarked false b h e = refl

module _ {R : Type 0} (charge : R → String → Bool) where
  abbrev pub Inv : Db → R → Type 0
  Inv db s = IsSound (charge s) db

  module _ (id external_id : String) (now : Instant) where
    abbrev Rep : Db → R → Type 0
    Rep db s = Reporting (charge s) id external_id db

    leave_pending-Inv :
        (b : Bool) (w : Site R)
        → (b ≡ false → charge w.remote external_id ≡ false)
        → Rep w.db w.remote
        → Ends Inv (λ _. Inv) (leave_pending id b now w)
    leave_pending-Inv b w fresh h =
        let left = set_pending-Reporting (charge w.remote) id external_id b now w.db fresh h in
        Ends-bind Inv (λ _. Inv) (λ _. Inv) (attempt (set_pending id b now)) ignore w
          (Ends-attempt Inv (λ _. Inv) (set_pending id b now) w h.whole left.whole left.whole)
          (λ a w' i. Ends-pure Inv (λ _. Inv) tt w' i)

    module _ (s : R) (there : charge s external_id ≡ true) where
      unfoldable Here : Db → R → Type 0
      Here = Local (λ db. Reporting (charge s) id external_id db) s

      must-Here :
          {A : Type 0} (f : Db → A × Db) (w : Site R)
          → ((db : Db)
              → Reporting (charge s) id external_id db
              → Reporting (charge s) id external_id (f db).1)
          → Here w.db w.remote
          → Ends Here (λ _. Here) (must f w)
      unfolding Here
      must-Here f w kept (same, h) =
          Ends-must Here (λ _. Here) f w (same, h) (same, kept w.db h) (same, kept w.db h)

      stop_if-Here :
          (b : Bool) (w : Site R) → Here w.db w.remote → Ends Here (λ _. Here) (stop_if b w)
      stop_if-Here true w h = record { cases = h }
      stop_if-Here false w h = record { cases = h }

      charge_order-Here :
          (order_id : String) (w : Site R)
          → Here w.db w.remote
          → Ends Here (λ _. Here) (must (charge_order order_id) w)
      unfolding charge_order
      charge_order-Here order_id w h =
          must-Here (charge_order order_id) w
            (λ db k.
              other-Reporting (charge s) id external_id db (charge_order order_id db).1 refl k)
            h

      earn_commission-Here :
          (order : AiOrder) (w : Site R)
          → Here w.db w.remote
          → Ends Here (λ _. Here) (earn_commission order now w)
      unfolding earn_commission
      earn_commission-Here order w h =
          let billing = earn_billing order.provider_key_id order.commission now in
          let sync = earn_sync order.provider_key_id order.commission now in
          let other = other-Reporting (charge s) id external_id in
          Ends-bind Here (λ _. Here) (λ _. Here) (must billing) _ w
            (must-Here billing w (λ db k. other db (billing db).1 refl k) h)
            (λ over w1 h1.
              Ends-bind Here (λ _. Here) (λ _. Here) (stop_if over) _ w1 (stop_if-Here over w1 h1)
                (λ _ w2 h2.
                  Ends-bind Here (λ _. Here) (λ _. Here) (must sync) stop_if w2
                    (must-Here sync w2 (λ db k. other db (sync db).1 refl k) h2)
                    (λ over' w3 h3. stop_if-Here over' w3 h3)))

      complete-Here :
          (order_id : String) (w : Site R)
          → Here w.db w.remote
          → Ends Here (λ _. Here) (complete id order_id now w)
      unfolding complete
      complete-Here order_id w h =
          Ends-bind Here (λ _. Here) (λ _. Here) (must (reading (find_order order_id))) _ w
            (must-Here (reading (find_order order_id)) w (λ db k. k) h)
            (λ found w1 h1.
              Ends-bind Here (λ _. Here) (λ _. Here) (some_row found) _ w1
                (Ends-some_row Here (λ _. Here) found w1 h1 (λ a _. h1))
                (λ order w2 h2.
                  Ends-bind Here (λ _. Here) (λ _. Here) (must (complete_row id order_id now)) _ w2
                    (must-Here (complete_row id order_id now) w2
                      (λ db k.
                        complete_row-Reporting (charge s) id external_id order_id now db there k)
                      h2)
                    (λ updated w3 h3.
                      Ends-bind Here (λ _. Here) (λ _. Here) (stop_if (not updated)) _ w3
                        (stop_if-Here (not updated) w3 h3)
                        (λ _ w4 h4.
                          Ends-bind Here (λ _. Here) (λ _. Here) (must (charge_order order_id))
                            (λ _. earn_commission order now) w4 (charge_order-Here order_id w4 h4)
                            (λ _ w5 h5. earn_commission-Here order w5 h5)))))

      mark_outbox_reported-Here :
          (order_id : String) (w : Site R)
          → Here w.db w.remote
          → Ends Inv (λ _. Here) (mark_outbox_reported id order_id now w)
      unfolding mark_outbox_reported Here
      mark_outbox_reported-Here order_id w h =
          Ends-in_transaction (λ db. Reporting (charge s) id external_id db) s Inv
            (complete id order_id now) w h (λ w' h'. complete-Here order_id w' h')

      -- What a transaction leaves, for the GizPay of that moment.
      Rep-Here : (db : Db) (t : R) → Here db t → Rep db t
      unfolding Here
      Rep-Here db t (same, h) = rw same h

  module _ (r : OutboxRow) (external_id : String) (now : Instant) where
    abbrev Own : Db → R → Type 0
    Own db s = Reporting (charge s) r.id external_id db

    -- A report that GizPay has accepted, and one that it has not.
    finish-Inv :
        (accepted : Bool) (w : Site R)
        → (accepted ≡ true → charge w.remote external_id ≡ true)
        → (accepted ≡ false → r.recover_duplicate ≡ false → charge w.remote external_id ≡ false)
        → Own w.db w.remote
        → Ends Inv (λ _. Inv) (finish r now accepted w)
    unfolding finish Here
    finish-Inv true w there fresh h =
        Ends-bind Inv (λ _. Here r.id external_id now w.remote (there refl)) (λ _. Inv)
          (mark_outbox_reported r.id r.ai_order_id now) _ w
          (mark_outbox_reported-Here r.id external_id now w.remote (there refl) r.ai_order_id w
            (refl, h))
          (λ ok w' h'.
            marked ok w' (Rep-Here r.id external_id now w.remote (there refl) w'.db w'.remote h'))
      where
        marked :
            (ok : Bool) (w' : Site R)
            → Own w'.db w'.remote
            → Ends Inv
                (λ _. Inv)
                ((elim ok as (λ _. Run R (Unit {0})) [
                  | true ↦ pure tt
                  | false ↦ leave_pending r.id true now
                ])
                  w')
        marked true w' h' = Ends-pure Inv (λ _. Inv) tt w' h'.whole
        marked false w' h' = leave_pending-Inv r.id external_id now true w' (λ e. absurd (cc)) h'
    finish-Inv false w there fresh h =
        leave_pending-Inv r.id external_id now r.recover_duplicate w (fresh refl) h

    module _ (g : GizPay R) (faith : IsFaithful g charge) where
      answer_find-Inv :
          (answer : Option ℕ) (w : Site R)
          → (answer ≡ some 200 → charge w.remote external_id ≡ true)
          → r.recover_duplicate ≡ true
          → Own w.db w.remote
          → Ends Inv (λ _. Inv) (answer_find r now answer w)
      answer_find-Inv none w there again h =
          leave_pending-Inv r.id external_id now true w (λ e. absurd (cc)) h
      answer_find-Inv (some code) w there again h =
          finish-Inv (code == 200) w (λ e. there (ap some ((==_iff code 200).0 e)))
            (λ e fresh. absurd (cc)) h

      recover-Inv :
          (w : Site R)
          → r.recover_duplicate ≡ true
          → Own w.db w.remote
          → Ends Inv (λ _. Inv) (recover g external_id r now w)
      unfolding recover
      recover-Inv w again h =
          Ends-branch Inv (λ _. Inv) (g.find_builds external_id) _ _ w
            (λ builds.
              answer_find-Inv (g.find external_id w.remote).0
                (record w { remote = (g.find external_id w.remote).1 })
                (λ e.
                  ap (λ f. f external_id) (faith.found_same external_id w.remote)
                  ∙ faith.found external_id w.remote e)
                again (rw (faith.found_same external_id w.remote) h))
            (λ broken. leave_pending-Inv r.id external_id now true w (λ e. absurd (cc)) h)

      -- What an answer to the POST says, with the row as it was read before.
      pub record Answered (answer : Option ℕ) (s : R) : Type 0 where
        created : answer ≡ some 201 → charge s external_id ≡ true
        conflict : answer ≡ some 409 → r.recover_duplicate ≡ true
        refused :
            (code : ℕ)
            → answer ≡ some code
            → code == 201 ≡ false
            → code == 409 ≡ false
            → r.recover_duplicate ≡ false
            → charge s external_id ≡ false

      pub answer_post-Inv :
          (answer : Option ℕ) (w : Site R)
          → Answered answer w.remote
          → Own w.db w.remote
          → Ends Inv (λ _. Inv) (answer_post g external_id r now answer w)
      answer_post-Inv none w a h =
          leave_pending-Inv r.id external_id now true w (λ e. absurd (cc)) h
      answer_post-Inv (some code) w a h =
          Ends-branch Inv (λ _. Inv) (code == 409) _ _ w
            (λ yes409.
              let again = a.conflict (ap some ((==_iff code 409).0 yes409)) in
              Ends-branch Inv (λ _. Inv) r.recover_duplicate _ _ w (λ _. recover-Inv w again h)
                (λ fresh. absurd (cc)))
            (λ no409.
              finish-Inv (code == 201) w (λ e. a.created (ap some ((==_iff code 201).0 e)))
                (λ no201 fresh. a.refused code refl no201 no409 fresh) h)

      pub posted-Answered :
          (s : R)
          → r.payload.external_order_id ≡ external_id
          → (charge s external_id ≡ true → r.recover_duplicate ≡ true)
          → Answered (g.post r.payload s).0 (g.post r.payload s).1
      posted-Answered s said marked = record {
        created = λ e. rw (← said) (faith.created r.payload s e);
        conflict = λ e. marked (rw (← said) (faith.conflict r.payload s e));
        refused = λ code e no201 no409 fresh. rw (← said) (
            faith.refused r.payload s code e no201 no409
              (rw said (unmarked (charge s external_id) r.recover_duplicate marked fresh)));
      }
