-- ===== src/Outbox/Report/Safe.antt =====
-- The POST of reportOutbox (internal/gizway/protocol.go) and the whole of it keep the Outbox sound.
use Prim.Native.String.{String}
use gizway.Prelude.{
  All, Bool, true, false, not, ◌&&◌, some, List, [], ◌∷◌, ◌≡◌, ◌≢◌, refl, sym, ◌∙◌, arith,
  Bool-cases, inl, inr,
}
use gizway.Text.{str_eq, str_eq_iff}
use gizway.Gizpay.Store.{Instant}
use gizway.Outbox.{sending, is_open, OutboxRow, Db, GizPay, Site, ◌>>=◌, stop_if, must, reading}
use gizway.Outbox.Report.{
  open_row, set_row, find_open, mark_sending, some_row, stop_without_token, post_charge,
  answer_post, send_row, report_outbox,
}
use gizway.Outbox.Report.Rules.{
  Ends, Ends-some_row, Ends-stop_if, Ends-bind, Ends-must, Ends-reading,
}
use gizway.Outbox.Report.Rows.{All-map, All-both, All-find, All-update_rows, Keyed, Sound}
use gizway.Outbox.Report.Soundness.{IsFaithful, IsSound, Reporting, mark_sending-Reporting}
use gizway.Outbox.Report.Kept.{Inv, posted-Answered, answer_post-Inv}

-- A row of the ID that is open is marked.
abbrev pub Marked : String → OutboxRow → Type 0
Marked id q = q.id ≡ id → is_open q.status ≡ true → q.recover_duplicate ≡ true

mark_sending-Marked :
    (id : String) (now : Instant) (db : Db)
    → All (Marked id) (mark_sending id now db).1.charge_outbox
unfolding mark_sending
mark_sending-Marked id now db =
    All-update_rows (λ q. Unit {0}) (Marked id) (open_row id) (set_row sending true now)
      db.charge_outbox (λ q e u own live. refl) (λ q e u own live. absurd (closed q e own live))
      (every db.charge_outbox)
  where
    closed : (q : OutboxRow) → open_row id q ≡ false → q.id ≡ id → is_open q.status ≡ true → ⊥
    closed q e own live = let same = (str_eq_iff q.id id).1 own in ground arith

    every : (rs : List OutboxRow) → All (λ q. Unit {0}) rs
    every [] = tt
    every (r ∷ rs) = (tt, every rs)

module _ {R : Type 0} (charge : R → String → Bool) (g : GizPay R)
    (faith : IsFaithful g charge) where
  posted-Sound :
      (r : OutboxRow) (external_id : String) (s : R) (q : OutboxRow)
      → r.payload.external_order_id ≡ external_id
      → Keyed r.id external_id q
      → Marked r.id q
      → Sound (charge s) q
      → Sound (charge (g.post r.payload s).1) q
  posted-Sound r external_id s q said k m h = record {
    uncertain = λ live there. elim (Bool-cases (str_eq q.external_order_id external_id)) [
      | inl same ↦ m (k.by_order ((str_eq_iff _ _).0 same)) live
      | inr other ↦
          h.uncertain live
            (sym (faith.posted_other r.payload s q.external_order_id (apart other)) ∙ there)
    ];
    accepted = λ e. faith.posted_keeps r.payload s q.external_order_id (h.accepted e);
    said = h.said;
  }
    where
      apart :
          str_eq q.external_order_id external_id ≡ false
          → q.external_order_id ≢ r.payload.external_order_id
      apart other same =
          let yes = (str_eq_iff q.external_order_id external_id).1 (same ∙ said) in cc

  posted-Reporting :
      (r : OutboxRow) (external_id : String) (s : R) (db : Db)
      → r.payload.external_order_id ≡ external_id
      → All (Marked r.id) db.charge_outbox
      → Reporting (charge s) r.id external_id db
      → Reporting (charge (g.post r.payload s).1) r.id external_id db
  posted-Reporting r external_id s db said m h =
      let rows = db.charge_outbox in
      let K = Keyed r.id external_id in
      record {
        whole = record {
          sound =
              All-map (λ q. (K q × Marked r.id q) × Sound (charge s) q) _ rows
                (λ q ((k, mk), so). posted-Sound r external_id s q said k mk so)
                (All-both (λ q. K q × Marked r.id q) (Sound (charge s)) rows
                  (All-both K (Marked r.id) rows h.own m) h.whole.sound);
          keyed = h.whole.keyed;
        };
        own = h.own;
      }

  -- What the row that is read says.
  pub record Read (external_id : String) (r : OutboxRow) (db : Db) (s : R) : Type 0 where
    pub own : Reporting (charge s) r.id external_id db
    pub marks : charge s external_id ≡ true → r.recover_duplicate ≡ true
    pub said : r.payload.external_order_id ≡ external_id

  found-Read :
      (external_id : String) (r : OutboxRow) (db : Db) (s : R)
      → IsSound (charge s) db
      → find_open external_id db ≡ some r
      → Read external_id r db s
  unfolding find_open
  found-Read external_id r db s h e =
      let rows = db.charge_outbox in
      let ((so, k), open_here) =
        All-find (λ q. Sound (charge s) q × All (Keyed q.id q.external_order_id) rows) _ rows r
          (All-both _ _ rows h.sound h.keyed) e in
      let named : r.external_order_id ≡ external_id =
        (str_eq_iff _ _).0
          (left (str_eq r.external_order_id external_id) (is_open r.status) open_here) in
      let live = right (str_eq r.external_order_id external_id) (is_open r.status) open_here in
      record {
        own = record { whole = h; own = rw (← named) k };
        marks = λ there. so.uncertain live (rw named there);
        said = so.said ∙ named;
      }
    where
      left : (a b : Bool) → a && b ≡ true → a ≡ true
      left a b h = ground arith

      right : (a b : Bool) → a && b ≡ true → b ≡ true
      right a b h = ground arith

  module _ (external_id : String) (r : OutboxRow) where
    -- From the row that is read to the answer of GizPay.
    After : Db → R → Type 0
    After db s = Read external_id r db s × All (Marked r.id) db.charge_outbox

    send-Inv :
        (now : Instant) (w : Site R)
        → After w.db w.remote
        → Ends
            (Inv charge)
            (λ _. Inv charge)
            ((post_charge g r >>= answer_post g external_id r now) w)
    unfolding After
    send-Inv now w (h, m) =
        let (answer, s) = g.post r.payload w.remote in
        answer_post-Inv charge r external_id now g faith answer (record w { remote = s })
          (posted-Answered charge r external_id now g faith w.remote h.said h.marks)
          (posted-Reporting r external_id w.remote w.db h.said m h.own)

    mark_sending-After :
        (now : Instant) (db : Db) (s : R)
        → Read external_id r db s
        → After (mark_sending r.id now db).1 s
    unfolding After
    mark_sending-After now db s h = (
      record {
        own = mark_sending-Reporting (charge s) r.id external_id now db h.own;
        marks = h.marks;
        said = h.said;
      },
      mark_sending-Marked r.id now db,
    )

  -- From the row that is read on.
  module _ (external_id : String) (r : OutboxRow) where
    abbrev Reads : Db → R → Type 0
    Reads db s = Read external_id r db s

    send_row-Inv :
        (w : Site R)
        → Reads w.db w.remote
        → Ends (Inv charge) (λ _. Inv charge) (send_row g external_id r w)
    unfolding send_row After
    send_row-Inv w h =
        let I = Inv charge in
        let A = After external_id r in
        Ends-bind I (λ _. Reads) (λ _. I) (stop_without_token g) _ w
          (Ends-stop_if I Reads (not (g.has_token w.remote)) w h.own.whole h)
          (λ _ w1 h1.
            Ends-bind I (λ _. Reads) (λ _. I) (stop_if (not g.post_builds)) _ w1
              (Ends-stop_if I Reads (not g.post_builds) w1 h1.own.whole h1)
              (λ _ w2 h2.
                let sent = mark_sending-After external_id r w2.now w2.db w2.remote h2 in
                Ends-bind I (λ _. A) (λ _. I) (must (mark_sending r.id w2.now)) _ w2
                  (Ends-must I (λ _. A) (mark_sending r.id w2.now) w2 h2.own.whole sent.0.own.whole
                    sent)
                  (λ updated w3 h3.
                    Ends-bind I (λ _. A) (λ _. I) (stop_if (not updated)) _ w3
                      (Ends-stop_if I A (not updated) w3 h3.0.own.whole h3)
                      (λ _ w4 h4. send-Inv external_id r w2.now w4 h4))))

  -- One report keeps the Outbox sound for a faithful GizPay, on every path and early return, whichever
  -- statements fail or lose their answers.
  pub report_outbox-IsSound :
      (external_id : String) (w : Site R)
      → IsSound (charge w.remote) w.db
      → Ends (Inv charge) (λ _. Inv charge) (report_outbox g external_id w)
  unfolding report_outbox
  report_outbox-IsSound external_id w h =
      let I = Inv charge in
      Ends-bind I (λ _. I) (λ _. I) (stop_if (not g.configured)) _ w
        (Ends-stop_if I I (not g.configured) w h h)
        (λ _ w1 h1.
          Ends-bind I (λ found db s. I db s × (found ≡ find_open external_id db)) (λ _. I)
            (must (reading (find_open external_id))) _ w1
            (Ends-reading I (find_open external_id) w1 h1)
            (λ found w2 (h2, e2).
              Ends-bind I (λ r db s. Read external_id r db s) (λ _. I) (some_row found) _ w2
                (Ends-some_row I (λ r db s. Read external_id r db s) found w2 h2
                  (λ r e. found-Read external_id r w2.db w2.remote h2 (sym e2 ∙ e)))
                (λ r w3 h3. send_row-Inv external_id r w3 h3)))
