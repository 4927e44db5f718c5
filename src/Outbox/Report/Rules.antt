-- ===== src/Outbox/Report/Rules.antt =====
-- What holds after a function without a result, on early returns too: the rules for its steps
-- (reportOutbox and markOutboxReported, internal/gizway/protocol.go).
use gizway.Prelude.{Bool, true, false, Option, none, some, ◌≡◌, refl, ap, ◌+◌, if◌then◌else◌}
use gizway.Outbox.{
  Db, Fault, works, fails, lost, Site, Run, ◌>>=◌, pure, stop_if, or_stop, attempt, faulted,
  committed, ended, begun, must, reading, in_transaction,
}
use gizway.Outbox.Report.{some_row}

module _ {R : Type 0} where
  abbrev Ended :
      {A : Type 0} → (Db → R → Type 0) → (A → Db → R → Type 0) → Option A → Site R → Type 0
  Ended I Q none w = I w.db w.remote
  Ended I Q (some a) w = Q a w.db w.remote

  -- `I` after an early return, `Q` of the value otherwise.
  pub record Ends {A : Type 0} (I : Db → R → Type 0) (Q : A → Db → R → Type 0)
      (o : Option A × Site R) : Type 0 where
    pub cases : Ended I Q o.0 o.1

  module _ (I : Db → R → Type 0) where
    module _ {A : Type 0} (Q : A → Db → R → Type 0) where
      pub Ends-pure : (a : A) (w : Site R) → Q a w.db w.remote → Ends I Q (pure a w)
      Ends-pure a w h = record { cases = h }

      pub Ends-some_row :
          (r : Option A) (w : Site R)
          → I w.db w.remote
          → ((a : A) → r ≡ some a → Q a w.db w.remote)
          → Ends I Q (some_row r w)
      Ends-some_row none w i h = record { cases = i }
      Ends-some_row (some a) w i h = record { cases = h a refl }

      pub Ends-or_stop :
          (r : Option A) (w : Site R)
          → I w.db w.remote
          → ((a : A) → r ≡ some a → Q a w.db w.remote)
          → Ends I Q (or_stop r w)
      Ends-or_stop none w i h = record { cases = i }
      Ends-or_stop (some a) w i h = record { cases = h a refl }

    pub Ends-branch :
        {A : Type 0} (Q : A → Db → R → Type 0) (b : Bool) (m n : Run R A) (w : Site R)
        → (b ≡ true → Ends I Q (m w))
        → (b ≡ false → Ends I Q (n w))
        → Ends I Q ((if b then m else n) w)
    Ends-branch Q true m n w h k = h refl
    Ends-branch Q false m n w h k = k refl

    pub Ends-weaken :
        {A : Type 0} (P Q : A → Db → R → Type 0) (o : Option A × Site R)
        → ((a : A) (db : Db) (s : R) → P a db s → Q a db s)
        → Ends I P o
        → Ends I Q o
    Ends-weaken P Q (none, w) k h = record { cases = h.cases }
    Ends-weaken P Q (some a, w) k h = record { cases = k a w.db w.remote h.cases }

    -- A test that keeps `P`.
    pub Ends-stop_if :
        (P : Db → R → Type 0) (b : Bool) (w : Site R)
        → I w.db w.remote
        → P w.db w.remote
        → Ends I (λ _. P) (stop_if b w)
    Ends-stop_if P true w i h = record { cases = i }
    Ends-stop_if P false w i h = record { cases = h }

    module _ {A B : Type 0} (P : A → Db → R → Type 0) (Q : B → Db → R → Type 0) where
      after :
          (f : A → Run R B) (o : Option A × Site R)
          → Ends I P o
          → ((a : A) (w' : Site R) → P a w'.db w'.remote → Ends I Q (f a w'))
          → Ends I Q (elim o.0 [ none ↦ (none, o.1) | some a ↦ f a o.1 ])
      after f (none, w') h k = record { cases = h.cases }
      after f (some a, w') h k = k a w' h.cases

      pub Ends-bind :
          (m : Run R A) (f : A → Run R B) (w : Site R)
          → Ends I P (m w)
          → ((a : A) (w' : Site R) → P a w'.db w'.remote → Ends I Q (f a w'))
          → Ends I Q ((m >>= f) w)
      Ends-bind m f w h k = after f (m w) h k

    module _ {A : Type 0} where
      -- A statement whose answer may be an error, with or without its effect.
      pub Ends-attempt :
          (Q : Option A → Db → R → Type 0) (f : Db → A × Db) (w : Site R)
          → Q none w.db w.remote
          → Q none (f w.db).1 w.remote
          → Q (some (f w.db).0) (f w.db).1 w.remote
          → Ends I Q (attempt f w)
      unfolding attempt
      Ends-attempt Q f w down gone up =
          elim (w.fault w.ran) as (λ x. Ends I Q (faulted x (f w.db).0 (f w.db).1 w)) [
            | works ↦ record { cases = up }
            | fails ↦ record { cases = down }
            | lost ↦ record { cases = gone }
          ]

      pub Ends-must :
          (Q : A → Db → R → Type 0) (f : Db → A × Db) (w : Site R)
          → I w.db w.remote
          → I (f w.db).1 w.remote
          → Q (f w.db).0 (f w.db).1 w.remote
          → Ends I Q (must f w)
      unfolding must
      Ends-must Q f w down gone up =
          Ends-bind (λ r db s. I db s × ((a : A) → r ≡ some a → Q a db s)) Q (attempt f) or_stop w
            (Ends-attempt _ f w (down, λ a e. absurd (cc)) (gone, λ a e. absurd (cc))
              (gone, λ a e. of_some a e))
            (λ r w' (i, h). Ends-or_stop Q r w' i h)
        where
          of_some : (a : A) → some (f w.db).0 ≡ some a → Q a (f w.db).1 w.remote
          of_some a e =
              let same : (f w.db).0 ≡ a = ap (λ o. elim o [ none ↦ (f w.db).0 | some y ↦ y ]) e in
              rw (← same) up

      pub Ends-reading :
          (f : Db → A) (w : Site R)
          → I w.db w.remote
          → Ends I (λ a db s. I db s × (a ≡ f db)) (must (reading f) w)
      Ends-reading f w i = Ends-must _ (reading f) w i i (i, refl)

  -- A transaction whose body keeps `J` and leaves GizPay alone.
  module _ (J : Db → Type 0) (s : R) where
    abbrev pub Local : Db → R → Type 0
    Local db t = (t ≡ s) × J db

    committed-Ends :
        (I : Db → R → Type 0) (fault : Fault) (before : Db) (w : Site R)
        → J before
        → Local w.db w.remote
        → Ends I (λ ok. Local) (committed fault before w)
    committed-Ends I works before w b (same, h) = record { cases = (same, h) }
    committed-Ends I fails before w b (same, h) = record { cases = (same, b) }
    committed-Ends I lost before w b (same, h) = record { cases = (same, h) }

    ended-Ends :
        (I : Db → R → Type 0) (before : Db) (o : Option (Unit {0}) × Site R)
        → J before
        → Ends Local (λ _. Local) o
        → Ends I (λ ok. Local) (ended before o.0 o.1)
    ended-Ends I before (none, w) b h = let (same, _) = h.cases in record { cases = (same, b) }
    ended-Ends I before (some u, w) b h = committed-Ends I (w.fault w.ran) before w b h.cases

    pub Ends-in_transaction :
        (I : Db → R → Type 0) (body : Run R (Unit {0})) (w : Site R)
        → Local w.db w.remote
        → ((w' : Site R) → Local w'.db w'.remote → Ends Local (λ _. Local) (body w'))
        → Ends I (λ ok. Local) (in_transaction body w)
    unfolding in_transaction
    Ends-in_transaction I body w (same, h) k =
        elim (w.fault w.ran) as (λ x. Ends I (λ ok. Local) (begun x body w)) [
          | works ↦
              ended-Ends I w.db (body (record w { ran = w.ran + 1 })) h
                (k (record w { ran = w.ran + 1 }) (same, h))
          | fails ↦ record { cases = (same, h) }
          | lost ↦ record { cases = (same, h) }
        ]
