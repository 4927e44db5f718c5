-- ===== src/Gizpay/Keeps.antt =====
-- What holds of the store whatever the outcome of a request: the rules for binds and statements. A
-- handler without a database transaction commits each statement by itself.
use gizway.Prelude.{Bool, true, false, if◌then◌else◌}
use gizway.Gizpay.Store.{Store}
use gizway.Gizpay.Request.{
  M, ◌>>=◌, World, Outcome, done, reply, Response, Sql, row, no_rows, violates, failed, statement,
  or_reply, exec, query, reply_if, new_id, now_utc,
}
use gizway.Gizpay.Triple.{Post}

pub record Keeps {A : Type 0} (I : Store → Type 0) (o : Outcome A × World) : Type 0 where
  pub holds : I o.1.store

module _ (I : Store → Type 0) where
  Keeps-if :
      {B : Type 0} (b : Bool) (x y : Outcome B × World)
      → Keeps I x
      → Keeps I y
      → Keeps I (if b then x else y)
  Keeps-if true x y h k = h
  Keeps-if false x y h k = k

  module _ {A : Type 0} where
    pub Keeps-done : (a : A) (w : World) → I w.store → Keeps I (done a, w)
    Keeps-done a w h = record { holds = h }

    pub Keeps-reply : (e : Response) (w : World) → I w.store → Keeps {A = A} I (reply e, w)
    Keeps-reply e w h = record { holds = h }

    pub Keeps-branch :
        (b : Bool) (m n : M A) (w : World)
        → Keeps I (m w)
        → Keeps I (n w)
        → Keeps I ((if b then m else n) w)
    Keeps-branch true m n w h k = h
    Keeps-branch false m n w h k = k

    pub Keeps-statement :
        (f : Store → Sql A × Store) (w : World)
        → I w.store
        → I (f w.store).1
        → Keeps I (statement f w)
    unfolding statement
    Keeps-statement f w h k =
        Keeps-if (w.fails w.ran) _ _ (record { holds = either (w.lost w.ran) h k })
          (record { holds = k })
      where
        either : (b : Bool) {s t : Store} → I s → I t → I (if b then t else s)
        either true h k = k
        either false h k = h

    pub Keeps-query : (f : Store → Sql A) (w : World) → I w.store → Keeps I (statement (query f) w)
    Keeps-query f w h = Keeps-statement (query f) w h h

    pub Keeps-or_reply :
        (e : Response) (r : Sql A) (w : World) → I w.store → Keeps I (or_reply e r w)
    Keeps-or_reply e (row a) w h = record { holds = h }
    Keeps-or_reply e no_rows w h = record { holds = h }
    Keeps-or_reply e (violates c) w h = record { holds = h }
    Keeps-or_reply e failed w h = record { holds = h }

  pub Keeps-reply_if : (b : Bool) (e : Response) (w : World) → I w.store → Keeps I (reply_if b e w)
  Keeps-reply_if true e w h = record { holds = h }
  Keeps-reply_if false e w h = record { holds = h }

  pub Keeps-new_id : (prefix : _) (w : World) → I w.store → Keeps I (new_id prefix w)
  unfolding new_id
  Keeps-new_id prefix w h = record { holds = h }

  pub Keeps-now_utc : (w : World) → I w.store → Keeps I (now_utc w)
  unfolding now_utc
  Keeps-now_utc w h = record { holds = h }

  module _ {A B : Type 0} where
    after :
        (f : A → M B) (o : Outcome A × World)
        → Keeps I o
        → ((a : A) (w' : World) → I w'.store → Keeps I (f a w'))
        → Keeps {A = B} I (elim o.0 [ done a ↦ f a o.1 | reply e ↦ (reply e, o.1) ])
    after f (done a, w') h k = k a w' h.holds
    after f (reply e, w') h k = record { holds = h.holds }

    pub Keeps-bind :
        (m : M A) (f : A → M B) (w : World)
        → Keeps I (m w)
        → ((a : A) (w' : World) → I w'.store → Keeps I (f a w'))
        → Keeps I ((m >>= f) w)
    Keeps-bind m f w h k = after f (m w) h k

  module _ {A : Type 0} where
    pub Keeps-exec :
        (e : Response) (f : Store → Sql A × Store) (w : World)
        → I w.store
        → I (f w.store).1
        → Keeps I (exec e f w)
    unfolding exec
    Keeps-exec e f w h k =
        Keeps-bind (statement f) (or_reply e) w (Keeps-statement f w h k)
          (λ r w' i. Keeps-or_reply e r w' i)

    pub Keeps-exec_query :
        (e : Response) (f : Store → Sql A) (w : World) → I w.store → Keeps I (exec e (query f) w)
    Keeps-exec_query e f w h = Keeps-exec e (query f) w h h

-- What holds until a statement makes it weaker: `J` of the store before the bind, `I` from then on.
module _ {A B : Type 0} (J I : Store → Type 0) (weaken : (s : Store) → J s → I s) where
  after_weaker :
      (f : A → M B) (o : Outcome A × World)
      → Keeps J o
      → ((a : A) (w' : World) → J w'.store → Keeps I (f a w'))
      → Keeps {A = B} I (elim o.0 [ done a ↦ f a o.1 | reply e ↦ (reply e, o.1) ])
  after_weaker f (done a, w') h k = k a w' h.holds
  after_weaker f (reply e, w') h k = record { holds = weaken w'.store h.holds }

  pub Keeps-bind_weaker :
      (m : M A) (f : A → M B) (w : World)
      → Keeps J (m w)
      → ((a : A) (w' : World) → J w'.store → Keeps I (f a w'))
      → Keeps I ((m >>= f) w)
  Keeps-bind_weaker m f w h k = after_weaker f (m w) h k

  after_post :
      (P : A → Store → Type 0) (f : A → M B) (o : Outcome A × World)
      → Keeps J o
      → Post P o
      → ((a : A) (w' : World) → J w'.store → P a w'.store → Keeps I (f a w'))
      → Keeps {A = B} I (elim o.0 [ done a ↦ f a o.1 | reply e ↦ (reply e, o.1) ])
  after_post P f (done a, w') h p k = k a w' h.holds p.cases
  after_post P f (reply e, w') h p k = record { holds = weaken w'.store h.holds }

  -- The same, with what a step that goes through says of its value.
  pub Keeps-bind_post :
      (P : A → Store → Type 0) (m : M A) (f : A → M B) (w : World)
      → Keeps J (m w)
      → Post P (m w)
      → ((a : A) (w' : World) → J w'.store → P a w'.store → Keeps I (f a w'))
      → Keeps I ((m >>= f) w)
  Keeps-bind_post P m f w h p k = after_post P f (m w) h p k
