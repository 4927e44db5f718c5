-- ===== src/Gizpay/Triple.antt =====
-- Postconditions of a request that goes through: the rules for binds and statements.
use Prim.Native.String.{String}
use gizway.Prelude.{Bool, true, false, ◌≡◌, refl, ap, ◌⊎◌, inl, inr, if◌then◌else◌}
use gizway.Gizpay.Store.{Store}
use gizway.Gizpay.Request.{
  M, ◌>>=◌, World, Outcome, done, reply, Response, Sql, row, no_rows, violates, failed, statement,
  or_reply, exec, new_id,
}

abbrev Cases : {A : Type 0} → (A → Store → Type 0) → Outcome A × World → Type 0
Cases Q (done a, w) = Q a w.store
Cases Q (reply e, w) = Unit

-- What holds of the result and the store, if the request has not been answered.
pub record Post {A : Type 0} (Q : A → Store → Type 0) (o : Outcome A × World) : Type 0 where
  pub cases : Cases Q o

module _ {A : Type 0} (Q : A → Store → Type 0) where
  pub Post-done : (a : A) (w : World) → Q a w.store → Post Q (done a, w)
  Post-done a w h = record { cases = h }

  pub Post-reply : (e : Response) (w : World) → Post Q (reply e, w)
  Post-reply e w = record { cases = tt }

  -- A test between two actions.
  pub Post-branch :
      (b : Bool) (m n : M A) (w : World)
      → (b ≡ true → Post Q (m w))
      → (b ≡ false → Post Q (n w))
      → Post Q ((if b then m else n) w)
  Post-branch true m n w h k = h refl
  Post-branch false m n w h k = k refl

  Post-if :
      (b : Bool) (x y : Outcome A × World)
      → (b ≡ true → Post Q x)
      → (b ≡ false → Post Q y)
      → Post Q (if b then x else y)
  Post-if true x y h k = h refl
  Post-if false x y h k = k refl

module _ {A B : Type 0} (P : A → Store → Type 0) (Q : B → Store → Type 0) where
  after :
      (f : A → M B) (o : Outcome A × World)
      → Post P o
      → ((a : A) (w' : World) → P a w'.store → Post Q (f a w'))
      → Post Q (elim o.0 [ done a ↦ f a o.1 | reply e ↦ (reply e, o.1) ])
  after f (done a, w') p k = k a w' p.cases
  after f (reply e, w') p k = Post-reply Q e w'

  pub Post-bind :
      (m : M A) (f : A → M B) (w : World)
      → Post P (m w)
      → ((a : A) (w' : World) → P a w'.store → Post Q (f a w'))
      → Post Q ((m >>= f) w)
  Post-bind m f w h k = after f (m w) h k

-- Drawing an identifier leaves the store alone.
pub new_id-same : (prefix : String) (w : World) → Post (λ _ t. t ≡ w.store) (new_id prefix w)
unfolding new_id
new_id-same prefix w = record { cases = refl }

module _ {A : Type 0} where
  -- What a statement returns: a failure, or what its text says.
  abbrev pub Returned : (Store → Sql A × Store) → Store → Sql A → Store → Type 0
  Returned f s r t = (r ≡ failed) ⊎ (f s ≡ (r, t))

  pub Post-statement :
      (f : Store → Sql A × Store) (w : World) → Post (Returned f w.store) (statement f w)
  unfolding statement
  Post-statement f w =
      Post-if (Returned f w.store) (w.fails w.ran) _ _ (λ down. record { cases = inl refl })
        (λ up. record { cases = inr refl })

module _ {A : Type 0} (Q : A → Store → Type 0) where
  Post-or_reply :
      (e : Response) (f : Store → Sql A × Store) (s : Store) (r : Sql A) (w : World)
      → Returned f s r w.store
      → ((a : A) → f s ≡ (row a, w.store) → Q a w.store)
      → Post Q (or_reply e r w)
  Post-or_reply e f s (row a) w (inl down) h = absurd (cc)
  Post-or_reply e f s (row a) w (inr p) h = Post-done Q a w (h a p)
  Post-or_reply e f s no_rows w p h = Post-reply Q e w
  Post-or_reply e f s (violates c) w p h = Post-reply Q e w
  Post-or_reply e f s failed w p h = Post-reply Q e w

  -- A statement that goes through has returned a row, and its store is the new store.
  pub Post-exec :
      (e : Response) (f : Store → Sql A × Store) (w : World)
      → ((a : A) (t : Store) → f w.store ≡ (row a, t) → Q a t)
      → Post Q (exec e f w)
  unfolding exec
  Post-exec e f w h =
      Post-bind (Returned f w.store) Q (statement f) (or_reply e) w (Post-statement f w)
        (λ r w' p. Post-or_reply e f w.store r w' p (λ a q. h a w'.store q))

  -- The rule of consequence.
  pub Post-weaken :
      (P : A → Store → Type 0) (o : Outcome A × World)
      → Post P o
      → ((a : A) (s : Store) → P a s → Q a s)
      → Post Q o
  Post-weaken P (done a, w) p h = Post-done Q a w (h a w.store p.cases)
  Post-weaken P (reply e, w) p h = Post-reply Q e w

-- The postcondition of a request that has gone through.
pub Post-of_done :
    {A : Type 0} (Q : A → Store → Type 0) (o : Outcome A × World) (a : A)
    → Post Q o
    → o.0 ≡ done a
    → Q a o.1.store
Post-of_done Q (done b, w) a p e =
    let same : b ≡ a = ap (λ x. elim x [ done c ↦ c | reply r ↦ b ]) e in rw (← same) p.cases
Post-of_done Q (reply r, w) a p e = absurd (cc)
