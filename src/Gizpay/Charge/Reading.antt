-- ===== src/Gizpay/Charge/Reading.antt =====
-- The steps of createCharge (internal/gizpay/handler.go) before its writes, and the database
-- transaction around them: what they leave in the store.
use Prim.Native.String.{String}
use gizway.Prelude.{
  IsIn, ◌+◌, Bool, true, false, not, List, [], ◌∷◌, ◌≡◌, refl, sym, ap, ◌∙◌, ◌⊎◌, Bool-cases, inl,
  inr, if◌then◌else◌,
}
use gizway.Int.{◌+ℤ◌}
use gizway.Text.{str_eq}
use gizway.Gizpay.Store.{Store}
use gizway.Gizpay.Request.{
  M, World, Outcome, done, reply, ◌>>=◌, internal, reply_if, Response, error_json, Sql, row,
  no_rows, violates, failed, exec, query, statement, transaction, pure, answer_commit,
}
use gizway.Gizpay.Triple.{Post, Post-bind, Post-exec, Post-done, Post-reply}
use gizway.Gizpay.Charge.{resolve_commissions, select}
use gizway.Gizpay.Charge.Validation.{Check, pass, reject, of_check, CommissionRequest}
use gizway.Gizpay.Charge.Validation.Laws.{amount_sum}
use gizway.Gizpay.Charge.Handler.{is_duplicate, or_false, has_charge}
use gizway.Gizpay.Charge.Legs.{commission_sum}

pub query-same :
    {A : Type 0} (e : Response) (f : Store → Sql A) (w : World)
    → Post (λ _ t. t ≡ w.store) (exec e (query f) w)
query-same e f w = Post-exec _ e (query f) w (λ r t h. sym (ap (λ x. x.1) h))

-- A query that goes through returns what its text says of the store.
pub query-row :
    {A : Type 0} (e : Response) (f : Store → Sql A) (w : World)
    → Post (λ a t. (t ≡ w.store) × (f w.store ≡ row a)) (exec e (query f) w)
query-row e f w = Post-exec _ e (query f) w (λ a t h. (sym (ap (λ x. x.1) h), ap (λ x. x.0) h))

pub reply_if-same :
    (b : Bool) (e : Response) (w : World)
    → Post (λ _ t. (t ≡ w.store) × (b ≡ false)) (reply_if b e w)
reply_if-same true e w = Post-reply _ e w
reply_if-same false e w = Post-done _ tt w (refl, refl)

pub of_check-same :
    {A : Type 0} (c : Check A) (w : World)
    → Post (λ a t. (t ≡ w.store) × (c ≡ pass a)) (of_check c w)
of_check-same (pass a) w = Post-done _ a w (refl, refl)
of_check-same (reject code) w = Post-reply _ (error_json 400 code) w

-- The resolved commissions carry the amounts of the request.
pub resolve_commissions-sum :
    (cs : List CommissionRequest) (w : World)
    → Post (λ rs t. (t ≡ w.store) × (commission_sum rs ≡ amount_sum cs)) (resolve_commissions cs w)
unfolding resolve_commissions
resolve_commissions-sum [] w = Post-done _ [] w (refl, refl)
resolve_commissions-sum (c ∷ cs) w =
    Post-bind _ _
      (exec (error_json 400 "invalid_commission_merchant")
        (query (λ s. select (λ r. str_eq r.id c.merchant_id) (λ r. r) s.merchants)))
      _ w (query-same _ _ w)
      (λ m w1 same1.
        Post-bind _ _
          (reply_if (not (str_eq m.status "active"))
            (error_json 400 "commission_merchant_inactive"))
          _ w1 (reply_if-same _ _ w1)
          (λ _ w2 active.
            Post-bind _ _ (resolve_commissions cs) _ w2 (resolve_commissions-sum cs w2)
              (λ rs w3 found.
                Post-done _ (record { request = c; settlement = m.settlement_account_id } ∷ rs) w3
                  (found.0 ∙ active.0 ∙ same1, ap (λ x. c.amount +ℤ x) found.1))))

or_false-same : (r : Sql Bool) (w : World) → (or_false r w).1.store ≡ w.store
or_false-same (row b) w = refl
or_false-same no_rows w = refl
or_false-same (violates c) w = refl
or_false-same failed w = refl

-- Whatever the outcome, the store is as before.
pub record Reads {A : Type 0} (s : Store) (o : Outcome A × World) : Type 0 where
  pub same : o.1.store ≡ s

-- After a reply: the store as before, or, where the answer of the commit was lost, 500 and a store with
-- the property.
abbrev Undone : {A : Type 0} → (Store → Type 0) → Store → Outcome A × World → Type 0
Undone L s (done a, w) = Unit
Undone L s (reply e, w) = (w.store ≡ s) ⊎ ((e ≡ internal) × (w.lost w.ran ≡ true) × L w.store)

-- A reply leaves the store as before, but for a commit whose answer is lost.
pub record IsAtomic {A : Type 0} (L : Store → Type 0) (s : Store) (o : Outcome A × World)
    : Type 0 where
  pub undone : Undone L s o

pub reply_if-Reads : (b : Bool) (e : Response) (w : World) → Reads w.store (reply_if b e w)
reply_if-Reads true e w = record { same = refl }
reply_if-Reads false e w = record { same = refl }

pub of_check-Reads : {A : Type 0} (c : Check A) (w : World) → Reads w.store (of_check c w)
of_check-Reads (pass a) w = record { same = refl }
of_check-Reads (reject code) w = record { same = refl }

pub Reads-either :
    {A : Type 0} (s : Store) (b : Bool) (x y : Outcome A × World)
    → Reads s x
    → Reads s y
    → Reads s (if b then x else y)
Reads-either s true x y h k = h
Reads-either s false x y h k = k

Reads-answered :
    (s : Store) (o : Outcome (Sql Bool) × World)
    → Reads s o
    → Reads {A = Bool} s (elim o.0 [ done a ↦ or_false a o.1 | reply e ↦ (reply e, o.1) ])
Reads-answered s (done r, w) h = record { same = or_false-same r w ∙ h.same }
Reads-answered s (reply e, w) h = record { same = h.same }

kept : (b : Bool) (s : Store) → (if b then s else s) ≡ s
kept true s = refl
kept false s = refl

pub is_duplicate-Reads : (id : String) (w : World) → Reads w.store (is_duplicate id w)
unfolding is_duplicate statement
is_duplicate-Reads id w =
    Reads-answered w.store (statement (query (λ s. row (has_charge id s))) w) (
      Reads-either w.store (w.fails w.ran) _ _ (record { same = kept (w.lost w.ran) w.store })
        (record { same = refl }))

pub query-Reads :
    {A : Type 0} (f : Store → Sql A) (w : World) → Reads w.store (statement (query f) w)
unfolding statement
query-Reads f w =
    Reads-either w.store (w.fails w.ran) _ _ (record { same = kept (w.lost w.ran) w.store })
      (record { same = refl })

module _ {A B : Type 0} where
  Reads-after :
      (f : A → M B) (s : Store) (o : Outcome A × World)
      → Reads s o
      → ((a : A) (w' : World) → w'.store ≡ s → Reads s (f a w'))
      → Reads {A = B} s (elim o.0 [ done a ↦ f a o.1 | reply e ↦ (reply e, o.1) ])
  Reads-after f s (done a, w') r h = h a w' r.same
  Reads-after f s (reply e, w') r h = record { same = r.same }

  -- Two steps that read.
  pub Reads-bind :
      (m : M A) (f : A → M B) (w : World) (s : Store)
      → Reads s (m w)
      → ((a : A) (w' : World) → w'.store ≡ s → Reads s (f a w'))
      → Reads s ((m >>= f) w)
  Reads-bind m f w s r h = Reads-after f s (m w) r h

module _ {A B : Type 0} (L : Store → Type 0) where
  after :
      (f : A → M B) (s : Store) (o : Outcome A × World)
      → Reads s o
      → ((a : A) (w' : World) → w'.store ≡ s → IsAtomic L s (f a w'))
      → IsAtomic {A = B} L s (elim o.0 [ done a ↦ f a o.1 | reply e ↦ (reply e, o.1) ])
  after f s (done a, w') r h = h a w' r.same
  after f s (reply e, w') r h = record { undone = inl r.same }

  -- A step that reads, before the rest.
  pub IsAtomic-bind :
      (m : M A) (f : A → M B) (w : World) (s : Store)
      → Reads s (m w)
      → ((a : A) (w' : World) → w'.store ≡ s → IsAtomic L s (f a w'))
      → IsAtomic L s ((m >>= f) w)
  IsAtomic-bind m f w s r h = after f s (m w) r h

  after_Post :
      (P : A → Store → Type 0) (f : A → M B) (s : Store) (o : Outcome A × World)
      → Reads s o
      → Post P o
      → ((a : A) (w' : World) → w'.store ≡ s → P a w'.store → IsAtomic L s (f a w'))
      → IsAtomic {A = B} L s (elim o.0 [ done a ↦ f a o.1 | reply e ↦ (reply e, o.1) ])
  after_Post P f s (done a, w') r p h = h a w' r.same p.cases
  after_Post P f s (reply e, w') r p h = record { undone = inl r.same }

  -- The same, with what the step establishes.
  pub IsAtomic-bind_Post :
      (P : A → Store → Type 0) (m : M A) (f : A → M B) (w : World) (s : Store)
      → Reads s (m w)
      → Post P (m w)
      → ((a : A) (w' : World) → w'.store ≡ s → P a w'.store → IsAtomic L s (f a w'))
      → IsAtomic L s ((m >>= f) w)
  IsAtomic-bind_Post P m f w s r p h = after_Post P f s (m w) r p h

  after_map :
      (g : A → B) (s : Store) (o : Outcome A × World)
      → IsAtomic L s o
      → IsAtomic {A = B} L s (elim o.0 [ done a ↦ (done (g a), o.1) | reply e ↦ (reply e, o.1) ])
  after_map g s (done a, w') h = record { undone = tt }
  after_map g s (reply e, w') h = record { undone = h.undone }

  -- A last step that only answers.
  pub IsAtomic-map :
      (m : M A) (g : A → B) (w : World) (s : Store)
      → IsAtomic L s (m w)
      → IsAtomic L s ((m >>= λ a. pure (g a)) w)
  IsAtomic-map m g w s h = after_map g s (m w) h

module _ {A : Type 0} (L : Store → Type 0) where
  answered :
      (lost : Bool) (s : Store) (a : A) (w : World)
      → w.lost w.ran ≡ lost
      → L w.store
      → IsAtomic L s (answer_commit lost a w)
  answered true s a w e l = record { undone = inr (refl, e, l) }
  answered false s a w e l = record { undone = tt }

  rolled_back :
      (s : Store) (o : Outcome A × World)
      → Post (λ _ t. L t) o
      → IsAtomic {A = A} L s (elim o.0 [
        | done a ↦ answer_commit (o.1.lost o.1.ran) a o.1
        | reply e ↦ (reply e, record o.1 { store = s })
      ])
  rolled_back s (done a, w') p = answered (w'.lost w'.ran) s a w' refl p.cases
  rolled_back s (reply e, w') p = record { undone = inl refl }

  -- A transaction is atomic, whatever its body does.
  pub transaction-IsAtomic :
      (body : M A) (w : World)
      → ((w' : World) → w'.store ≡ w.store → Post (λ _ t. L t) (body w'))
      → IsAtomic L w.store (transaction body w)
  unfolding transaction
  transaction-IsAtomic body w h = elim (Bool-cases (w.fails w.ran)) [
    | inl down ↦ rw (down, transaction) (record { undone = inl refl })
    | inr up ↦
        rw (up, transaction)
          (rolled_back w.store (body (record w { ran = w.ran + 1 }))
            (h (record w { ran = w.ran + 1 }) refl))
  ]

module _ {A : Type 0} where
  committed :
      (Q : A → Store → Type 0) (lost : Bool) (a : A) (w : World)
      → Q a w.store
      → Post Q (answer_commit lost a w)
  committed Q true a w h = Post-reply Q internal w
  committed Q false a w h = Post-done Q a w h

  kept_result :
      (Q : A → Store → Type 0) (s : Store) (o : Outcome A × World)
      → Post Q o
      → Post Q (elim o.0 [
        | done a ↦ answer_commit (o.1.lost o.1.ran) a o.1
        | reply e ↦ (reply e, record o.1 { store = s })
      ])
  kept_result Q s (done a, w') h = committed Q (w'.lost w'.ran) a w' h.cases
  kept_result Q s (reply e, w') h = Post-reply Q e (record w' { store = s })

  -- A transaction that goes through has run its body from the same store.
  pub Post-transaction :
      (Q : A → Store → Type 0) (body : M A) (w : World)
      → ((w' : World) → w'.store ≡ w.store → Post Q (body w'))
      → Post Q (transaction body w)
  unfolding transaction
  Post-transaction Q body w h = elim (Bool-cases (w.fails w.ran)) [
    | inl down ↦ rw (down, transaction) (Post-reply Q internal (record w { ran = w.ran + 1 }))
    | inr up ↦
        rw (up, transaction)
          (kept_result Q w.store (body (record w { ran = w.ran + 1 }))
            (h (record w { ran = w.ran + 1 }) refl))
  ]

pub Reads-Post :
    {A : Type 0} (s : Store) (o : Outcome A × World) → Reads s o → Post (λ _ t. t ≡ s) o
Reads-Post s (done a, w) h = Post-done _ a w h.same
Reads-Post s (reply e, w) h = Post-reply _ e w

-- A query selects no row, or one that its condition holds of.
pub select-cases :
    {A B : Type 0} (p : A → Bool) (f : A → B) (xs : List A)
    → (select p f xs ≡ no_rows) ⊎ ((a : A) × IsIn a xs × (p a ≡ true) × (select p f xs ≡ row (f a)))
select-cases p f [] = inl refl
select-cases p f (x ∷ xs) = elim (Bool-cases (p x)) [
  | inl up ↦ inr (x, inl refl, up, rw up refl)
  | inr down ↦ elim (select-cases p f xs) [
    | inl none_left ↦ inl (rw down none_left)
    | inr (a, there, up, e) ↦ inr (a, inr there, up, rw down e)
  ]
]
