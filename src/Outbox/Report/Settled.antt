-- ===== src/Outbox/Report/Settled.antt =====
-- The tables after markOutboxReported (internal/gizway/protocol.go) has returned without an error.
use Prim.Native.String.{String}
use gizway.Prelude.{
  Bool, true, false, some, List, [], ◌∷◌, both, any-IsIn, IsIn, find-IsIn, Rowwise, ◌≡◌, refl, ◌⊎◌,
  inl, inr, if◌then◌else◌,
}
use gizway.Int.{ℤ, ◌+ℤ◌}
use gizway.Text.{str_eq, str_eq_iff}
use gizway.Gizpay.Store.{Instant}
use gizway.Outbox.{
  OutboxStatus, pending, sending, reported, abandoned, is_open, OutboxRow, AiOrder, charged, KeyRow,
  Db, Site,
}
use gizway.Outbox.Report.{
  update_rows, open_row, set_row, complete_row, update_orders, charge_order, earn, find_order,
  mark_outbox_reported,
}
use gizway.Outbox.Report.Earned.{Earned, is_own_open, mark_outbox_reported-Earned}

-- An update of the rows that a condition holds of.
abbrev pub Updates : {A : Type 0} → (A → Type 0) → (A → A) → A → A → Type 0
Updates Q f x y = (Q x → y ≡ f x) × (¬ Q x → y ≡ x)

-- The row of the ID and the order, which has not been reported or abandoned.
abbrev pub IsOwn : String → String → OutboxRow → Type 0
IsOwn id order_id r =
    (r.id ≡ id) × ((r.status ≡ pending) ⊎ (r.status ≡ sending)) × (r.ai_order_id ≡ order_id)

-- The order and a row of it that was open were there. The row is reported, the order is charged, the
-- commission of the order is added to what its key has earned, in both tables, and nothing else changes.
pub record IsSettled (id order_id : String) (now : Instant) (before after : Db) : Type 0 where
  pub order : AiOrder
  pub row : OutboxRow
  pub has_order : IsIn order before.ai_orders × (order.id ≡ order_id)
  pub has_row : IsIn row before.charge_outbox × IsOwn id order_id row
  pub rows :
      Rowwise
        (Updates
          (IsOwn id order_id)
          (λ r. record r { status = reported; recover_duplicate = false; updated_at = now }))
        before.charge_outbox
        after.charge_outbox
  pub orders :
      Rowwise
        (Updates (λ (o : AiOrder). o.id ≡ order_id) (λ o. record o { status = charged }))
        before.ai_orders
        after.ai_orders
  pub billing :
      Rowwise
        (Updates
          (λ (k : KeyRow). k.provider_key_id ≡ order.provider_key_id)
          (λ k. record k { earned = k.earned +ℤ order.commission; updated_at = now }))
        before.provider_key_billing
        after.provider_key_billing
  pub sync :
      Rowwise
        (Updates
          (λ (k : KeyRow). k.provider_key_id ≡ order.provider_key_id)
          (λ k. record k { earned = k.earned +ℤ order.commission; updated_at = now }))
        before.provider_keys
        after.provider_keys
  pub usage : after.ai_usage ≡ before.ai_usage

is_open_iff :
    (s : OutboxStatus)
    → (is_open s ≡ true → (s ≡ pending) ⊎ (s ≡ sending))
      × ((s ≡ pending) ⊎ (s ≡ sending) → is_open s ≡ true)
is_open_iff pending = ((λ h. inl refl), (λ h. refl))
is_open_iff sending = ((λ h. inr refl), (λ h. refl))
is_open_iff reported =
    ((λ h. absurd (cc)), (λ h. elim h [ inl e ↦ absurd (cc) | inr e ↦ absurd (cc) ]))
is_open_iff abandoned =
    ((λ h. absurd (cc)), (λ h. elim h [ inl e ↦ absurd (cc) | inr e ↦ absurd (cc) ]))

IsOwn-is_own_open :
    (id order_id : String) (r : OutboxRow) → is_own_open id order_id r ≡ true → IsOwn id order_id r
IsOwn-is_own_open id order_id r h =
    let (is_mine, its) = both (open_row id r) _ h in
    let (same, status) = both (str_eq r.id id) _ is_mine in
    (
      (str_eq_iff r.id id).0 same,
      (is_open_iff r.status).0 status,
      (str_eq_iff r.ai_order_id order_id).0 its,
    )

is_own_open-IsOwn :
    (id order_id : String) (r : OutboxRow) → IsOwn id order_id r → is_own_open id order_id r ≡ true
is_own_open-IsOwn id order_id r (same, status, its) =
    rw
      (
        (str_eq_iff r.id id).1 same,
        (is_open_iff r.status).1 status,
        (str_eq_iff r.ai_order_id order_id).1 its,
      )
      refl

-- One row of an UPDATE.
Updates-if :
    {A : Type 0} (Q : A → Type 0) (f : A → A) (b : Bool) (x : A)
    → (b ≡ true → Q x)
    → (Q x → b ≡ true)
    → Updates Q f x (if b then f x else x)
Updates-if Q f true x to of = ((λ q. refl), (λ n. absurd (n (to refl))))
Updates-if Q f false x to of = ((λ q. let h = of q in absurd (cc)), (λ n. refl))

rows-Rowwise :
    (id order_id : String) (f : OutboxRow → OutboxRow) (rs : List OutboxRow)
    → Rowwise (Updates (IsOwn id order_id) f) rs (update_rows (is_own_open id order_id) f rs)
rows-Rowwise id order_id f [] = tt
rows-Rowwise id order_id f (r ∷ rs) = (
  Updates-if (IsOwn id order_id) f (is_own_open id order_id r) r (IsOwn-is_own_open id order_id r)
      (is_own_open-IsOwn id order_id r),
  rows-Rowwise id order_id f rs,
)

orders-Rowwise :
    (order_id : String) (f : AiOrder → AiOrder) (os : List AiOrder)
    → Rowwise (Updates (λ o. o.id ≡ order_id) f) os (update_orders (λ o. str_eq o.id order_id) f os)
unfolding update_orders
orders-Rowwise order_id f [] = tt
orders-Rowwise order_id f (o ∷ os) = (
  Updates-if (λ (o : AiOrder). o.id ≡ order_id) f (str_eq o.id order_id) o
      (str_eq_iff o.id order_id).0 (str_eq_iff o.id order_id).1,
  orders-Rowwise order_id f os,
)

earn-Rowwise :
    (key : String) (amount : ℤ) (now : Instant) (ks : List KeyRow)
    → Rowwise
        (Updates
          (λ k. k.provider_key_id ≡ key)
          (λ k. record k { earned = k.earned +ℤ amount; updated_at = now }))
        ks
        (earn key amount now ks)
unfolding earn
earn-Rowwise key amount now [] = tt
earn-Rowwise key amount now (k ∷ ks) = (
  Updates-if (λ (k : KeyRow). k.provider_key_id ≡ key)
      (λ k. record k { earned = k.earned +ℤ amount; updated_at = now })
      (str_eq k.provider_key_id key) k (str_eq_iff k.provider_key_id key).0
      (str_eq_iff k.provider_key_id key).1,
  earn-Rowwise key amount now ks,
)

Earned-IsSettled :
    (id order_id : String) (now : Instant) (before after : Db)
    → Earned id order_id now before after
    → IsSettled id order_id now before after
unfolding complete_row charge_order find_order
Earned-IsSettled id order_id now before after h =
    let o = h.order in
    let (there, same) = find-IsIn (λ o. str_eq o.id order_id) before.ai_orders o h.found in
    let (r, listed, own) = any-IsIn (is_own_open id order_id) before.charge_outbox h.was_open in
    rw h.tables (record {
      order = o;
      row = r;
      has_order = (there, (str_eq_iff o.id order_id).0 same);
      has_row = (listed, IsOwn-is_own_open id order_id r own);
      rows = rows-Rowwise id order_id (set_row reported false now) before.charge_outbox;
      orders = orders-Rowwise order_id (λ o. record o { status = charged }) before.ai_orders;
      billing = earn-Rowwise o.provider_key_id o.commission now before.provider_key_billing;
      sync = earn-Rowwise o.provider_key_id o.commission now before.provider_keys;
      usage = refl;
    })

-- Where markOutboxReported returns without an error, with any faults, the order and an open row of it
-- were there; the row is reported, the order is charged, and its commission is added to what its key has
-- earned, in both tables. No other row changes.
pub mark_outbox_reported-IsSettled :
    {R : Type 0} (id order_id : String) (now : Instant) (w : Site R)
    → (mark_outbox_reported id order_id now w).0 ≡ some true
    → IsSettled id order_id now w.db (mark_outbox_reported id order_id now w).1.db
mark_outbox_reported-IsSettled id order_id now w ok =
    Earned-IsSettled id order_id now w.db (mark_outbox_reported id order_id now w).1.db
      (mark_outbox_reported-Earned id order_id now w ok)
