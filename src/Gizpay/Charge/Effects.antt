-- ===== src/Gizpay/Charge/Effects.antt =====
-- What the statements of createCharge (internal/gizpay/handler.go) outside the ledger do to the
-- books: most nothing, the projections of the client one delta each.
use Prim.Native.String.{String}
use gizway.Prelude.{◌≡◌, refl, sym, ap, ◌∙◌, arith}
use gizway.Int.{ℤ, pos, ◌+ℤ◌, +ℤ-zero, +ℤ_assoc}
use gizway.Gizpay.Store.{Store, SyncTransaction, SyncCharge, add_to_balance}
use gizway.Gizpay.Request.{M, World, internal, ◌>>=◌, Sql, Response, exec}
use gizway.Gizpay.Triple.{Post, Post-bind, Post-exec, Post-weaken}
use gizway.Gizpay.Charge.Create.{
  update_balance, resolve_owner, insert_sync_transaction, insert_sync_charge,
}
use gizway.Gizpay.Charge.Posting.{delta}
use gizway.Gizpay.Charge.Books.{Projects, Projects-same, add_to_balance-Projects}

-- From s to t the ledger stays, and the projected balances move by f.
pub record Adjusts (f : String → ℤ) (s : Store) (t : Store) : Type 0 where
  pub accounts : t.ledger_accounts ≡ s.ledger_accounts
  pub transactions : t.ledger_transactions ≡ s.ledger_transactions
  pub entries : t.ledger_entries ≡ s.ledger_entries
  pub moved : (v : String → ℤ) → Projects v s.balances → Projects (λ a. v a +ℤ f a) t.balances

pub Adjusts-frame :
    (s t : Store)
    → t.ledger_accounts ≡ s.ledger_accounts
    → t.ledger_transactions ≡ s.ledger_transactions
    → t.ledger_entries ≡ s.ledger_entries
    → t.balances ≡ s.balances
    → Adjusts (λ a. pos 0) s t
Adjusts-frame s t a b c d = record {
  accounts = a;
  transactions = b;
  entries = c;
  moved = λ v h. rw d (Projects-same v _ s.balances (λ x. sym (+ℤ-zero (v x))) h);
}

pub Adjusts-then :
    {f g : String → ℤ} {s t u : Store}
    → Adjusts f s t
    → Adjusts g t u
    → Adjusts (λ a. f a +ℤ g a) s u
Adjusts-then {f} {g} {s} {t} {u} p q = record {
  accounts = q.accounts ∙ p.accounts;
  transactions = q.transactions ∙ p.transactions;
  entries = q.entries ∙ p.entries;
  moved = λ v h.
      Projects-same _ _ u.balances (λ a. +ℤ_assoc (v a) (f a) (g a)) (q.moved _ (p.moved v h));
}

pub Adjusts-same :
    {f g : String → ℤ} {s t : Store} → Adjusts f s t → ((a : String) → f a ≡ g a) → Adjusts g s t
Adjusts-same {f} {g} {s} {t} p e = record {
  accounts = p.accounts;
  transactions = p.transactions;
  entries = p.entries;
  moved = λ v h. Projects-same _ _ t.balances (λ a. ap (λ x. v a +ℤ x) (e a)) (p.moved v h);
}

abbrev pub Moves : {A : Type 0} → (String → ℤ) → Store → A → Store → Type 0
Moves f s _ t = Adjusts f s t

module _ {A B : Type 0} where
  pub Moves-then :
      (m : M A) (k : A → M B) (w : World) {f g : String → ℤ}
      → Post (Moves f w.store) (m w)
      → ((a : A) (w' : World) → Post (Moves g w'.store) (k a w'))
      → Post (Moves (λ a. f a +ℤ g a) w.store) ((m >>= k) w)
  Moves-then m k w {f} {g} h j =
      Post-bind (Moves f w.store) _ m k w h
        (λ a w' p. Post-weaken _ (Moves g w'.store) (k a w') (j a w') (λ _ t q. Adjusts-then p q))

-- A statement whose rows lie outside the books.
pub exec-Moves :
    {A : Type 0} (e : Response) (f : Store → Sql A × Store) (w : World)
    → ((s : Store) → (f s).1.ledger_accounts ≡ s.ledger_accounts)
    → ((s : Store) → (f s).1.ledger_transactions ≡ s.ledger_transactions)
    → ((s : Store) → (f s).1.ledger_entries ≡ s.ledger_entries)
    → ((s : Store) → (f s).1.balances ≡ s.balances)
    → Post (Moves (λ a. pos 0) w.store) (exec e f w)
exec-Moves e f w a b c d = Post-exec _ e f w (λ r t h.
    let same : (f w.store).1 ≡ t = ap (λ x. x.1) h in
    Adjusts-frame w.store t (rw (← same) (a w.store)) (rw (← same) (b w.store))
      (rw (← same) (c w.store)) (rw (← same) (d w.store)))

pub resolve_owner-Moves :
    (a : String) (w : World) → Post (Moves (λ a. pos 0) w.store) (resolve_owner a w)
unfolding resolve_owner
resolve_owner-Moves a w = exec-Moves internal _ w (λ s. refl) (λ s. refl) (λ s. refl) (λ s. refl)

pub insert_sync_transaction-Moves :
    (r : SyncTransaction) (w : World)
    → Post (Moves (λ a. pos 0) w.store) (insert_sync_transaction r w)
unfolding insert_sync_transaction
insert_sync_transaction-Moves r w =
    exec-Moves internal _ w (λ s. refl) (λ s. refl) (λ s. refl) (λ s. refl)

pub insert_sync_charge-Moves :
    (r : SyncCharge) (w : World) → Post (Moves (λ a. pos 0) w.store) (insert_sync_charge r w)
unfolding insert_sync_charge
insert_sync_charge-Moves r w =
    exec-Moves internal _ w (λ s. refl) (λ s. refl) (λ s. refl) (λ s. refl)

-- One UPDATE of a balance.
pub update_balance-Moves :
    (who : String) (x : ℤ) (w : World) → Post (Moves (delta who x) w.store) (update_balance who x w)
unfolding update_balance
update_balance-Moves who x w = Post-exec _ internal _ w (λ r t h.
    let same : t ≡ record w.store { balances = add_to_balance who x w.store.balances } =
      ground arith in
    rw same (record {
      accounts = refl;
      transactions = refl;
      entries = refl;
      moved = λ v p. add_to_balance-Projects who x v w.store.balances p;
    }))
