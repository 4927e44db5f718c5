-- ===== src/Gizpay/Charge/Posting.antt =====
-- What postLedger (internal/gizpay/handler.go) appends to the ledger: the share of every account,
-- and the credits less the debits.
use Prim.Native.String.{String}
use mathlib.Core.List.{append_assoc}
use gizway.Prelude.{
  Bool, true, false, ◌&&◌, List, [], ◌∷◌, ◌++◌, ◌≡◌, refl, sym, ap, ◌∙◌, arith, All, if◌then◌else◌,
}
use gizway.Int.{ℤ, pos, ◌+ℤ◌, leb_ℤ, int_laws, +ℤ_comm, +ℤ_assoc}
use gizway.Text.{str_eq}
use gizway.Gizpay.Store.{
  Store, Direction, debit, credit, LedgerEntry, LedgerAccount, signed_amount, holder, holds,
}
use gizway.Gizpay.Request.{Response, World, row, new_id}
use gizway.Gizpay.Triple.{Post, Post-bind, Post-exec, Post-branch, Post-done, new_id-same}
use gizway.Gizpay.Charge.{insert_entry_row, insert_entry}

-- An amount at one account, nothing at the others.
abbrev pub delta : String → ℤ → String → ℤ
delta who x a = if str_eq a who then x else pos 0

-- The share of an account in entries, were their transaction posted.
unfoldable pub legs_share : List LedgerAccount → String → List LedgerEntry → ℤ
legs_share ledgers account [] = pos 0
legs_share ledgers account (e ∷ es) =
    (if holds (holder ledgers e.ledger_account_id) account
      then signed_amount e.direction e.amount
      else pos 0)
    +ℤ legs_share ledgers account es

-- The credits less the debits of entries.
unfoldable pub legs_net : List LedgerEntry → ℤ
legs_net [] = pos 0
legs_net (e ∷ es) = signed_amount e.direction e.amount +ℤ legs_net es

legs_share-append :
    (ls : List LedgerAccount) (a : String) (es fs : List LedgerEntry)
    → legs_share ls a (es ++ fs) ≡ legs_share ls a es +ℤ legs_share ls a fs
unfolding legs_share
legs_share-append ls a [] fs = omega int_laws
legs_share-append ls a (e ∷ es) fs = rw (legs_share-append ls a es fs) (sym (+ℤ_assoc _ _ _))

legs_net-append : (es fs : List LedgerEntry) → legs_net (es ++ fs) ≡ legs_net es +ℤ legs_net fs
unfolding legs_net
legs_net-append [] fs = omega int_laws
legs_net-append (e ∷ es) fs = rw (legs_net-append es fs) (sym (+ℤ_assoc _ _ _))

abbrev pub Tagged : String → List LedgerEntry → Type 0
Tagged id = All (λ e. e.transaction_id ≡ id)

Tagged-append :
    (id : String) (es fs : List LedgerEntry) → Tagged id es → Tagged id fs → Tagged id (es ++ fs)
Tagged-append id [] fs h k = k
Tagged-append id (e ∷ es) fs h k = (h.0, Tagged-append id es fs h.1 k)

-- From s to t the entries of one transaction are appended, with the given shares and net.
pub record Appends (id : String) (s : Store) (t : Store) (share : String → ℤ) (net : ℤ)
    : Type 0 where
  pub entries : List LedgerEntry
  pub same : t ≡ record s { ledger_entries = entries ++ s.ledger_entries }
  pub tagged : Tagged id entries
  pub shares : (a : String) → legs_share s.ledger_accounts a entries ≡ share a
  pub net_of : legs_net entries ≡ net

module _ (id : String) where
  pub Appends-none : (s : Store) → Appends id s s (λ a. pos 0) (pos 0)
  unfolding legs_share legs_net
  Appends-none s = record {
    entries = [];
    same = refl;
    tagged = tt;
    shares = λ a. refl;
    net_of = refl;
  }

  Appends-one :
      (s : Store) (e : LedgerEntry)
      → e.transaction_id ≡ id
      → Appends id s
          (record s { ledger_entries = e ∷ s.ledger_entries })
          (λ a.
            if holds (holder s.ledger_accounts e.ledger_account_id) a
            then signed_amount e.direction e.amount
            else pos 0)
          (signed_amount e.direction e.amount)
  unfolding legs_share legs_net
  Appends-one s e h = record {
    entries = e ∷ [];
    same = refl;
    tagged = (h, tt);
    shares = λ a. omega int_laws;
    net_of = omega int_laws;
  }

  pub Appends-then :
      {s t u : Store} {f g : String → ℤ} {n m : ℤ}
      → Appends id s t f n
      → Appends id t u g m
      → Appends id s u (λ a. f a +ℤ g a) (n +ℤ m)
  Appends-then {s} {t} {u} {f} {g} {n} {m} p q = record {
    entries = q.entries ++ p.entries;
    same =
        q.same
        ∙ ap {A = Store} (λ r. record r { ledger_entries = q.entries ++ r.ledger_entries }) p.same
        ∙ ap {A = List LedgerEntry} (λ l. record s { ledger_entries = l })
            (sym (append_assoc q.entries p.entries s.ledger_entries));
    tagged = Tagged-append id q.entries p.entries q.tagged p.tagged;
    shares = λ a.
        let e : legs_share s.ledger_accounts a q.entries ≡ g a =
          ap {A = Store} (λ r. legs_share r.ledger_accounts a q.entries) (sym p.same)
          ∙ q.shares a in
        legs_share-append s.ledger_accounts a q.entries p.entries
        ∙ rw (e, p.shares a) (+ℤ_comm (g a) (f a));
    net_of = legs_net-append q.entries p.entries ∙ rw (p.net_of, q.net_of) (+ℤ_comm m n);
  }

-- What insertEntry adds: the signed amount to the holder of the ledger account.
abbrev pub entry_effect : Store → String → Direction → ℤ → String → ℤ
entry_effect s ledger direction amount a =
    if holds (holder s.ledger_accounts ledger) a then signed_amount direction amount else pos 0

insert_entry_row-Appends :
    (e : LedgerEntry) (s t : Store) (u : Unit {0})
    → insert_entry_row e s ≡ (row u, t)
    → Appends e.transaction_id s t
        (entry_effect s e.ledger_account_id e.direction e.amount)
        (signed_amount e.direction e.amount)
unfolding insert_entry_row
insert_entry_row-Appends e s t u h =
    let same : t ≡ record s { ledger_entries = e ∷ s.ledger_entries } = ground arith in
    rw same (Appends-one e.transaction_id s e refl)

zero_amount : (amount : ℤ) → leb_ℤ amount (pos 0) && leb_ℤ (pos 0) amount ≡ true → amount ≡ pos 0
zero_amount amount h = ground arith

zero_effect :
    (direction : Direction) (amount : ℤ)
    → leb_ℤ amount (pos 0) && leb_ℤ (pos 0) amount ≡ true
    → signed_amount direction amount ≡ pos 0
zero_effect credit amount h = zero_amount amount h
zero_effect debit amount h = rw (zero_amount amount h) (omega int_laws)

pub if_same : (b : Bool) (x y : ℤ) → x ≡ y → y ≡ (if b then x else y)
if_same true x y h = sym h
if_same false x y h = refl

module _ (e : Response) (id ledger : String) (direction : Direction) (amount : ℤ) (w : World) where
  abbrev AppendsEntry : Unit {0} → Store → Type 0
  AppendsEntry _ t =
      Appends id w.store t (entry_effect w.store ledger direction amount)
        (signed_amount direction amount)

  abbrev entry_of : String → LedgerEntry
  entry_of new = record {
    id = new;
    transaction_id = id;
    ledger_account_id = ledger;
    direction = direction;
    amount = amount;
  }

  nothing_appended : leb_ℤ amount (pos 0) && leb_ℤ (pos 0) amount ≡ true → AppendsEntry tt w.store
  unfolding legs_share legs_net
  nothing_appended h =
      let z = zero_effect direction amount h in
      record {
        entries = [];
        same = refl;
        tagged = tt;
        shares = λ a. if_same (holds (holder w.store.ledger_accounts ledger) a) _ (pos 0) z;
        net_of = sym z;
      }

  -- insertEntry, where it goes through.
  pub insert_entry-Appends : Post AppendsEntry (insert_entry e id ledger direction amount w)
  unfolding insert_entry
  insert_entry-Appends =
      Post-branch AppendsEntry (leb_ℤ amount (pos 0) && leb_ℤ (pos 0) amount) _ _ w
        (λ z. Post-done AppendsEntry tt w (nothing_appended z))
        (λ _.
          Post-bind (λ _ t. t ≡ w.store) AppendsEntry (new_id "entry_") _ w (new_id-same "entry_" w)
            (λ new w' same.
              Post-exec AppendsEntry e (insert_entry_row (entry_of new)) w'
                (λ u t h. insert_entry_row-Appends (entry_of new) w.store t u (rw same at h))))
