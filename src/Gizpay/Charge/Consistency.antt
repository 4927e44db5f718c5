-- ===== src/Gizpay/Charge/Consistency.antt =====
-- The books while a charge is written (createCharge, internal/gizpay/handler.go): a transaction is
-- open from its pending row to its posting, and closed by the projections.
use Prim.Native.String.{String}
use text.Mathlib.TextPositions.{eq_refl}
use gizway.Prelude.{true, false, List, [], ◌∷◌, ◌++◌, ◌≡◌, refl, sym, ap, ◌∙◌, arith}
use gizway.Int.{ℤ, pos, ◌+ℤ◌, +ℤ-zero}
use gizway.Gizpay.Store.{Store, LedgerEntry, LedgerTransaction, ledger_balance, post_transaction}
use gizway.Gizpay.Charge.Posting.{Tagged, Appends, legs_share, legs_net}
use gizway.Gizpay.Charge.Postings.{IsKeyed}
use gizway.Gizpay.Charge.Books.{
  has_transaction, IsReferenced, IsConsistent, Projects, Projects-same, sum_shares_posted,
}
use gizway.Gizpay.Charge.Effects.{Adjusts}

-- From s to t a new transaction is open with the given entries; the balances still project the
-- ledger of s.
pub record Opens (id : String) (s : Store) (t : Store) (entries : List LedgerEntry) : Type 0 where
  pub row : LedgerTransaction
  pub is_id : row.id ≡ id
  pub pending : row.posted ≡ false
  pub fresh : has_transaction s.ledger_transactions id ≡ false
  pub accounts : t.ledger_accounts ≡ s.ledger_accounts
  pub transactions : t.ledger_transactions ≡ row ∷ s.ledger_transactions
  pub appended : t.ledger_entries ≡ entries ++ s.ledger_entries
  pub tagged : Tagged id entries
  pub projected : Projects (ledger_balance s) t.balances

-- From s to t the ledger balance of every account moves by its share and the ledger's keys hold;
-- the balances still project the ledger of s.
pub record Closes (s : Store) (t : Store) (share : String → ℤ) (net : ℤ) : Type 0 where
  pub entries : List LedgerEntry
  pub appended : t.ledger_entries ≡ entries ++ s.ledger_entries
  pub net_of : legs_net entries ≡ net
  pub keyed : IsKeyed t.ledger_accounts t.ledger_accounts
  pub referenced : IsReferenced t.ledger_transactions t.ledger_entries
  pub moved : (a : String) → ledger_balance t a ≡ ledger_balance s a +ℤ share a
  pub projected : Projects (ledger_balance s) t.balances

-- The books are consistent again: entries of the given net are appended, and every balance has
-- moved by its share.
pub record Settles (s : Store) (t : Store) (share : String → ℤ) (net : ℤ) : Type 0 where
  pub entries : List LedgerEntry
  pub appended : t.ledger_entries ≡ entries ++ s.ledger_entries
  pub net_of : legs_net entries ≡ net
  pub consistent : IsConsistent t
  pub moved : (a : String) → ledger_balance t a ≡ ledger_balance s a +ℤ share a

pub Opens-pending :
    (id : String) (s : Store) (r : LedgerTransaction)
    → IsConsistent s
    → r.id ≡ id
    → r.posted ≡ false
    → has_transaction s.ledger_transactions id ≡ false
    → Opens id s (record s { ledger_transactions = r ∷ s.ledger_transactions }) []
Opens-pending id s r c h p f = record {
  row = r;
  is_id = h;
  pending = p;
  fresh = f;
  accounts = refl;
  transactions = refl;
  appended = refl;
  tagged = tt;
  projected = c.projected;
}

-- Statements outside the books keep a transaction open.
pub Opens-frame :
    {id : String} {s t u : Store} {es : List LedgerEntry}
    → Opens id s t es
    → Adjusts (λ a. pos 0) t u
    → Opens id s u es
Opens-frame {id} {s} {t} {u} {es} o p = record {
  row = o.row;
  is_id = o.is_id;
  pending = o.pending;
  fresh = o.fresh;
  accounts = p.accounts ∙ o.accounts;
  transactions = p.transactions ∙ o.transactions;
  appended = p.entries ∙ o.appended;
  tagged = o.tagged;
  projected =
      Projects-same _ (ledger_balance s) u.balances (λ a. +ℤ-zero (ledger_balance s a))
        (p.moved (ledger_balance s) o.projected);
}

-- postLedger on a transaction without entries.
pub Opens-entries :
    {id : String} {s t u : Store} {share : String → ℤ} {net : ℤ}
    → Opens id s t []
    → (p : Appends id t u share net) → Opens id s u p.entries
Opens-entries {id} {s} {t} {u} {share} o p = record {
  row = o.row;
  is_id = o.is_id;
  pending = o.pending;
  fresh = o.fresh;
  accounts = ap (λ r. r.ledger_accounts) p.same ∙ o.accounts;
  transactions = ap (λ r. r.ledger_transactions) p.same ∙ o.transactions;
  appended = rw (ap (λ r. r.ledger_entries) p.same, o.appended) refl;
  tagged = p.tagged;
  projected = rw (ap (λ r. r.balances) p.same) o.projected;
}

has_transaction-post_transaction :
    (id x : String) (ts : List LedgerTransaction)
    → has_transaction (post_transaction id ts) x ≡ has_transaction ts x
unfolding post_transaction
has_transaction-post_transaction id x [] = refl
has_transaction-post_transaction id x (t ∷ ts) =
    ground (arith, has_transaction-post_transaction id x ts)

-- The foreign key holds of the new entries and of the old ones.
IsReferenced-more :
    (ts us : List LedgerTransaction) (es : List LedgerEntry)
    → ((x : String) → has_transaction ts x ≡ true → has_transaction us x ≡ true)
    → IsReferenced ts es
    → IsReferenced us es
IsReferenced-more ts us [] h r = tt
IsReferenced-more ts us (e ∷ es) h (r, rs) = (h e.transaction_id r, IsReferenced-more ts us es h rs)

IsReferenced-all :
    (id : String) (us : List LedgerTransaction) (es rest : List LedgerEntry)
    → has_transaction us id ≡ true
    → Tagged id es
    → IsReferenced us rest
    → IsReferenced us (es ++ rest)
IsReferenced-all id us [] rest h k r = r
IsReferenced-all id us (e ∷ es) rest h (k, ks) r = (rw k h, IsReferenced-all id us es rest h ks r)

-- mark_posted on an open transaction.
pub Closes-posted :
    {id : String} {s t : Store} {share : String → ℤ} {net : ℤ} {es : List LedgerEntry}
    → IsConsistent s
    → Opens id s t es
    → ((a : String) → legs_share s.ledger_accounts a es ≡ share a)
    → legs_net es ≡ net
    → Closes s
        (record t { ledger_transactions = post_transaction id t.ledger_transactions })
        share
        net
unfolding ledger_balance
Closes-posted {id} {s} {t} {share} {net} {es} c o h n =
    let posted = post_transaction id (o.row ∷ s.ledger_transactions) in
    let self : has_transaction posted id ≡ true =
      has_transaction-post_transaction id id (o.row ∷ s.ledger_transactions)
      ∙ rw (o.is_id, eq_refl id) refl in
    let more : (x : String)
        → has_transaction s.ledger_transactions x ≡ true
        → has_transaction posted x ≡ true =
      λ x k.
        has_transaction-post_transaction id x (o.row ∷ s.ledger_transactions) ∙ ground (arith, k) in
    record {
      entries = es;
      appended = o.appended;
      net_of = n;
      keyed = rw (o.accounts) c.keyed;
      referenced =
          rw (o.transactions, o.appended)
            (IsReferenced-all id posted es s.ledger_entries self o.tagged
              (IsReferenced-more s.ledger_transactions posted s.ledger_entries more c.referenced));
      moved = λ a.
          rw (o.accounts, o.transactions, o.appended, ← h a, ← o.is_id)
            (sum_shares_posted s.ledger_accounts o.row s.ledger_transactions es s.ledger_entries a
              o.pending (rw o.is_id o.fresh) (rw o.is_id o.tagged) c.referenced);
      projected = o.projected;
    }

-- The projections after it settle the books.
pub Settles-projected :
    {s t u : Store} {share : String → ℤ} {net : ℤ}
    → Closes s t share net
    → Adjusts share t u
    → Settles s u share net
unfolding ledger_balance
Settles-projected {s} {t} {u} {share} {net} c p =
    let same : (a : String) → ledger_balance u a ≡ ledger_balance t a =
      λ a. rw (p.accounts, p.transactions, p.entries) refl in
    record {
      entries = c.entries;
      appended = p.entries ∙ c.appended;
      net_of = c.net_of;
      consistent = record {
        keyed = rw p.accounts c.keyed;
        referenced = rw (p.transactions, p.entries) c.referenced;
        projected =
            Projects-same _ (ledger_balance u) u.balances (λ a. sym (same a ∙ c.moved a))
              (p.moved (ledger_balance s) c.projected);
      };
      moved = λ a. same a ∙ c.moved a;
    }
