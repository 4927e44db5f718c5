-- ===== src/Gizpay/Charge/Books.antt =====
-- The books of GizPay: the ledger with the balances projected for the client, the invariant that
-- ties them together, and what posting one transaction does to the view account_balances.
use Prim.Native.String.{String}
use text.Mathlib.TextPositions.{eq_refl}
use gizway.Prelude.{
  Bool, true, false, List, [], ◌∷◌, ◌++◌, any, ◌≡◌, ◌≢◌, inl, inr, refl, sym, ap, ◌∙◌, arith, All,
  Bool-cases,
}
use gizway.Int.{ℤ, ◌+ℤ◌, zero-+ℤ, +ℤ-zero, +ℤ_assoc, +ℤ_comm}
use gizway.Text.{str_eq, str_eq_iff}
use gizway.Gizpay.Store.{
  Store, LedgerEntry, LedgerAccount, LedgerTransaction, BalanceRow, is_posted, entry_share,
  sum_shares, ledger_balance, post_transaction, add_to_balance,
}
use gizway.Gizpay.Charge.Posting.{delta, Tagged, legs_share}
use gizway.Gizpay.Charge.Postings.{IsKeyed}

abbrev pub has_transaction : List LedgerTransaction → String → Bool
has_transaction ts id = any (λ t. str_eq t.id id) ts

-- The foreign key of ledger_entries.
abbrev pub IsReferenced : List LedgerTransaction → List LedgerEntry → Type 0
IsReferenced ts = All (λ e. has_transaction ts e.transaction_id ≡ true)

-- Every projected balance is the value of a function of the account.
abbrev pub Projects : (String → ℤ) → List BalanceRow → Type 0
Projects v = All (λ b. b.balance ≡ v b.account_id)

-- The invariant of the books: the ledger's keys hold, and client_sync.account_balances agrees with
-- the view account_balances.
pub record IsConsistent (s : Store) : Type 0 where
  pub keyed : IsKeyed s.ledger_accounts s.ledger_accounts
  pub referenced : IsReferenced s.ledger_transactions s.ledger_entries
  pub projected : Projects (ledger_balance s) s.balances

-- An UPDATE of one account's balance moves it by the delta, and no other.
pub add_to_balance-Projects :
    (who : String) (x : ℤ) (v : String → ℤ) (bs : List BalanceRow)
    → Projects v bs
    → Projects (λ a. v a +ℤ delta who x a) (add_to_balance who x bs)
unfolding add_to_balance
add_to_balance-Projects who x v [] h = tt
add_to_balance-Projects who x v (b ∷ bs) (h, hs) = elim (Bool-cases (str_eq b.account_id who)) [
  | inl same ↦ rw same ((rw (same, h), add_to_balance-Projects who x v bs hs))
  | inr other ↦ rw other ((rw (other, h) (sym (+ℤ-zero _)), add_to_balance-Projects who x v bs hs))
]

pub Projects-same :
    (v u : String → ℤ) (bs : List BalanceRow)
    → ((a : String) → v a ≡ u a)
    → Projects v bs
    → Projects u bs
Projects-same v u [] e h = tt
Projects-same v u (b ∷ bs) e (h, hs) = (h ∙ e b.account_id, Projects-same v u bs e hs)

-- Posting one transaction posts no other.
is_posted-post_transaction_ne :
    (id x : String) (ts : List LedgerTransaction)
    → x ≢ id
    → is_posted (post_transaction id ts) x ≡ is_posted ts x
unfolding is_posted post_transaction
is_posted-post_transaction_ne id x [] h = refl
is_posted-post_transaction_ne id x (t ∷ ts) h =
    ground (arith, str_eq_iff t.id id, str_eq_iff t.id x, is_posted-post_transaction_ne id x ts h)

is_posted-post_transaction :
    (id : String) (ts : List LedgerTransaction)
    → has_transaction ts id ≡ true
    → is_posted (post_transaction id ts) id ≡ true
unfolding is_posted post_transaction
is_posted-post_transaction id [] h = absurd (cc)
is_posted-post_transaction id (t ∷ ts) h =
    ground (arith, str_eq_iff t.id id, is_posted-post_transaction id ts)

-- Entries that refer to other transactions count as before.
sum_shares-post_transaction_ne :
    (ls : List LedgerAccount) (id a : String) (ts : List LedgerTransaction) (es : List LedgerEntry)
    → All (λ e. e.transaction_id ≢ id) es
    → sum_shares ls (post_transaction id ts) a es ≡ sum_shares ls ts a es
unfolding sum_shares entry_share
sum_shares-post_transaction_ne ls id a ts [] h = refl
sum_shares-post_transaction_ne ls id a ts (e ∷ es) (h, hs) = rw (
  is_posted-post_transaction_ne id e.transaction_id ts h,
  sum_shares-post_transaction_ne ls id a ts es hs,
)

-- The entries of the transaction that is posted count with their shares.
sum_shares-Tagged :
    (ls : List LedgerAccount) (id a : String) (ts : List LedgerTransaction)
    (es rest : List LedgerEntry)
    → Tagged id es
    → is_posted ts id ≡ true
    → sum_shares ls ts a (es ++ rest) ≡ legs_share ls a es +ℤ sum_shares ls ts a rest
unfolding sum_shares entry_share legs_share
sum_shares-Tagged ls id a ts [] rest h k = sym (zero-+ℤ _)
sum_shares-Tagged ls id a ts (e ∷ es) rest (h, hs) k =
    rw (h, k, sum_shares-Tagged ls id a ts es rest hs k) (sym (+ℤ_assoc _ _ _))

-- An entry that refers to a listed transaction does not refer to a new one.
pub IsReferenced-ne :
    (id : String) (ts : List LedgerTransaction) (es : List LedgerEntry)
    → has_transaction ts id ≡ false
    → IsReferenced ts es
    → All (λ e. e.transaction_id ≢ id) es
IsReferenced-ne id ts [] new h = tt
IsReferenced-ne id ts (e ∷ es) new (h, hs) =
    (λ same. cc (ap (has_transaction ts) same), IsReferenced-ne id ts es new hs)

is_posted_pending :
    (t : LedgerTransaction) (ts : List LedgerTransaction) (x : String)
    → t.posted ≡ false
    → is_posted (t ∷ ts) x ≡ is_posted ts x
unfolding is_posted
is_posted_pending t ts x h = ground arith

-- A pending transaction counts for nothing.
sum_shares_pending :
    (ls : List LedgerAccount) (a : String) (t : LedgerTransaction) (ts : List LedgerTransaction)
    (es : List LedgerEntry)
    → t.posted ≡ false
    → sum_shares ls (t ∷ ts) a es ≡ sum_shares ls ts a es
unfolding sum_shares entry_share
sum_shares_pending ls a t ts [] h = refl
sum_shares_pending ls a t ts (e ∷ es) h =
    rw (is_posted_pending t ts e.transaction_id h, sum_shares_pending ls a t ts es h)

pub has_self :
    (t : LedgerTransaction) (ts : List LedgerTransaction) → has_transaction (t ∷ ts) t.id ≡ true
has_self t ts = rw (eq_refl t.id)

-- The view account_balances after a new transaction is inserted as pending, its entries are added
-- and it is posted: every balance has moved by its share.
pub sum_shares_posted :
    (ls : List LedgerAccount) (t : LedgerTransaction) (ts : List LedgerTransaction)
    (es rest : List LedgerEntry) (a : String)
    → t.posted ≡ false
    → has_transaction ts t.id ≡ false
    → Tagged t.id es
    → IsReferenced ts rest
    → sum_shares ls (post_transaction t.id (t ∷ ts)) a (es ++ rest)
      ≡ sum_shares ls ts a rest +ℤ legs_share ls a es
sum_shares_posted ls t ts es rest a pending new tagged referenced =
    let posted : is_posted (post_transaction t.id (t ∷ ts)) t.id ≡ true =
      is_posted-post_transaction t.id (t ∷ ts) (has_self t ts) in
    sum_shares-Tagged ls t.id a (post_transaction t.id (t ∷ ts)) es rest tagged posted
    ∙ rw
        (
          sum_shares-post_transaction_ne ls t.id a (t ∷ ts) rest
              (IsReferenced-ne t.id ts rest new referenced),
          sum_shares_pending ls a t ts rest pending,
        )
        (+ℤ_comm _ _)
