-- ===== src/Gizpay/Charge/Postings.antt =====
-- The ledger accounts that postLedger (internal/gizpay/handler.go) resolves, and all that it appends.
use Prim.Native.String.{String}
use gizway.Prelude.{
  Bool, true, false, ◌&&◌, Option, none, some, List, [], ◌∷◌, ◌≡◌, inl, inr, ap, ◌∙◌, arith, All,
  Bool-cases, if◌then◌else◌,
}
use gizway.Int.{ℤ}
use gizway.Text.{str_eq, str_eq_iff}
use gizway.Gizpay.Store.{Store, LedgerAccount, holder, owner_of, is_credit_of}
use gizway.Gizpay.Request.{World, row, internal}
use gizway.Gizpay.Triple.{Post, Post-exec}
use gizway.Gizpay.Charge.{select, ledger_of_account, ledger_of_asset}
use gizway.Gizpay.Charge.Posting.{Appends}

-- Every ledger account is found under its ID, and so counts for the account that owns it.
abbrev pub IsKeyed : List LedgerAccount → List LedgerAccount → Type 0
IsKeyed all = All (λ l. holder all l.id ≡ owner_of l)

-- What a selected row is: it passes the test, and has every property of all rows.
select-row :
    (P : LedgerAccount → Type 0) (p : LedgerAccount → Bool) (ls : List LedgerAccount) (x : String)
    → All P ls
    → select p (λ l. l.id) ls ≡ row x
    → (l : LedgerAccount) × P l × (p l ≡ true) × (l.id ≡ x)
select-row P p [] x h e = absurd (cc)
select-row P p (l ∷ ls) x (h, hs) e = elim (Bool-cases (p l)) [
  | inl yes_row ↦ (l, h, yes_row, ground arith)
  | inr no_row ↦ select-row P p ls x hs (ground arith)
]

credit_owner :
    (o : Option String) (c : Bool) (a : String)
    → (elim o [ none ↦ false | some who ↦ str_eq who a ]) && c ≡ true
    → (if c then o else none) ≡ some a
credit_owner none c a h = absurd (cc)
credit_owner (some who) true a h = ap some ((str_eq_iff who a).0 (ground arith))
credit_owner (some who) false a h = absurd (ground arith)

owner_of_credit : (a : String) (l : LedgerAccount) → is_credit_of a l ≡ true → owner_of l ≡ some a
owner_of_credit a l h = credit_owner l.owner_account_id (str_eq l.asset_code "credit") a h

owner_of_fee : (l : LedgerAccount) → str_eq l.asset_code "platform_fee" ≡ true → owner_of l ≡ none
owner_of_fee l h =
    let e : str_eq l.asset_code "credit" ≡ false =
      ap (λ t. str_eq t "credit") ((str_eq_iff l.asset_code "platform_fee").0 h) in
    rw e

-- The ledger account of an account counts for that account, and that of the fee for none.
pub holder_of_account :
    (ls : List LedgerAccount) (a x : String)
    → IsKeyed ls ls
    → select (is_credit_of a) (λ l. l.id) ls ≡ row x
    → holder ls x ≡ some a
holder_of_account ls a x keyed e =
    let (l, h, p, same) =
      select-row (λ l. holder ls l.id ≡ owner_of l) (is_credit_of a) ls x keyed e in
    rw (← same) (h ∙ owner_of_credit a l p)

holder_of_fee :
    (ls : List LedgerAccount) (x : String)
    → IsKeyed ls ls
    → select (λ l. str_eq l.asset_code "platform_fee") (λ l. l.id) ls ≡ row x
    → holder ls x ≡ none
holder_of_fee ls x keyed e =
    let (l, h, p, same) =
      select-row (λ l. holder ls l.id ≡ owner_of l) (λ l. str_eq l.asset_code "platform_fee") ls x
        keyed e in
    rw (← same) (h ∙ owner_of_fee l p)

-- A run from s to t that appends entries, with facts of its result.
abbrev pub Run : (id : String) → Store → (String → ℤ) → ℤ → Unit {0} → Store → Type 0
Run id s share net _ t = Appends id s t share net

pub same_shares :
    {id : String} {s t : Store} {f g : String → ℤ} {n m : ℤ}
    → Appends id s t f n
    → ((a : String) → f a ≡ g a)
    → n ≡ m
    → Appends id s t g m
same_shares p h e = record {
  entries = p.entries;
  same = p.same;
  tagged = p.tagged;
  shares = λ a. p.shares a ∙ h a;
  net_of = p.net_of ∙ e;
}

-- The ledger accounts are found and the store is as before.
unfoldable pub Found : Store → Option String → String → Store → Type 0
Found s who l t = (t ≡ s) × (holder s.ledger_accounts l ≡ who)

module _ (w : World) (keyed : IsKeyed w.store.ledger_accounts w.store.ledger_accounts) where
  pub ledger_of_account-Found : (a : String) → Post (Found w.store (some a)) (ledger_of_account a w)
  unfolding ledger_of_account Found
  ledger_of_account-Found a =
      Post-exec (Found w.store (some a)) internal _ w (λ l t h.
        (ground arith, holder_of_account w.store.ledger_accounts a l keyed (ground arith)))

  pub ledger_of_fee-Found : Post (Found w.store none) (ledger_of_asset "platform_fee" w)
  unfolding ledger_of_asset Found
  ledger_of_fee-Found =
      Post-exec (Found w.store none) internal _ w
        (λ l t h. (ground arith, holder_of_fee w.store.ledger_accounts l keyed (ground arith)))
