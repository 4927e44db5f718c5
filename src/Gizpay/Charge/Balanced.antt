-- ===== src/Gizpay/Charge/Balanced.antt =====
-- postLedger as a whole (internal/gizpay/handler.go): the share of every account in the entries of a
-- charge, and the balance of its debits and credits.
use Prim.Native.String.{String}
use gizway.Prelude.{List, ◌≡◌}
use gizway.Int.{ℤ, pos, ◌+ℤ◌, ◌-ℤ◌, ◌≤ℤ◌, int_laws}
use gizway.Int64.{IsInt64}
use gizway.Gizpay.Store.{debit}
use gizway.Gizpay.Request.{World, internal}
use gizway.Gizpay.Triple.{Post, Post-bind}
use gizway.Gizpay.Charge.{
  ResolvedCommission, insert_entry, ledger_of_account, post_commissions, post_main, post_fee,
  post_ledger,
}
use gizway.Gizpay.Charge.Posting.{delta}
use gizway.Gizpay.Charge.Postings.{IsKeyed, Run, Found, ledger_of_account-Found}
use gizway.Gizpay.Charge.Legs.{
  commission_share, commission_sum, leg_at, Run-then, kept, post_commissions-Run, post_main-Run,
  post_fee-Run,
}

-- The change that one charge makes to the balance of an account.
abbrev pub charge_share : String → String → ℤ → ℤ → List ResolvedCommission → String → ℤ
charge_share payer main gross main_net cs a =
    delta payer (pos 0 -ℤ gross) a +ℤ (delta main main_net a +ℤ (commission_share cs a +ℤ pos 0))

abbrev pub charge_net : ℤ → ℤ → ℤ → List ResolvedCommission → ℤ
charge_net gross main_net fee cs = (pos 0 -ℤ gross) +ℤ (main_net +ℤ (commission_sum cs +ℤ fee))

module _ (id payer main : String) (gross main_net fee : ℤ) (cs : List ResolvedCommission) where
  -- The entries of postLedger, where it goes through: each account's share is its part of the
  -- charge.
  pub post_ledger-Run :
      (w : World)
      → IsKeyed w.store.ledger_accounts w.store.ledger_accounts
      → IsInt64 (pos 0 -ℤ main_net)
      → pos 0 ≤ℤ fee
      → Post
          (Run id w.store
            (charge_share payer main gross main_net cs)
            (charge_net gross main_net fee cs))
          (post_ledger id payer main gross main_net fee cs w)
  unfolding post_ledger
  post_ledger-Run w keyed range nonneg =
      Post-bind (Found w.store _) _ (ledger_of_account payer) _ w
        (ledger_of_account-Found w keyed payer)
        (λ l w1 found.
          Run-then id w.store (insert_entry internal id l debit gross) _ w1
            (leg_at id w.store payer l debit gross w1 found)
            (λ w2 p.
              Post-bind (Found w2.store _) _ (ledger_of_account main) _ w2
                (ledger_of_account-Found w2 (kept id p keyed) main)
                (λ m w3 found_main.
                  Run-then id w2.store (post_main id m main_net) _ w3
                    (post_main-Run id w2.store main m main_net w3 found_main range)
                    (λ w4 q.
                      Run-then id w4.store (post_commissions id cs) (post_fee id fee) w4
                        (post_commissions-Run id cs w4 (kept id q (kept id p keyed)))
                        (λ w5 r.
                          post_fee-Run id fee w5 (kept id r (kept id q (kept id p keyed)))
                            nonneg)))))

-- What is credited is what is debited, if the net amount is what the gross amount leaves.
pub charge_net-zero :
    (gross main_net fee : ℤ) (cs : List ResolvedCommission)
    → main_net ≡ gross -ℤ commission_sum cs -ℤ fee
    → charge_net gross main_net fee cs ≡ pos 0
charge_net-zero gross main_net fee cs h = rw h (cancel gross (commission_sum cs) fee)
  where
    cancel : (g c f : ℤ) → (pos 0 -ℤ g) +ℤ ((g -ℤ c -ℤ f) +ℤ (c +ℤ f)) ≡ pos 0
    cancel g c f = omega int_laws
