-- ===== src/Gizpay/Charge/Legs.antt =====
-- The legs of one charge in the ledger (postLedger, internal/gizpay/handler.go), step by step.
use Prim.Native.String.{String}
use mathlib.Core.Path.{subst}
use gizway.Prelude.{false, none, some, List, [], ◌∷◌, ◌≡◌, refl, sym, ap, arith}
use gizway.Int.{ℤ, pos, ◌+ℤ◌, ◌-ℤ◌, ◌≤ℤ◌, ltb_ℤ, int_laws}
use gizway.Int64.{neg64, IsInt64}
use gizway.Int64.Laws.{neg64-eq--ℤ}
use gizway.Text.{str_eq}
use gizway.Gizpay.Store.{Store, Direction, debit, credit, signed_amount, holder}
use gizway.Gizpay.Request.{M, World, internal, ◌>>◌}
use gizway.Gizpay.Triple.{Post, Post-bind, Post-branch, Post-done, Post-weaken}
use gizway.Gizpay.Charge.{
  ResolvedCommission, insert_entry, ledger_of_account, ledger_of_asset, post_commissions, post_main,
  post_fee,
}
use gizway.Gizpay.Charge.Posting.{
  delta, if_same, Appends, Appends-none, Appends-then, entry_effect, insert_entry-Appends,
}
use gizway.Gizpay.Charge.Postings.{
  IsKeyed, Run, same_shares, Found, ledger_of_account-Found, ledger_of_fee-Found,
}

-- The commissions' share of an account, and their sum.
abbrev pub commission_share : List ResolvedCommission → String → ℤ
commission_share [] a = pos 0
commission_share (c ∷ cs) a = delta c.settlement c.amount a +ℤ commission_share cs a

abbrev pub commission_sum : List ResolvedCommission → ℤ
commission_sum [] = pos 0
commission_sum (c ∷ cs) = c.amount +ℤ commission_sum cs

effect_at :
    (s : Store) (l who : String) (direction : Direction) (x : ℤ)
    → holder s.ledger_accounts l ≡ some who
    → (a : String) → entry_effect s l direction x a ≡ delta who (signed_amount direction x) a
effect_at s l who direction x h a = rw h

effect_nowhere :
    (s : Store) (l : String) (direction : Direction) (x : ℤ)
    → holder s.ledger_accounts l ≡ none
    → (a : String) → entry_effect s l direction x a ≡ pos 0
effect_nowhere s l direction x h a = rw h

negated : (net : ℤ) → IsInt64 (pos 0 -ℤ net) → pos 0 -ℤ neg64 net ≡ net
negated net range = rw (neg64-eq--ℤ net range) (omega int_laws)

zero_of : (net : ℤ) → ltb_ℤ (pos 0) net ≡ false → ltb_ℤ net (pos 0) ≡ false → net ≡ pos 0
zero_of net up down = ground arith

zero_fee : (fee : ℤ) → pos 0 ≤ℤ fee → ltb_ℤ (pos 0) fee ≡ false → pos 0 ≡ fee
zero_fee fee h e = ground arith

module _ (id : String) where
  nothing :
      (s : Store) (who l : String) (net : ℤ) (w : World)
      → Found s (some who) l w.store
      → net ≡ pos 0
      → Appends id s w.store (delta who net) net
  unfolding Found
  nothing s who l net w (same, held) e =
      subst (λ r. Appends id r w.store (delta who net) net) same
        (same_shares (Appends-none id w.store) (λ a. if_same (str_eq a who) net (pos 0) e) (sym e))

  -- A leg on a ledger account that is found.
  pub leg_at :
      (s : Store) (who l : String) (direction : Direction) (x : ℤ) (w : World)
      → Found s (some who) l w.store
      → Post
          (Run id s (delta who (signed_amount direction x)) (signed_amount direction x))
          (insert_entry internal id l direction x w)
  unfolding Found
  leg_at s who l direction x w (same, held) =
      Post-weaken _
        (Run id w.store (entry_effect w.store l direction x) (signed_amount direction x))
        (insert_entry internal id l direction x w)
        (insert_entry-Appends internal id l direction x w)
        (λ _ t p.
          subst
            (λ r.
              Appends id r t (delta who (signed_amount direction x)) (signed_amount direction x))
            same (same_shares p (effect_at w.store l who direction x (rw same held)) refl))

  -- A run followed by another.
  pub Run-then :
      (s : Store) (m k : M (Unit {0})) (w : World) {f g : String → ℤ} {n n' : ℤ}
      → Post (Run id s f n) (m w)
      → ((w' : World) → Appends id s w'.store f n → Post (Run id w'.store g n') (k w'))
      → Post (Run id s (λ a. f a +ℤ g a) (n +ℤ n')) ((m >> k) w)
  Run-then s m k w {f} {g} {n} {n'} h j =
      Post-bind (Run id s f n) _ m (λ _. k) w h
        (λ _ w' p.
          Post-weaken _ (Run id w'.store g n') (k w') (j w' p) (λ _ t q. Appends-then id p q))

  pub kept :
      {s t : Store} {f : String → ℤ} {n : ℤ}
      → Appends id s t f n
      → IsKeyed s.ledger_accounts s.ledger_accounts
      → IsKeyed t.ledger_accounts t.ledger_accounts
  kept p keyed = rw p.same keyed

  -- A leg on a ledger account that is nobody's.
  pub leg_of_nobody :
      (s : Store) (l : String) (direction : Direction) (x : ℤ) (w : World)
      → Found s none l w.store
      → Post
          (Run id s (λ a. pos 0) (signed_amount direction x))
          (insert_entry internal id l direction x w)
  unfolding Found
  leg_of_nobody s l direction x w (same, held) =
      Post-weaken _
        (Run id w.store (entry_effect w.store l direction x) (signed_amount direction x))
        (insert_entry internal id l direction x w)
        (insert_entry-Appends internal id l direction x w)
        (λ _ t p.
          subst (λ r. Appends id r t (λ a. pos 0) (signed_amount direction x)) same
            (same_shares p (effect_nowhere w.store l direction x (rw same held)) refl))

  -- The ledger account of a commission is found, and its leg appended.
  pub post_commissions-Run :
      (cs : List ResolvedCommission) (w : World)
      → IsKeyed w.store.ledger_accounts w.store.ledger_accounts
      → Post (Run id w.store (commission_share cs) (commission_sum cs)) (post_commissions id cs w)
  unfolding post_commissions
  post_commissions-Run [] w keyed = Post-done _ tt w (Appends-none id w.store)
  post_commissions-Run (c ∷ cs) w keyed =
      Post-bind (Found w.store (some c.settlement)) _ (ledger_of_account c.settlement) _ w
        (ledger_of_account-Found w keyed c.settlement)
        (λ l w1 found.
          Run-then w.store (insert_entry internal id l credit c.amount) (post_commissions id cs) w1
            (leg_at w.store c.settlement l credit c.amount w1 found)
            (λ w2 p. post_commissions-Run cs w2 (kept p keyed)))

  pub post_main-Run :
      (s : Store) (who l : String) (net : ℤ) (w : World)
      → Found s (some who) l w.store
      → IsInt64 (pos 0 -ℤ net)
      → Post (Run id s (delta who net) net) (post_main id l net w)
  unfolding post_main
  post_main-Run s who l net w found range =
      Post-branch _ (ltb_ℤ (pos 0) net) _ _ w (λ _. leg_at s who l credit net w found)
        (λ up.
          Post-branch _ (ltb_ℤ net (pos 0)) _ _ w
            (λ _.
              Post-weaken _ (Run id s (delta who (pos 0 -ℤ neg64 net)) (pos 0 -ℤ neg64 net))
                (insert_entry internal id l debit (neg64 net) w)
                (leg_at s who l debit (neg64 net) w found)
                (λ _ t p.
                  same_shares p (λ a. ap (λ x. delta who x a) (negated net range))
                    (negated net range)))
            (λ down. Post-done _ tt w (nothing s who l net w found (zero_of net up down))))

  pub post_fee-Run :
      (fee : ℤ) (w : World)
      → IsKeyed w.store.ledger_accounts w.store.ledger_accounts
      → pos 0 ≤ℤ fee
      → Post (Run id w.store (λ a. pos 0) fee) (post_fee id fee w)
  unfolding post_fee
  post_fee-Run fee w keyed h =
      Post-branch _ (ltb_ℤ (pos 0) fee) _ _ w
        (λ _.
          Post-bind (Found w.store none) _ (ledger_of_asset "platform_fee") _ w
            (ledger_of_fee-Found w keyed)
            (λ l w1 found. leg_of_nobody w.store l credit fee w1 found))
        (λ e.
          Post-done _ tt w (same_shares (Appends-none id w.store) (λ a. refl) (zero_fee fee h e)))
