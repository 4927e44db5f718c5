-- ===== src/Gizpay/Charge/Result.antt =====
-- createCharge as a whole (internal/gizpay/handler.go): what a charge that goes through leaves in
-- the books, and what a reply leaves in the store.
use Prim.Native.String.{String}
use gizway.Prelude.{not, some, List, ◌++◌, ◌≡◌, refl, sym, ◌∙◌, arith}
use gizway.Int.{ℤ, pos, negsuc, ◌-ℤ◌, ◌≤ℤ◌, int_laws}
use gizway.Int64.{IsInt64, sub64}
use gizway.Int64.Laws.{sub64-eq--ℤ}
use gizway.Text.{str_eq}
use gizway.Gizpay.Store.{Store, LedgerEntry}
use gizway.Gizpay.Request.{
  World, reply_if, error_json, internal, row, transaction, exec, query, charge,
}
use gizway.Gizpay.Triple.{Post, Post-bind, Post-done, Post-weaken}
use gizway.Gizpay.Fee.{platform_fee, platform_fee-eq-fee_of}
use gizway.Gizpay.Charge.{ResolvedCommission, find_payer, resolve_commissions}
use gizway.Gizpay.Charge.Validation.{
  Config, ChargeRequest, pass, check_request, check_commissions, of_check,
}
use gizway.Gizpay.Charge.Validation.Laws.{amount_sum, check_commissions_iff, amount_sum_nonneg}
use gizway.Gizpay.Charge.Handler.{is_duplicate, charge_transaction, create_charge}
use gizway.Gizpay.Charge.Posting.{legs_net}
use gizway.Gizpay.Charge.Legs.{commission_sum}
use gizway.Gizpay.Charge.Balanced.{charge_share, charge_net, charge_net-zero}
use gizway.Gizpay.Charge.Books.{IsConsistent}
use gizway.Gizpay.Charge.Consistency.{Settles}
use gizway.Gizpay.Charge.Writing.{write_charge-Settles}
use gizway.Gizpay.Charge.Reading.{
  query-same, reply_if-same, of_check-same, resolve_commissions-sum, Reads-Post, reply_if-Reads,
  of_check-Reads, is_duplicate-Reads, IsAtomic, IsAtomic-bind, IsAtomic-bind_Post, IsAtomic-map,
  transaction-IsAtomic, Post-transaction,
}

-- From s to t the books stay consistent, and entries with equal debits and credits are appended.
pub record KeepsBooks (s : Store) (t : Store) : Type 0 where
  pub consistent : IsConsistent t
  pub entries : List LedgerEntry
  pub appended : t.ledger_entries ≡ entries ++ s.ledger_entries
  pub balanced : legs_net entries ≡ pos 0

-- The configured rate of the platform fee.
abbrev pub IsRate : ℤ → Type 0
IsRate bps = (pos 0 ≤ℤ bps) × (bps ≤ℤ pos 10000)

fee_range :
    (gross bps : ℤ)
    → IsInt64 gross
    → pos 0 ≤ℤ gross
    → IsRate bps
    → (pos 0 ≤ℤ platform_fee gross bps) × (platform_fee gross bps ≤ℤ gross)
fee_range (pos g) (pos b) range nonneg rate =
    let (e, bound) = platform_fee-eq-fee_of g b (omega arith) (omega arith) in
    rw e (omega arith, omega arith)
fee_range (negsuc g) bps range nonneg rate = absurd (ground arith)
fee_range (pos g) (negsuc b) range nonneg rate = absurd (ground arith)

-- The net amount of the main Merchant does not overflow.
main_net-exact :
    (gross sum fee : ℤ)
    → IsInt64 gross
    → pos 0 ≤ℤ gross
    → pos 0 ≤ℤ sum
    → sum ≤ℤ gross
    → pos 0 ≤ℤ fee
    → fee ≤ℤ gross
    → (sub64 (sub64 gross sum) fee ≡ gross -ℤ sum -ℤ fee)
      × IsInt64 (pos 0 -ℤ sub64 (sub64 gross sum) fee)
main_net-exact gross sum fee range a b c d e =
    let first : sub64 gross sum ≡ gross -ℤ sum =
      sub64-eq--ℤ gross sum (omega int_laws, omega int_laws) in
    let second : sub64 (gross -ℤ sum) fee ≡ gross -ℤ sum -ℤ fee =
      sub64-eq--ℤ (gross -ℤ sum) fee (omega int_laws, omega int_laws) in
    rw (first, second) (refl, (omega int_laws, omega int_laws))

module _ (config : Config) (principal_id failpoint : String) (body : ChargeRequest)
    (rate : IsRate config.platform_fee_bps) (range : IsInt64 body.gross)
    (nonneg : pos 0 ≤ℤ body.gross) where
  settled_books :
      (s t : Store) (payer main : String) (sum fee net : ℤ) (cs : List ResolvedCommission)
      → commission_sum cs ≡ sum
      → net ≡ body.gross -ℤ sum -ℤ fee
      → Settles s t (charge_share payer main body.gross net cs) (charge_net body.gross net fee cs)
      → KeepsBooks s t
  settled_books s t payer main sum fee net cs same exact h = record {
    consistent = h.consistent;
    entries = h.entries;
    appended = h.appended;
    balanced = h.net_of ∙ charge_net-zero body.gross net fee cs (rw same exact);
  }

  charge_transaction-KeepsBooks :
      (sum : ℤ) (w : World)
      → pos 0 ≤ℤ sum
      → sum ≤ℤ body.gross
      → sum ≡ amount_sum body.commissions
      → IsConsistent w.store
      → Post
          (λ _ t. KeepsBooks w.store t)
          (charge_transaction config principal_id failpoint body sum w)
  unfolding charge_transaction
  charge_transaction-KeepsBooks sum w low high exact c =
      let fee = platform_fee body.gross config.platform_fee_bps in
      let net = sub64 (sub64 body.gross sum) fee in
      let (fee_low, fee_high) = fee_range body.gross config.platform_fee_bps range nonneg rate in
      let (net_exact, net_range) =
        main_net-exact body.gross sum fee range nonneg low high fee_low fee_high in
      Post-bind _ _
        (exec (error_json 404 "subscription_key_not_found")
          (query (find_payer body.subscription_key_hmac body.started)))
        _ w (query-same _ _ w)
        (λ payer w1 e1.
          Post-bind _ _
            (reply_if (not (str_eq payer.main_merchant_status "active"))
              (error_json 400 "main_merchant_inactive"))
            _ w1 (reply_if-same _ _ w1)
            (λ _ w2 e2.
              Post-bind _ _ (exec internal (query (λ s. row tt))) _ w2 (query-same _ _ w2)
                (λ _ w3 e3.
                  Post-bind _ _ (resolve_commissions body.commissions) _ w3
                    (resolve_commissions-sum body.commissions w3)
                    (λ cs w4 found.
                      let start : w4.store ≡ w.store = found.0 ∙ e3 ∙ e2.0 ∙ e1 in
                      Post-weaken _ _ _
                        (write_charge-Settles principal_id failpoint body payer fee net cs w4
                          (rw start c) net_range fee_low)
                        (λ _ t h.
                          settled_books w.store t payer.payer_account_id payer.main_account_id sum
                            fee net cs (found.1 ∙ sym exact) net_exact (rw (← start) h))))))

gross_nonneg :
    (config : Config) (body : ChargeRequest)
    → check_request config body ≡ pass tt
    → pos 0 ≤ℤ body.gross
unfolding check_request
gross_nonneg config body h = ground arith

-- A charge that goes through, for a configured rate of at most 10000 basis points and an int64
-- gross amount, is answered with 201; it leaves consistent books, and the entries that it appends
-- to the ledger have equal debits and credits.
pub create_charge-KeepsBooks :
    (config : Config) (principal_id failpoint : String) (body : ChargeRequest) (w : World)
    → IsRate config.platform_fee_bps
    → IsInt64 body.gross
    → IsConsistent w.store
    → Post
        (λ r t. (r.status ≡ 201) × KeepsBooks w.store t)
        (create_charge config principal_id failpoint (some body) w)
unfolding create_charge
create_charge-KeepsBooks config principal_id failpoint body w rate range c =
    Post-bind _ _ (of_check (check_request config body)) _ w (of_check-same _ w) (λ _ w1 e1.
      Post-bind _ _ (of_check (check_commissions body.gross body.commissions)) _ w1
        (of_check-same _ w1)
        (λ sum w2 e2.
          let nonneg : pos 0 ≤ℤ body.gross = gross_nonneg config body e1.1 in
          let (stated, distinct, bound, exact) =
            (check_commissions_iff body.gross sum body.commissions range nonneg).0 e2.1 in
          Post-bind _ _ (is_duplicate body.external_order_id) _ w2
            (Reads-Post w2.store _ (is_duplicate-Reads body.external_order_id w2))
            (λ duplicate w3 e3.
              Post-bind _ _ (reply_if duplicate (error_json 409 "duplicate_external_order_id")) _ w3
                (reply_if-same _ _ w3)
                (λ _ w4 e4.
                  let start : w4.store ≡ w.store = e4.0 ∙ e3 ∙ e2.0 ∙ e1.0 in
                  Post-bind _ _
                    (transaction (charge_transaction config principal_id failpoint body sum)) _ w4
                    (Post-transaction (λ _ t. KeepsBooks w.store t) _ w4
                      (λ w5 same. rw (← same ∙ start) (
                        charge_transaction-KeepsBooks config principal_id failpoint body rate range
                          nonneg sum w5 (rw exact (amount_sum_nonneg body.commissions stated))
                          (rw exact bound) exact (rw (same ∙ start) c))))
                    (λ result w6 h.
                      Post-done _ (record { status = 201; body = charge result }) w6 (refl, h))))))

module _ (config : Config) (principal_id failpoint : String) (body : ChargeRequest)
    (w : World) where
  -- A reply leaves the database as it was, or, where the answer of the commit is lost, as a charge that
  -- goes through leaves it.
  pub create_charge-Undone :
      (L : Store → Type 0)
      → ((sum : ℤ) (v : World)
          → v.store ≡ w.store
          → check_request config body ≡ pass tt
          → check_commissions body.gross body.commissions ≡ pass sum
          → Post (λ _ t. L t) (charge_transaction config principal_id failpoint body sum v))
      → IsAtomic L w.store (create_charge config principal_id failpoint (some body) w)
  unfolding create_charge
  create_charge-Undone L h =
      IsAtomic-bind_Post L _ (of_check (check_request config body)) _ w w.store (of_check-Reads _ w)
        (of_check-same _ w)
        (λ _ w1 e1 p1.
          IsAtomic-bind_Post L _ (of_check (check_commissions body.gross body.commissions)) _ w1
            w.store (rw (← e1) (of_check-Reads _ w1)) (of_check-same _ w1)
            (λ sum w2 e2 p2.
              IsAtomic-bind L (is_duplicate body.external_order_id) _ w2 w.store
                (rw (← e2) (is_duplicate-Reads body.external_order_id w2))
                (λ duplicate w3 e3.
                  IsAtomic-bind L
                    (reply_if duplicate (error_json 409 "duplicate_external_order_id")) _ w3 w.store
                    (rw (← e3) (reply_if-Reads _ _ w3))
                    (λ _ w4 e4.
                      IsAtomic-map L
                        (transaction (charge_transaction config principal_id failpoint body sum))
                        (λ result. record { status = 201; body = charge result }) w4 w.store
                        (rw (← e4) (
                          transaction-IsAtomic L
                            (charge_transaction config principal_id failpoint body sum) w4
                            (λ v same. h sum v (same ∙ e4) p1.1 p2.1)))))))

-- For a configured rate of at most 10000 basis points, an int64 gross amount and consistent books: a
-- reply of createCharge other than its success leaves the database as it was, whichever statements
-- fail; but where the answer of the commit is lost, the reply is 500 and the charge may stay, with
-- consistent books and balanced entries.
pub create_charge-IsAtomic :
    (config : Config) (principal_id failpoint : String) (body : ChargeRequest) (w : World)
    → IsRate config.platform_fee_bps
    → IsInt64 body.gross
    → IsConsistent w.store
    → IsAtomic
        (λ t. KeepsBooks w.store t)
        w.store
        (create_charge config principal_id failpoint (some body) w)
create_charge-IsAtomic config principal_id failpoint body w rate range c =
    create_charge-Undone config principal_id failpoint body w (λ t. KeepsBooks w.store t)
      (λ sum v same checked summed.
        let nonneg : pos 0 ≤ℤ body.gross = gross_nonneg config body checked in
        let (stated, distinct, bound, exact) =
          (check_commissions_iff body.gross sum body.commissions range nonneg).0 summed in
        rw (← same) (
          charge_transaction-KeepsBooks config principal_id failpoint body rate range nonneg sum v
            (rw exact (amount_sum_nonneg body.commissions stated)) (rw exact bound) exact
            (rw same c)))
