-- ===== src/Gizpay/Merchants/Defaults.antt =====
-- The default Merchants stay active (merchants and merchantResource, internal/gizpay/handler.go).
use Prim.Native.String.{String}
use gizway.Prelude.{
  All, Bool, true, false, not, ◌||◌, Option, none, some, List, [], ◌∷◌, any, ◌≡◌, refl, sym, ap,
  ◌∙◌, arith, Bool-cases, inl, inr,
}
use gizway.Text.{str_eq, str_eq_iff, is_blank}
use gizway.Gizpay.Store.{Store, Merchant}
use gizway.Gizpay.Request.{
  World, ◌>>=◌, pure, reply_if, Sql, row, no_rows, violates, failed, statement, exec, query, new_id,
  now_utc, internal, invalid, not_found, merchant,
}
use gizway.Gizpay.Keeps.{
  Keeps, Keeps-done, Keeps-reply, Keeps-bind, Keeps-reply_if, Keeps-query, Keeps-exec, Keeps-new_id,
  Keeps-now_utc,
}
use gizway.Gizpay.Charge.{select}
use gizway.Gizpay.Charge.Handler.{or_false}
use gizway.Gizpay.Merchants.{
  MerchantRequest, decoded, owns_account, merchant_clashes, insert_merchant, new_merchant,
  create_merchant, rename_merchant, rename_merchants, update_merchant,
}

-- A default Merchant is active.
abbrev pub IsLive : Merchant → Type 0
IsLive m = m.is_default ≡ true → str_eq m.status "active" ≡ true

-- The row with the ID of a Merchant is the Merchant.
abbrev pub Owns : Merchant → Merchant → Type 0
Owns m q = q.id ≡ m.id → q ≡ m

-- Every default Merchant is active, and the IDs are a key.
pub record HasDefaults (s : Store) : Type 0 where
  pub live : All IsLive s.merchants
  pub keyed : All (λ m. All (Owns m) s.merchants) s.merchants

module _ (P Q : Merchant → Type 0) where
  All-map : (ms : List Merchant) → ((m : Merchant) → P m → Q m) → All P ms → All Q ms
  All-map [] f h = tt
  All-map (m ∷ ms) f (h, hs) = (f m h, All-map ms f hs)

  All-rename :
      (id name status : String) (ms : List Merchant)
      → ((m : Merchant) → P m → Q (rename_merchant id name status m))
      → All P ms
      → All Q (rename_merchants id name status ms)
  unfolding rename_merchants
  All-rename id name status [] f h = tt
  All-rename id name status (m ∷ ms) f (h, hs) = (f m h, All-rename id name status ms f hs)

pub All-both :
    (P Q : Merchant → Type 0) (ms : List Merchant) → All P ms → All Q ms → All (λ m. P m × Q m) ms
All-both P Q [] h k = tt
All-both P Q (m ∷ ms) (h, hs) (k, ks) = ((h, k), All-both P Q ms hs ks)

pub All-select :
    (P : Merchant → Type 0) (p : Merchant → Bool) (ms : List Merchant) (r : Merchant)
    → All P ms
    → select p (λ m. m) ms ≡ row r
    → P r × (p r ≡ true)
All-select P p [] r h e = absurd (cc)
All-select P p (q ∷ ms) r (h, hs) e = elim (Bool-cases (p q)) [
  | inl holds ↦
      let first : row q ≡ row r = rw holds at e in
      let same : q ≡ r =
        ap (λ o. elim o [ row y ↦ y | no_rows ↦ q | violates c ↦ q | failed ↦ q ]) first in
      rw (← same) (h, holds)
  | inr fails ↦ All-select P p ms r hs (rw fails at e)
]

-- A renaming keeps the keys.
rename-Owns :
    (id name status : String) (m q : Merchant)
    → Owns m q
    → Owns (rename_merchant id name status m) (rename_merchant id name status q)
rename-Owns id name status m q h same =
    ap (rename_merchant id name status) (h (sym (rename_id q) ∙ same ∙ rename_id m))
  where
    rename_id : (m : Merchant) → (rename_merchant id name status m).id ≡ m.id
    rename_id m = elim (Bool-cases (str_eq m.id id)) [ inl e ↦ rw e refl | inr e ↦ rw e refl ]

pub update_merchant-HasDefaults :
    (id name status : String) (r : Merchant) (s : Store)
    → r.id ≡ id
    → All (Owns r) s.merchants
    → (r.is_default ≡ true → str_eq status "active" ≡ true)
    → HasDefaults s
    → HasDefaults (update_merchant id name status s).1
unfolding update_merchant
update_merchant-HasDefaults id name status r s own owns fine h = record {
  live =
      All-rename (λ m. IsLive m × Owns r m) IsLive id name status s.merchants
        (λ m (live, mine). renamed m live mine) (All-both IsLive (Owns r) s.merchants h.live owns);
  keyed =
      All-rename (λ m. All (Owns m) s.merchants)
        (λ m. All (Owns m) (rename_merchants id name status s.merchants)) id name status s.merchants
        (λ m ms.
          All-rename (Owns m) (Owns (rename_merchant id name status m)) id name status s.merchants
            (λ q o. rename-Owns id name status m q o) ms)
        h.keyed;
}
  where
    renamed : (m : Merchant) → IsLive m → Owns r m → IsLive (rename_merchant id name status m)
    renamed m live mine = elim (Bool-cases (str_eq m.id id)) [
      | inl e ↦
          let same : m ≡ r = mine ((str_eq_iff m.id id).0 e ∙ sym own) in
          rw e (λ default. fine (ap (λ x. x.is_default) (sym same) ∙ default))
      | inr e ↦ rw e live
    ]

-- A Merchant with a new ID among the keys.
clash_free :
    (new : Merchant) (ms : List Merchant)
    → any (merchant_clashes new) ms ≡ false
    → All (λ q. Owns new q × Owns q new) ms
unfolding merchant_clashes
clash_free new [] h = tt
clash_free new (q ∷ ms) h = (
  (
    λ e. let yes = (str_eq_iff q.id new.id).1 e in absurd (ground arith),
    λ e. let yes = (str_eq_iff q.id new.id).1 (sym e) in absurd (ground arith),
  ),
  clash_free new ms (ground arith),
)

cons-Owns :
    (new : Merchant) (ms : List Merchant)
    → any (merchant_clashes new) ms ≡ false
    → All (λ m. All (Owns m) ms) ms
    → All (λ m. All (Owns m) (new ∷ ms)) (new ∷ ms)
cons-Owns new ms h keyed =
    let there = clash_free new ms h in
    (
      (λ e. refl, All-map (λ q. Owns new q × Owns q new) (Owns new) ms (λ q (k, _). k) there),
      All-map (λ q. (Owns new q × Owns q new) × All (Owns q) ms) (λ q. All (Owns q) (new ∷ ms)) ms
          (λ q ((_, k), ks). (k, ks))
          (All-both (λ q. Owns new q × Owns q new) (λ q. All (Owns q) ms) ms there keyed),
    )

insert_merchant-HasDefaults :
    (new : Merchant) (s : Store)
    → str_eq new.status "active" ≡ true
    → HasDefaults s
    → HasDefaults (insert_merchant new s).1
unfolding insert_merchant
insert_merchant-HasDefaults new s active h =
    elim (Bool-cases (
      any (merchant_clashes new) s.merchants
      || not (any (λ a. str_eq a.id new.settlement_account_id) s.accounts))) [
        | inl refused ↦ rw refused h
        | inr fresh ↦ rw fresh (record {
          live = ((λ d. active), h.live);
          keyed = cons-Owns new s.merchants (left _ _ fresh) h.keyed;
        })
      ]
  where
    left : (a b : Bool) → a || b ≡ false → a ≡ false
    left a b e = ground arith

pub Keeps-decoded :
    {A : Type 0} (I : Store → Type 0) (request : Option A) (w : World)
    → I w.store
    → Keeps I (decoded request w)
Keeps-decoded I none w i = Keeps-reply I invalid w i
Keeps-decoded I (some body) w i = Keeps-done I body w i

Keeps-or_false :
    (I : Store → Type 0) (r : Sql Bool) (w : World) → I w.store → Keeps I (or_false r w)
Keeps-or_false I (row b) w i = Keeps-done I b w i
Keeps-or_false I no_rows w i = Keeps-done I false w i
Keeps-or_false I (violates c) w i = Keeps-done I false w i
Keeps-or_false I failed w i = Keeps-done I false w i

-- Whatever the outcome of the POST of a Merchant, and whichever statements fail, every default
-- Merchant is active and the Merchants keep their key.
pub create_merchant-HasDefaults :
    (user : String) (request : Option MerchantRequest) (w : World)
    → HasDefaults w.store
    → HasDefaults (create_merchant user request w).1.store
unfolding create_merchant
create_merchant-HasDefaults user request w h =
    let I = HasDefaults in
    (Keeps-bind I (decoded request) _ w (Keeps-decoded I request w h) (λ body w1 h1.
      Keeps-bind I
        (reply_if
          (is_blank body.settlement_account_id
            || is_blank body.legal_name
            || is_blank body.public_name)
          invalid)
        _ w1 (Keeps-reply_if I _ _ w1 h1)
        (λ _ w2 h2.
          Keeps-bind I
            (statement (query (λ s. row (owns_account user body.settlement_account_id s)))
              >>= or_false)
            _ w2
            (Keeps-bind I
              (statement (query (λ s. row (owns_account user body.settlement_account_id s))))
              or_false w2 (Keeps-query I _ w2 h2) (λ r w' h'. Keeps-or_false I r w' h'))
            (λ owned w3 h3.
              Keeps-bind I (reply_if (not owned) not_found) _ w3
                (Keeps-reply_if I (not owned) not_found w3 h3)
                (λ _ w4 h4.
                  Keeps-bind I (new_id "mrc_") _ w4 (Keeps-new_id I "mrc_" w4 h4) (λ id w5 h5.
                    Keeps-bind I now_utc _ w5 (Keeps-now_utc I w5 h5) (λ now w6 h6.
                      Keeps-bind I (exec internal (insert_merchant (new_merchant id body)))
                        (λ _.
                          pure (record { status = 201; body = merchant (new_merchant id body) }))
                        w6
                        (Keeps-exec I internal (insert_merchant (new_merchant id body)) w6 h6
                          (insert_merchant-HasDefaults (new_merchant id body) w6.store refl h6))
                        (λ _ w7 h7. Keeps-done I _ w7 h7)))))))).holds
