-- ===== src/Gizpay/CreditCheck/Revocation.antt =====
-- A revocation and the credit check after it (subscriptionKeys and creditCheck,
-- internal/gizpay/handler.go).
use Prim.Native.String.{String}
use gizway.Prelude.{
  Bool, true, false, not, none, some, List, [], ◌∷◌, find, ◌≡◌, refl, sym, ap, ◌∙◌, Bool-cases, inl,
  inr,
}
use gizway.Int.{ℤ}
use gizway.Text.{str_eq, is_blank}
use gizway.Gizpay.Store.{Store, SubscriptionKey, Instant}
use gizway.Gizpay.Request.{
  World, Outcome, done, reply, pure, reply_if, Response, row, exec, query, now_utc, internal,
  invalid, not_found, subscription_key, credit,
}
use gizway.Gizpay.Triple.{Post, Post-bind, Post-done, Post-exec, Post-weaken, Post-of_done}
use gizway.Gizpay.Keeps.{
  Keeps, Keeps-done, Keeps-bind, Keeps-reply_if, Keeps-exec_query, Keeps-now_utc,
}
use gizway.Gizpay.Charge.Reading.{query-same, reply_if-same, IsAtomic}
use gizway.Gizpay.Charge.Writing.{now_utc-same}
use gizway.Gizpay.Charge.Once.{Never, refusal}
use gizway.Gizpay.CreditCheck.Decision.{IsLive, credit_check-Decides}
use gizway.Gizpay.Keys.{
  is_key, find_key, write_key, is_revocable, revoke_row, revoke_rows, update_revoked, is_revoked,
  check_revoked, revoke_key,
}
use gizway.Gizpay.CreditCheck.{find_credit, credit_body, unknown_key, credit_check}

revoke_row-hmac :
    (at : Instant) (id subscription : String) (k : SubscriptionKey)
    → (revoke_row at id subscription k).hmac ≡ k.hmac
revoke_row-hmac at id subscription k = elim (Bool-cases (is_revocable id subscription k)) [
  | inl revocable ↦ rw revocable refl
  | inr other ↦ rw other refl
]

revoke_row-inactive :
    (at : Instant) (id subscription : String) (k : SubscriptionKey)
    → is_key id subscription k ≡ true
    → str_eq (revoke_row at id subscription k).status "active" ≡ false
revoke_row-inactive at id subscription k own = elim (Bool-cases (str_eq k.status "active")) [
  | inl active ↦ rw (own, active) refl
  | inr inactive ↦ rw (own, inactive) inactive
]

-- The row that the HMAC finds after a revocation.
find-revoke_rows :
    (at : Instant) (id subscription hmac : String) (ks : List SubscriptionKey) (k : SubscriptionKey)
    → find (λ k. str_eq k.hmac hmac) ks ≡ some k
    → find (λ k. str_eq k.hmac hmac) (revoke_rows at id subscription ks)
      ≡ some (revoke_row at id subscription k)
unfolding revoke_rows
find-revoke_rows at id subscription hmac [] k h = absurd (cc)
find-revoke_rows at id subscription hmac (r ∷ ks) k h = elim (Bool-cases (str_eq r.hmac hmac)) [
  | inl same ↦
      let first : some r ≡ some k = rw (same, find) at h in
      let kept : str_eq (revoke_row at id subscription r).hmac hmac ≡ true =
        ap (λ x. str_eq x hmac) (revoke_row-hmac at id subscription r) ∙ same in
      rw (kept, find)
        (ap (λ x. elim x [ some y ↦ some (revoke_row at id subscription y) | none ↦ none ]) first)
  | inr other ↦
      let later : find (λ k. str_eq k.hmac hmac) ks ≡ some k = rw (other, find) at h in
      let kept : str_eq (revoke_row at id subscription r).hmac hmac ≡ false =
        ap (λ x. str_eq x hmac) (revoke_row-hmac at id subscription r) ∙ other in
      rw (kept, find) (find-revoke_rows at id subscription hmac ks k later)
]

check_revoked-same :
    (id subscription : String) (updated : Bool) (w : World)
    → Post (λ _ t. t ≡ w.store) (check_revoked id subscription updated w)
check_revoked-same id subscription true w = Post-done _ tt w refl
check_revoked-same id subscription false w =
    Post-bind _ _ (exec internal (query (λ s. row (is_revoked id subscription s)))) _ w
      (query-same internal _ w)
      (λ exists w1 s1.
        Post-weaken _ _ _ (reply_if-same (not exists) not_found w1) (λ _ t (s2, _). s2 ∙ s1))

write_key-same :
    (id subscription : String) (w : World) → Post (λ _ t. t ≡ w.store) (write_key id subscription w)
unfolding write_key
write_key-same id subscription w =
    Post-bind _ _ (exec not_found (query (find_key id subscription)))
      (λ k. pure (record { status = 200; body = subscription_key k })) w
      (query-same not_found (find_key id subscription) w)
      (λ k w1 s1. Post-done _ (record { status = 200; body = subscription_key k }) w1 s1)

updated_rows :
    (now : Instant) (id subscription : String) (w w1 : World) (t : Store) (updated : Bool)
    → w1.store ≡ w.store
    → update_revoked now id subscription w1.store ≡ (row updated, t)
    → t.subscription_keys ≡ revoke_rows now id subscription w.store.subscription_keys
unfolding update_revoked
updated_rows now id subscription w w1 t updated s1 h =
    rw (← s1) (sym (ap (λ x. x.1.subscription_keys) h))

-- What a revocation that has gone through did to the table.
revoke_key-rows :
    (id subscription : String) (w : World)
    → Post
        (λ _ t.
          (at : Instant) × (t.subscription_keys
            ≡ revoke_rows at id subscription w.store.subscription_keys))
        (revoke_key id subscription w)
unfolding revoke_key
revoke_key-rows id subscription w = Post-bind _ _ now_utc _ w (now_utc-same w) (λ now w1 s1.
    Post-bind
      (λ _ t. t.subscription_keys ≡ revoke_rows now id subscription w.store.subscription_keys) _
      (exec internal (update_revoked now id subscription)) _ w1
      (Post-exec _ internal (update_revoked now id subscription) w1
        (λ updated t h. updated_rows now id subscription w w1 t updated s1 h))
      (λ updated w2 e2.
        Post-bind (λ _ t. t ≡ w2.store) _ (check_revoked id subscription updated)
          (λ _. write_key id subscription) w2 (check_revoked-same id subscription updated w2)
          (λ _ w3 s3.
            Post-weaken _ (λ _ t. t ≡ w3.store) _ (write_key-same id subscription w3)
              (λ r t s4. (now, ap (λ x. x.subscription_keys) (s4 ∙ s3) ∙ e2)))))

-- A check writes nothing, whatever its outcome.
Keeps-credit_check :
    (I : Store → Type 0) (recheck : ℤ) (hmac : String) (w : World)
    → I w.store
    → Keeps I (credit_check recheck (some hmac) w)
unfolding credit_check
Keeps-credit_check I recheck hmac w i =
    Keeps-bind I (reply_if (is_blank hmac) invalid) _ w
      (Keeps-reply_if I (is_blank hmac) invalid w i)
      (λ _ w1 i1.
        Keeps-bind I (exec unknown_key (query (find_credit hmac))) _ w1
          (Keeps-exec_query I unknown_key (find_credit hmac) w1 i1)
          (λ c w2 i2.
            Keeps-bind I (reply_if (not (str_eq c.key_status "active")) unknown_key) _ w2
              (Keeps-reply_if I (not (str_eq c.key_status "active")) unknown_key w2 i2)
              (λ _ w3 i3.
                Keeps-bind I now_utc
                  (λ now. pure (record { status = 200; body = credit (credit_body recheck now c) }))
                  w3 (Keeps-now_utc I w3 i3) (λ now w4 i4. Keeps-done I _ w4 i4))))

not_live :
    (at : Instant) (id subscription hmac : String) (key : SubscriptionKey) (s t : Store)
    → find (λ k. str_eq k.hmac hmac) s.subscription_keys ≡ some key
    → is_key id subscription key ≡ true
    → t.subscription_keys ≡ revoke_rows at id subscription s.subscription_keys
    → IsLive hmac t
    → ⊥
not_live at id subscription hmac key s t found own rows (live, live_found, active) =
    let revoked = find-revoke_rows at id subscription hmac s.subscription_keys key found in
    let inactive = revoke_row-inactive at id subscription key own in
    let here : find (λ k. str_eq k.hmac hmac) (revoke_rows at id subscription s.subscription_keys)
        ≡ some live =
      rw rows at live_found in
    cc

-- After a revocation has gone through, the credit check of the key's HMAC is refused, whichever
-- statements fail, and writes nothing.
pub credit_check_of_revoked :
    (recheck : ℤ) (id subscription hmac : String) (key : SubscriptionKey) (w v : World)
    (r : Response)
    → find (λ k. str_eq k.hmac hmac) w.store.subscription_keys ≡ some key
    → is_key id subscription key ≡ true
    → (revoke_key id subscription w).0 ≡ done r
    → v.store ≡ (revoke_key id subscription w).1.store
    → (e : Response) × ((credit_check recheck (some hmac) v).0 ≡ reply e)
      × ((credit_check recheck (some hmac) v).1.store ≡ v.store)
credit_check_of_revoked recheck id subscription hmac key w v r found own ok same =
    let (at, rows) =
      Post-of_done _ (revoke_key id subscription w) r (revoke_key-rows id subscription w) ok in
    let refused : Post Never (credit_check recheck (some hmac) v) =
      Post-weaken _ _ (credit_check recheck (some hmac) v) (credit_check-Decides recheck hmac v)
        (λ a t (_, (b, _, _, _, _, _, live)).
          not_live at id subscription hmac key w.store v.store found own
            (ap (λ s. s.subscription_keys) same ∙ rows) live) in
    refusal v.store (credit_check recheck (some hmac) v) refused (
      unchanged (credit_check recheck (some hmac) v)
        (Keeps-credit_check (λ s. s ≡ v.store) recheck hmac v refl))
  where
    unchanged :
        (o : Outcome Response × World) → Keeps (λ s. s ≡ v.store) o → IsAtomic (λ t. ⊥) v.store o
    unchanged (done a, w') h = record { undone = tt }
    unchanged (reply e, w') h = record { undone = inl h.holds }
