-- ===== src/Gizpay/Keys/Aging.antt =====
-- What the handlers of Subscription Keys (subscriptionKeys, internal/gizpay/handler.go) may do to the
-- table, as the trigger protect_subscription_key of the schema says it.
use Prim.Native.String.{String}
use gizway.Prelude.{
  Bool, true, false, not, ◌&&◌, ◌||◌, Option, none, some, List, [], ◌∷◌, ◌++◌, any, ◌≡◌, refl,
  arith, Bool-cases, inl, inr,
}
use gizway.Text.{str_eq, str_eq_iff, is_blank}
use gizway.Gizpay.Store.{Store, Instant, SubscriptionKey}
use gizway.Gizpay.Request.{
  M, World, pure, fail, reply_if, Sql, row, no_rows, violates, failed, statement, exec, query,
  now_utc, error_json, internal, invalid, not_found, subscription_key,
}
use gizway.Gizpay.Keeps.{
  Keeps, Keeps-done, Keeps-reply, Keeps-bind, Keeps-reply_if, Keeps-query, Keeps-exec,
  Keeps-exec_query, Keeps-now_utc, Keeps-bind_weaker,
}
use gizway.Gizpay.Keys.{
  find_key, write_key, is_revocable, revoke_row, revoke_rows, update_revoked, is_revoked,
  check_revoked, revoke_key, KeyRequest, find_key_id, answer_key, replay_key, key_clashes,
  insert_key, new_key, answer_inserted_key, or_internal, create_key,
}

-- From k to l the identity and the material stay, and a revoked key stays as it is.
pub record Ages (k : SubscriptionKey) (l : SubscriptionKey) : Type 0 where
  pub id : l.id ≡ k.id
  pub subscription : l.subscription_id ≡ k.subscription_id
  pub name : l.name ≡ k.name
  pub key : l.key ≡ k.key
  pub hmac : l.hmac ≡ k.hmac
  pub created : l.created_at ≡ k.created_at
  pub revoked : k.status ≡ "revoked" → l ≡ k

abbrev pub AllAge : List SubscriptionKey → List SubscriptionKey → Type 0
AllAge [] [] = Unit
AllAge (k ∷ ks) (l ∷ ls) = Ages k l × AllAge ks ls
AllAge _ _ = ⊥

-- The table has new keys before the old ones, which have aged.
pub record Extends (ks : List SubscriptionKey) (ls : List SubscriptionKey) : Type 0 where
  pub added : List SubscriptionKey
  pub kept : List SubscriptionKey
  pub split : ls ≡ added ++ kept
  pub aged : AllAge ks kept

same-Ages : (k : SubscriptionKey) → Ages k k
same-Ages k = record {
  id = refl;
  subscription = refl;
  name = refl;
  key = refl;
  hmac = refl;
  created = refl;
  revoked = λ h. refl;
}

same-AllAge : (ks : List SubscriptionKey) → AllAge ks ks
same-AllAge [] = tt
same-AllAge (k ∷ ks) = (same-Ages k, same-AllAge ks)

same-Extends : (ks : List SubscriptionKey) → Extends ks ks
same-Extends ks = record { added = []; kept = ks; split = refl; aged = same-AllAge ks }

not_active : (status : String) → str_eq status "active" ≡ true → status ≡ "revoked" → ⊥
not_active status a r =
    let same : status ≡ "active" = (str_eq_iff status "active").0 a in
    let clash : str_eq "active" "revoked" ≡ true =
      (str_eq_iff "active" "revoked").1 (cc (same, r)) in
    cc

revoke_row-Ages :
    (at : Instant) (id subscription : String) (k : SubscriptionKey)
    → Ages k (revoke_row at id subscription k)
revoke_row-Ages at id subscription k = elim (Bool-cases (is_revocable id subscription k)) [
  | inl revocable ↦ rw revocable (record {
    id = refl;
    subscription = refl;
    name = refl;
    key = refl;
    hmac = refl;
    created = refl;
    revoked = λ h. absurd (not_active k.status (active _ _ revocable) h);
  })
  | inr other ↦ rw other (same-Ages k)
]
  where
    active : (b c : Bool) → b && c ≡ true → c ≡ true
    active b c h = ground arith

revoke_rows-AllAge :
    (at : Instant) (id subscription : String) (ks : List SubscriptionKey)
    → AllAge ks (revoke_rows at id subscription ks)
unfolding revoke_rows
revoke_rows-AllAge at id subscription [] = tt
revoke_rows-AllAge at id subscription (k ∷ ks) =
    (revoke_row-Ages at id subscription k, revoke_rows-AllAge at id subscription ks)

update_revoked-Extends :
    (at : Instant) (id subscription : String) (s : Store)
    → Extends s.subscription_keys (update_revoked at id subscription s).1.subscription_keys
unfolding update_revoked
update_revoked-Extends at id subscription s = record {
  added = [];
  kept = revoke_rows at id subscription s.subscription_keys;
  split = refl;
  aged = revoke_rows-AllAge at id subscription s.subscription_keys;
}

insert_key-Extends :
    (new : SubscriptionKey) (s : Store)
    → Extends s.subscription_keys (insert_key new s).1.subscription_keys
unfolding insert_key
insert_key-Extends new s = elim (Bool-cases (any (key_clashes new) s.subscription_keys)) [
  | inl clash ↦ rw clash (same-Extends s.subscription_keys)
  | inr free ↦ elim (Bool-cases (any (λ r. str_eq r.id new.subscription_id) s.subscriptions)) [
    | inl held ↦
        rw (free, held)
          (record {
            added = new ∷ [];
            kept = s.subscription_keys;
            split = refl;
            aged = same-AllAge s.subscription_keys;
          })
    | inr missing ↦ rw (free, missing) (same-Extends s.subscription_keys)
  ]
]

module _ (I : Store → Type 0) where
  Keeps-write_key :
      (id subscription : String) (w : World) → I w.store → Keeps I (write_key id subscription w)
  unfolding write_key
  Keeps-write_key id subscription w i =
      Keeps-bind I (exec not_found (query (find_key id subscription)))
        (λ k. pure (record { status = 200; body = subscription_key k })) w
        (Keeps-exec_query I not_found (find_key id subscription) w i)
        (λ k w' i'. Keeps-done I _ w' i')

  Keeps-check_revoked :
      (id subscription : String) (updated : Bool) (w : World)
      → I w.store
      → Keeps I (check_revoked id subscription updated w)
  Keeps-check_revoked id subscription true w i = Keeps-done I tt w i
  Keeps-check_revoked id subscription false w i =
      Keeps-bind I (exec internal (query (λ s. row (is_revoked id subscription s))))
        (λ exists. reply_if (not exists) not_found) w
        (Keeps-exec_query I internal (λ s. row (is_revoked id subscription s)) w i)
        (λ exists w' i'. Keeps-reply_if I (not exists) not_found w' i')

  Keeps-replay_key :
      (subscription : String) (body : KeyRequest) (absent : M (Unit {0})) (w : World)
      → I w.store
      → ((w' : World) → I w'.store → Keeps I (absent w'))
      → Keeps I (replay_key subscription body absent w)
  unfolding replay_key
  Keeps-replay_key subscription body absent w i a =
      Keeps-bind I (statement (query (find_key_id body.id))) (answer_key subscription body absent) w
        (Keeps-query I (find_key_id body.id) w i) (λ r w' i'. answered r w' i')
    where
      answered :
          (r : Sql SubscriptionKey) (w' : World)
          → I w'.store
          → Keeps I (answer_key subscription body absent r w')
      answered (row k) w' i' =
          elim (Bool-cases (str_eq k.subscription_id subscription && str_eq k.name body.name)) [
            | inl same ↦ rw same (
                Keeps-bind I (write_key body.id subscription) (λ r. fail r) w'
                  (Keeps-write_key body.id subscription w' i')
                  (λ r w'' i''. Keeps-reply I r w'' i''))
            | inr other ↦ rw other (Keeps-reply I (error_json 409 "resource_id_conflict") w' i')
          ]
      answered no_rows w' i' = a w' i'
      answered (violates c) w' i' = Keeps-reply I internal w' i'
      answered failed w' i' = Keeps-reply I internal w' i'

  Keeps-or_internal : (raw : Option String) (w : World) → I w.store → Keeps I (or_internal raw w)
  Keeps-or_internal none w i = Keeps-reply I internal w i
  Keeps-or_internal (some raw) w i = Keeps-done I raw w i

-- The invariants of a request that starts with a store: nothing is written yet, and the table extends
-- what it was.
module _ (start : Store) where
  unfoldable Same : Store → Type 0
  Same s = s ≡ start

  unfoldable Grows : Store → Type 0
  Grows s = Extends start.subscription_keys s.subscription_keys

  Grows-Same : (s : Store) → Same s → Grows s
  unfolding Same Grows
  Grows-Same s same = rw same (same-Extends start.subscription_keys)

  Grows-update_revoked :
      (at : Instant) (id subscription : String) (s : Store)
      → Same s
      → Grows (update_revoked at id subscription s).1
  unfolding Same Grows
  Grows-update_revoked at id subscription s same =
      rw same (update_revoked-Extends at id subscription start)

  Grows-insert_key : (new : SubscriptionKey) (s : Store) → Same s → Grows (insert_key new s).1
  unfolding Same Grows
  Grows-insert_key new s same = rw same (insert_key-Extends new start)

  Grows-revoke_key :
      (id subscription : String) (w : World)
      → Same w.store
      → Keeps Grows (revoke_key id subscription w)
  unfolding revoke_key
  Grows-revoke_key id subscription w same =
      Keeps-bind_weaker Same Grows Grows-Same now_utc _ w (Keeps-now_utc Same w same)
        (λ now w1 same1.
          Keeps-bind Grows (exec internal (update_revoked now id subscription)) _ w1
            (Keeps-exec Grows internal (update_revoked now id subscription) w1
              (Grows-Same w1.store same1) (Grows-update_revoked now id subscription w1.store same1))
            (λ updated w2 g2.
              Keeps-bind Grows (check_revoked id subscription updated)
                (λ _. write_key id subscription) w2
                (Keeps-check_revoked Grows id subscription updated w2 g2)
                (λ _ w3 g3. Keeps-write_key Grows id subscription w3 g3)))

  Grows-answer_inserted_key :
      (subscription : String) (body : KeyRequest) (inserted : Bool) (w : World)
      → Grows w.store
      → Keeps Grows (answer_inserted_key subscription body inserted w)
  Grows-answer_inserted_key subscription body true w g = Keeps-done Grows tt w g
  Grows-answer_inserted_key subscription body false w g =
      Keeps-replay_key Grows subscription body (fail internal) w g
        (λ w' g'. Keeps-reply Grows internal w' g')

  Grows-create_key :
      (hmac : String → String) (raw : Option String) (subscription : String) (body : KeyRequest)
      (w : World)
      → Same w.store
      → Keeps Grows (create_key hmac raw subscription (some body) w)
  unfolding create_key
  Grows-create_key hmac raw subscription body w same =
      Keeps-bind_weaker Same Grows Grows-Same
        (reply_if (is_blank body.id || is_blank body.name) invalid) _ w
        (Keeps-reply_if Same (is_blank body.id || is_blank body.name) invalid w same)
        (λ _ w1 s1.
          Keeps-bind_weaker Same Grows Grows-Same (replay_key subscription body (pure tt)) _ w1
            (Keeps-replay_key Same subscription body (pure tt) w1 s1
              (λ w' s'. Keeps-done Same tt w' s'))
            (λ _ w2 s2.
              Keeps-bind_weaker Same Grows Grows-Same (or_internal raw) _ w2
                (Keeps-or_internal Same raw w2 s2)
                (λ key w3 s3.
                  Keeps-bind_weaker Same Grows Grows-Same now_utc _ w3 (Keeps-now_utc Same w3 s3)
                    (λ now w4 s4.
                      let new = new_key hmac subscription body key now in
                      Keeps-bind Grows (exec internal (insert_key new)) _ w4
                        (Keeps-exec Grows internal (insert_key new) w4 (Grows-Same w4.store s4)
                          (Grows-insert_key new w4.store s4))
                        (λ inserted w5 g5.
                          Keeps-bind Grows (answer_inserted_key subscription body inserted)
                            (λ _. pure (record { status = 201; body = subscription_key new })) w5
                            (Grows-answer_inserted_key subscription body inserted w5 g5)
                            (λ _ w6 g6. Keeps-done Grows _ w6 g6))))))

revoke_key-Extends :
    (id subscription : String) (w : World)
    → Extends w.store.subscription_keys (revoke_key id subscription w).1.store.subscription_keys
unfolding Grows Same
revoke_key-Extends id subscription w = (Grows-revoke_key w.store id subscription w refl).holds

create_key-Extends :
    (hmac : String → String) (raw : Option String) (subscription : String)
    (body : Option KeyRequest) (w : World)
    → Extends w.store.subscription_keys
        (create_key hmac raw subscription body w).1.store.subscription_keys
unfolding Grows Same create_key
create_key-Extends hmac raw subscription none w = same-Extends w.store.subscription_keys
create_key-Extends hmac raw subscription (some body) w =
    (Grows-create_key w.store hmac raw subscription body w refl).holds

-- A request that writes keys: the revocation of a key, and the creation of one.
pub data KeyCall : Type 0 where
  revokes : String → String → KeyCall
  creates : (String → String) → Option String → String → Option KeyRequest → KeyCall

abbrev pub serve : KeyCall → World → World
serve (revokes id subscription) w = (revoke_key id subscription w).1
serve (creates hmac raw subscription body) w = (create_key hmac raw subscription body w).1

-- Whatever the outcome of the revocation or the creation of a key, and whichever statements fail, the
-- table has the keys of before, after the keys it added: with their identities and material, and a
-- key that was revoked is as it was.
pub serve-Extends :
    (call : KeyCall) (w : World)
    → Extends w.store.subscription_keys (serve call w).store.subscription_keys
serve-Extends (revokes id subscription) w = revoke_key-Extends id subscription w
serve-Extends (creates hmac raw subscription body) w =
    create_key-Extends hmac raw subscription body w
