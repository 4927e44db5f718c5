-- ===== src/Outbox/Fixture.antt =====
-- A small GizPay that keeps the external order IDs of its charges, and a queued charge: what the
-- examples of the Outbox start from.
use Prim.Native.String.{String}
use gizway.Prelude.{
  ℕ, Bool, true, false, ◌==◌, none, some, List, [], ◌∷◌, any, ◌≡◌, ◌≢◌, refl, sym, arith,
  Bool-cases, inl, inr, if◌then◌else◌,
}
use gizway.Int.{pos}
use gizway.Text.{str_eq, str_eq_iff}
use gizway.Outbox.{
  pending, unbilled, OutboxRow, AiOrder, KeyRow, Db, Fault, works, lost, GizPay, Site,
}
use gizway.Outbox.Report.Soundness.{IsFaithful, IsSound}

abbrev pub has : List String → String → Bool
has s e = any (λ x. str_eq x e) s

abbrev pub gizpay : GizPay (List String)
gizpay = record {
  configured = true;
  post_builds = true;
  find_builds = λ e. true;
  has_token = λ s. true;
  post = λ p s.
      if has s p.external_order_id then (some 409, s) else (some 201, p.external_order_id ∷ s);
  find = λ e s. (if has s e then some 200 else some 404, s);
}

str_eq_refl : (x : String) → str_eq x x ≡ true
str_eq_refl x = (str_eq_iff x x).1 refl

pub gizpay-IsFaithful : IsFaithful gizpay has
gizpay-IsFaithful = record {
  created = λ p s e. elim (Bool-cases (has s p.external_order_id)) [
    | inl there ↦ absurd (ground arith)
    | inr new ↦ rw (new, str_eq_refl p.external_order_id) refl
  ];
  conflict = λ p s e. elim (Bool-cases (has s p.external_order_id)) [
    | inl there ↦ there
    | inr new ↦ absurd (ground arith)
  ];
  refused = λ p s code e no201 no409 before. absurd (ground arith);
  posted_other = λ p s e other. elim (Bool-cases (has s p.external_order_id)) [
    | inl there ↦ rw there refl
    | inr new ↦ rw (new, apart p.external_order_id e other) refl
  ];
  posted_keeps = λ p s e there. ground arith;
  found = λ e s answer. ground arith;
  found_same = λ e s. refl;
}
  where
    apart : (x e : String) → e ≢ x → str_eq x e ≡ false
    apart x e other = elim (Bool-cases (str_eq x e)) [
      | inl same ↦ absurd (other (sym ((str_eq_iff x e).0 same)))
      | inr apart_from ↦ apart_from
    ]

abbrev pub order : AiOrder
order = record {
  id = "aio_1";
  external_order_id = "ord_1";
  provider_key_id = "key_1";
  gross = pos 100;
  commission = pos 80;
  billing_error = none;
  status = unbilled;
}

abbrev pub queued : OutboxRow
queued = record {
  id = "out_1";
  external_order_id = "ord_1";
  ai_order_id = "aio_1";
  payload = record {
    external_order_id = "ord_1";
    subscription_key_hmac = "h1";
    gross = pos 100;
    merchant_id = "m1";
    commission = pos 80;
  };
  status = pending;
  recover_duplicate = false;
  created_at = pos 1;
  updated_at = pos 1;
}

abbrev pub key_row : KeyRow
key_row = record {
  provider_key_id = "key_1";
  last_used_at = none;
  earned = pos 20;
  updated_at = pos 0;
}

abbrev pub queue : Db
queue = record {
  ai_orders = order ∷ [];
  ai_usage = [];
  charge_outbox = queued ∷ [];
  provider_key_billing = key_row ∷ [];
  provider_keys = key_row ∷ [];
}

-- The answer of the fifth statement is lost.
abbrev pub fifth : ℕ → Fault
fifth n = if n == 5 then lost else works

abbrev pub site : (ℕ → Fault) → Site (List String)
site fault = record { db = queue; remote = []; fault = fault; ran = 0; now = pos 9 }

pub queue-IsSound : IsSound (has []) queue
queue-IsSound = record {
  sound = (
    record { uncertain = λ live there. absurd (cc); accepted = λ e. absurd (cc); said = refl },
    tt,
  );
  keyed = ((record { by_id = λ e. refl; by_order = λ e. refl }, tt), tt);
}
