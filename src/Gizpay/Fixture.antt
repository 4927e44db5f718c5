-- ===== src/Gizpay/Fixture.antt =====
-- A small database of GizPay, and requests on it: what the examples of its handlers start from.
use Prim.Native.String
use Prim.Native.String.{String}
use gizway.Prelude.{ℕ, zero, suc, Bool, true, false, Option, none, some, [], ◌∷◌, refl, ◌==◌}
use gizway.Int.{pos}
use gizway.Gizpay.Store.{Store, LedgerAccount, BalanceRow, ledger_balance, sum_shares, holder}
use gizway.Gizpay.Request.{World}
use gizway.Gizpay.Charge.Books.{IsConsistent}

abbrev pub ledger : String → Option String → String → LedgerAccount
ledger id owner asset = record { id = id; owner_account_id = owner; asset_code = asset }

abbrev pub empty_balance : String → BalanceRow
empty_balance id = record { account_id = id; balance = pos 0 }

abbrev pub start : Store
start = record {
  users =
      record {
        id = "u1";
        identity_issuer = "iss";
        identity_subject = "payer";
        email = "p@x";
        display_name = "P";
      }
      ∷ record {
        id = "u2";
        identity_issuer = "iss";
        identity_subject = "seller";
        email = "s@x";
        display_name = "S";
      }
      ∷ [];
  accounts =
      record { id = "a1"; owner_user_id = "u1" }
      ∷ record { id = "a2"; owner_user_id = "u2" }
      ∷ record { id = "a3"; owner_user_id = "u2" }
      ∷ [];
  service_principals =
      record {
        id = "gizway";
        owner_user_id = "u2";
        identity_issuer = "iss";
        identity_subject = "gateway";
        credential_key_id = "c0";
        name = "Gateway";
        roles = "charge" ∷ [];
        status = "active";
        revoked_at = none;
      }
      ∷ [];
  ledger_accounts =
      ledger "l1" (some "a1") "credit"
      ∷ ledger "l2" (some "a2") "credit"
      ∷ ledger "l3" (some "a3") "credit"
      ∷ ledger "l4" none "platform_fee"
      ∷ ledger "led_clearing" none "clearing"
      ∷ [];
  ledger_transactions = [];
  ledger_entries = [];
  merchants =
      record {
        id = "m1";
        settlement_account_id = "a2";
        legal_name = "S";
        public_name = "S";
        is_default = true;
        status = "active";
      }
      ∷ record {
        id = "m2";
        settlement_account_id = "a3";
        legal_name = "T";
        public_name = "T";
        is_default = false;
        status = "active";
      }
      ∷ [];
  products =
      record {
        id = "p1";
        merchant_id = "m1";
        name = "AI";
        billing_mode = "pay_as_you_go";
        published = true;
        status = "active";
        terms_version = "1";
      }
      ∷ [];
  subscriptions =
      record {
        id = "s1";
        account_id = "a1";
        product_id = "p1";
        status = "active";
        terms_version = "1";
      }
      ∷ [];
  subscription_keys =
      record {
        id = "k1";
        subscription_id = "s1";
        name = "main";
        key = "gzk";
        hmac = "h1";
        status = "active";
        created_at = pos 1;
        last_used_at = none;
        revoked_at = none;
      }
      ∷ [];
  payg_charges = [];
  charge_commissions = [];
  topups = [];
  user_profiles = [];
  balances = empty_balance "a1" ∷ empty_balance "a2" ∷ empty_balance "a3" ∷ [];
  sync_transactions = [];
  sync_charges = [];
  sync_commissions = [];
}

abbrev pub uuids : ℕ → String
uuids zero = "0"
uuids (suc n) = String.◌++◌ "1" (uuids n)

abbrev pub healthy : ℕ → Bool
healthy n = false

-- The statements that fail are those that `down` names.
abbrev pub world : (ℕ → Bool) → Store → World
world down s = record {
  store = s;
  fails = down;
  lost = healthy;
  ran = 0;
  uuid = uuids;
  drawn = 0;
  now = pos 9;
}

-- The ninth statement fails.
abbrev pub ninth : ℕ → Bool
ninth n = n == 9

-- The first statement fails.
abbrev pub first_down : ℕ → Bool
first_down n = n == 0

pub start-IsConsistent : IsConsistent start
unfolding ledger_balance sum_shares holder
start-IsConsistent = record {
  keyed = (refl, (refl, (refl, (refl, (refl, tt)))));
  referenced = tt;
  projected = (refl, (refl, (refl, tt)));
}
