-- ===== src/Gizpay/Merchants.antt =====
-- merchants, merchantResource, merchantProducts and productResource (internal/gizpay/handler.go): the
-- POSTs and PATCHes of Merchants and products.
pub mod Defaults
pub mod Patched
pub mod Owned
pub mod History
mod Tests
use Prim.Native.String.{String}
use gizway.Prelude.{
  Bool, true, false, not, ◌&&◌, ◌||◌, Option, none, some, List, [], ◌∷◌, any, if◌then◌else◌,
}
use gizway.Text.{str_eq, is_blank}
use gizway.Gizpay.Store.{Store, Merchant, Product}
use gizway.Gizpay.Request.{
  M, ◌>>=◌, ◌>>◌, pure, fail, reply_if, Sql, row, violates, statement, exec, query, new_id, now_utc,
  Response, error_json, internal, invalid, not_found, merchant, product,
}
use gizway.Gizpay.Charge.{select}
use gizway.Gizpay.Charge.Handler.{or_false}

pub record MerchantRequest : Type 0 where
  pub settlement_account_id : String
  pub legal_name : String
  pub public_name : String

-- A body that does not decode is absent.
abbrev pub decoded : {A : Type 0} → Option A → M A
decoded none = fail invalid
decoded (some body) = pure body

abbrev pub owns_account : String → String → Store → Bool
owns_account user account s =
    any (λ a. str_eq a.id account && str_eq a.owner_user_id user) s.accounts

-- The primary key, and one default Merchant of an account.
unfoldable pub merchant_clashes : Merchant → Merchant → Bool
merchant_clashes new m =
    str_eq m.id new.id
    || new.is_default && m.is_default && str_eq m.settlement_account_id new.settlement_account_id

unfoldable pub insert_merchant : Merchant → Store → Sql (Unit {0}) × Store
insert_merchant new s =
    if any (merchant_clashes new) s.merchants
      || not (any (λ a. str_eq a.id new.settlement_account_id) s.accounts)
    then (violates "merchants", s)
    else (row tt, record s { merchants = new ∷ s.merchants })

abbrev pub new_merchant : String → MerchantRequest → Merchant
new_merchant id body = record {
  id = id;
  settlement_account_id = body.settlement_account_id;
  legal_name = body.legal_name;
  public_name = body.public_name;
  is_default = false;
  status = "active";
}

-- A failed query of the owner leaves `owned` false.
unfoldable pub create_merchant : String → Option MerchantRequest → M Response
create_merchant user request = do
  body ← decoded request
  reply_if
      (is_blank body.settlement_account_id || is_blank body.legal_name || is_blank body.public_name)
      invalid
  owned ← statement (query (λ s. row (owns_account user body.settlement_account_id s))) >>= or_false
  reply_if (not owned) not_found
  id ← new_id "mrc_"
  now ← now_utc
  exec internal (insert_merchant (new_merchant id body))
  pure (record { status = 201; body = merchant (new_merchant id body) })

-- `SELECT m.* FROM merchants m JOIN accounts a ... WHERE m.id=$1 AND a.owner_user_id=$2`
unfoldable pub find_own_merchant : String → String → Store → Sql Merchant
find_own_merchant user id s =
    select (λ m. str_eq m.id id && owns_account user m.settlement_account_id s) (λ m. m) s.merchants

-- A PATCH: absent fields stay.
pub record Patch : Type 0 where
  pub name : Option String
  pub status : Option String

abbrev pub is_blank_name : Option String → Bool
is_blank_name none = false
is_blank_name (some name) = is_blank name

abbrev pub is_absent : Option String → Bool
is_absent none = true
is_absent (some new) = false

abbrev pub is_empty : Patch → Bool
is_empty p = is_absent p.name && is_absent p.status

abbrev pub is_bad_status : Option String → Bool
is_bad_status none = false
is_bad_status (some status) = not (str_eq status "active") && not (str_eq status "inactive")

abbrev pub is_disabling : Option String → Bool
is_disabling none = false
is_disabling (some status) = str_eq status "inactive"

abbrev pub or_old : Option String → String → String
or_old none old = old
or_old (some new) old = new

-- `UPDATE merchants SET public_name=$1,status=$2,... WHERE id=$4`
abbrev pub rename_merchant : String → String → String → Merchant → Merchant
rename_merchant id name status m =
    if str_eq m.id id then record m { public_name = name; status = status } else m

unfoldable pub rename_merchants : String → String → String → List Merchant → List Merchant
rename_merchants id name status [] = []
rename_merchants id name status (m ∷ ms) =
    rename_merchant id name status m ∷ rename_merchants id name status ms

unfoldable pub update_merchant : String → String → String → Store → Sql (Unit {0}) × Store
update_merchant id name status s =
    (row tt, record s { merchants = rename_merchants id name status s.merchants })

-- The checks of a PATCH that Merchants and products share.
unfoldable pub check_patch : Patch → M (Unit {0})
check_patch body = do
  reply_if (is_empty body || is_blank_name body.name) invalid
  reply_if (is_bad_status body.status) invalid

-- The PATCH of the row that is read.
unfoldable pub patch_own_merchant : String → Option Patch → Merchant → M Response
patch_own_merchant id request m = do
  body ← decoded request
  check_patch body
  reply_if (is_disabling body.status && m.is_default) (error_json 409 "default_merchant_in_use")
  now ← now_utc
  exec internal (update_merchant id (or_old body.name m.public_name) (or_old body.status m.status))
  pure (record {
    status = 200;
    body = merchant (record m {
      public_name = or_old body.name m.public_name;
      status = or_old body.status m.status;
    });
  })

unfoldable pub patch_merchant : String → String → Option Patch → M Response
patch_merchant user id request =
    exec not_found (query (find_own_merchant user id)) >>= patch_own_merchant id request

pub record ProductRequest : Type 0 where
  pub name : String
  pub billing_mode : String
  pub terms_version : String

unfoldable pub insert_product : Product → Store → Sql (Unit {0}) × Store
insert_product new s =
    if any (λ p. str_eq p.id new.id) s.products
      || not (any (λ m. str_eq m.id new.merchant_id) s.merchants)
    then (violates "products", s)
    else (row tt, record s { products = new ∷ s.products })

abbrev pub new_product : String → String → ProductRequest → Product
new_product id merchant_id body = record {
  id = id;
  merchant_id = merchant_id;
  name = body.name;
  billing_mode = body.billing_mode;
  published = true;
  status = "active";
  terms_version = body.terms_version;
}

-- The POST of merchantProducts.
unfoldable pub create_own_product : String → Option ProductRequest → M Response
create_own_product merchant_id request = do
  body ← decoded request
  reply_if (not (str_eq body.billing_mode "pay_as_you_go"))
      (error_json 400 "unsupported_billing_mode")
  reply_if (is_blank body.name || is_blank body.terms_version) invalid
  id ← new_id "prd_"
  now ← now_utc
  exec internal (insert_product (new_product id merchant_id body))
  pure (record { status = 201; body = product (new_product id merchant_id body) })

-- Behind the test of the owner in merchantResource.
unfoldable pub create_product : String → String → Option ProductRequest → M Response
create_product user merchant_id request =
    exec not_found (query (find_own_merchant user merchant_id)) >>= λ m.
    create_own_product merchant_id request

abbrev pub owns_merchant : String → String → Store → Bool
owns_merchant user merchant_id s =
    any (λ m. str_eq m.id merchant_id && owns_account user m.settlement_account_id s) s.merchants

unfoldable pub find_own_product : String → String → Store → Sql Product
find_own_product user id s =
    select (λ p. str_eq p.id id && owns_merchant user p.merchant_id s) (λ p. p) s.products

unfoldable pub rename_products : String → String → String → List Product → List Product
rename_products id name status [] = []
rename_products id name status (p ∷ ps) =
    (if str_eq p.id id then record p { name = name; status = status } else p)
    ∷ rename_products id name status ps

unfoldable pub update_product : String → String → String → Store → Sql (Unit {0}) × Store
update_product id name status s =
    (row tt, record s { products = rename_products id name status s.products })

unfoldable pub patch_own_product : String → Option Patch → Product → M Response
patch_own_product id request p = do
  body ← decoded request
  check_patch body
  now ← now_utc
  exec invalid (update_product id (or_old body.name p.name) (or_old body.status p.status))
  pure (record {
    status = 200;
    body =
        product (record p { name = or_old body.name p.name; status = or_old body.status p.status });
  })

-- The PATCH of productResource.
unfoldable pub patch_product : String → String → Option Patch → M Response
patch_product user id request =
    exec not_found (query (find_own_product user id)) >>= patch_own_product id request
