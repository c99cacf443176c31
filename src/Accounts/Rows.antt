-- ===== src/Accounts/Rows.antt =====
-- The rows of the two tables that can sign in, the reset links, and what the service is given.
use text.Mathlib.Text.{◌==◌ as str_eq}
use nation_wide.Common.{
  ℕ, Bool, true, false, Option, none, some, List, ◌==◌, if◌then◌else◌, find, map, String,
}
use nation_wide.Store.{Role}

-- A row of `AdminUser`, or of `Customer` with the role of a customer.
pub record Account : Type 0 where
  pub id : ℕ
  pub name : String
  pub email : Option String
  pub phone : Option String
  pub role : Role
  pub is_b2b : Bool
  pub password_hash : Option String
  pub hashed_refresh_token : Option String
  pub is_active : Bool

pub record ResetToken : Type 0 where
  pub id : ℕ
  pub token_hash : String
  pub email : String
  pub expires_at : ℕ
  pub used_at : Option ℕ

-- `JwtPayload`.
pub record JwtPayload : Type 0 where
  pub sub : ℕ
  pub email : String
  pub role : Role
  pub is_b2b : Bool

-- The functions of bcrypt, of node:crypto and of the JWT service, and `email.trim().toLowerCase()`.
-- A salt, a `jti` and random bytes come from a number that is used once.
pub record Crypto : Type 0 where
  pub bcrypt_hash : ℕ → String → String
  pub bcrypt_compare : String → String → Bool
  pub sha256 : String → String
  pub sign_access : JwtPayload → ℕ → String
  pub sign_refresh : JwtPayload → ℕ → String
  pub random_token : ℕ → String
  pub normalize : String → String

pub record Accounts : Type 0 where
  pub admins : List Account
  pub customers : List Account
  pub resets : List ResetToken
  pub next : ℕ
  pub mailed : List (String × String)

pub data AuthError : Type 0 where
  unauthorized conflict bad_link missing_row : AuthError

pub data Reply (A : Type 0) : Type 0 where
  ok : A → Reply A
  err : AuthError → Reply A

pub record TokenPair : Type 0 where
  pub access_token : String
  pub refresh_token : String

abbrev pub is_customer : Role → Bool
is_customer Role.customer = true
is_customer Role.admin = false
is_customer Role.super_admin = false
is_customer Role.pickup_partner = false

abbrev pub is_text : Option String → String → Bool
is_text none s = false
is_text (some t) s = str_eq t s

abbrev pub has_email : String → Account → Bool
has_email email a = is_text a.email email

abbrev pub has_phone : String → Account → Bool
has_phone phone a = is_text a.phone phone

abbrev pub has_id : ℕ → Account → Bool
has_id id a = a.id == id

-- `toAuthAccount(customer, 'CUSTOMER')`.
abbrev pub as_customer : Option Account → Option Account
as_customer none = none
as_customer (some a) = some (record a { role = Role.customer })

abbrev pub or_else : Option Account → Option Account → Option Account
or_else none o = o
or_else (some a) o = some a

-- `findAccountByEmail`: staff before customers.
unfoldable pub account_by_email : String → Accounts → Option Account
account_by_email email d =
    or_else (find (has_email email) d.admins) (as_customer (find (has_email email) d.customers))

-- `findAccountById`.
unfoldable pub account_by_id : ℕ → Role → Accounts → Option Account
account_by_id id role d =
    if is_customer role
    then as_customer (find (has_id id) d.customers)
    else find (has_id id) d.admins

abbrev pub change_row : ℕ → (Account → Account) → Account → Account
change_row id change a = if a.id == id then change a else a

-- `updateAccount`.
unfoldable pub update_account : ℕ → Role → (Account → Account) → Accounts → Accounts
update_account id role change d =
    if is_customer role
    then record d { customers = map (change_row id change) d.customers }
    else record d { admins = map (change_row id change) d.admins }

abbrev pub is_some {ℓ} : {A : Type ℓ} → Option A → Bool
is_some none = false
is_some (some a) = true

-- The row that `updateAccount` needs; without it the write fails.
abbrev pub has_row : ℕ → Role → Accounts → Bool
has_row id role d =
    if is_customer role
    then is_some (find (has_id id) d.customers)
    else is_some (find (has_id id) d.admins)
