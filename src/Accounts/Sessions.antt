-- ===== src/Accounts/Sessions.antt =====
-- `authenticate`, `register`, `loginWithGoogle`, `issueTokenPair`, `refreshTokenPair`,
-- `revokeRefreshToken` and `changePassword`.
use Prim.Native.String.{◌++◌ as append}
use nation_wide.Common.{
  ℕ, ◌+◌, Bool, true, false, not, Option, none, some, [], ◌∷◌, ◌++◌, if◌then◌else◌, find, map,
  String, or_default,
}
use nation_wide.Store.{Role}
use nation_wide.Accounts.Rows.{
  Account, Accounts, Crypto, JwtPayload, unauthorized, conflict, missing_row, Reply, ok, err,
  TokenPair, has_email, has_phone, change_row, account_by_email, account_by_id, update_account,
  has_row, is_some,
}

pub record RegisterDto : Type 0 where
  pub name : String
  pub phone : String
  pub email : String
  pub password : String

pub record GoogleProfile : Type 0 where
  pub google_id : String
  pub email : String
  pub name : String

abbrev pub google_phone : GoogleProfile → String
google_phone p = append "google:" p.google_id

abbrev payload : Account → JwtPayload
payload a = record { sub = a.id; email = or_default a.email ""; role = a.role; is_b2b = a.is_b2b }

module _ (c : Crypto) where
  abbrev pub matches : String → Option String → Bool
  matches s none = false
  matches s (some h) = c.bcrypt_compare s h

  abbrev pub checked : String → Option Account → Reply Account
  checked password none = err unauthorized
  checked password (some a) =
      if not (is_some a.password_hash)
      then err unauthorized
      else if not a.is_active
      then err unauthorized
      else if matches password a.password_hash
      then ok a
      else err unauthorized

  unfoldable pub authenticate : String → String → Accounts → Reply Account
  authenticate email password d = checked password (account_by_email email d)

  abbrev pub with_refresh : Option String → Account → Account
  with_refresh h a = record a { hashed_refresh_token = h }

  -- Both tokens, the stored hash of the refresh token, and three numbers that are used up.
  unfoldable pub issue_token_pair : Account → Accounts → Reply TokenPair × Accounts
  issue_token_pair a d =
      let access = c.sign_access (payload a) d.next in
      let refresh = c.sign_refresh (payload a) (d.next + 1) in
      let stored = with_refresh (some (c.bcrypt_hash (d.next + 2) refresh)) in
      if has_row a.id a.role d
      then (
        ok (record { access_token = access; refresh_token = refresh }),
        record (update_account a.id a.role stored d) { next = d.next + 3 },
      )
      else (err missing_row, record d { next = d.next + 3 })

  unfoldable pub revoke_refresh_token : ℕ → Role → Accounts → Reply (Unit {0}) × Accounts
  revoke_refresh_token id role d =
      if has_row id role d
      then (ok tt, update_account id role (with_refresh none) d)
      else (err missing_row, d)

  abbrev pub refresh_found :
      ℕ → Role → String → Accounts → Option Account → Reply TokenPair × Accounts
  refresh_found id role presented d none = (err unauthorized, d)
  refresh_found id role presented d (some a) =
      if not (is_some a.hashed_refresh_token)
      then (err unauthorized, d)
      else if matches presented a.hashed_refresh_token
      then issue_token_pair a d
      else (err unauthorized, (revoke_refresh_token id role d).1)

  -- A token that was rotated out ends the session.
  unfoldable pub refresh_token_pair : ℕ → Role → String → Accounts → Reply TokenPair × Accounts
  refresh_token_pair id role presented d =
      refresh_found id role presented d (account_by_id id role d)

  abbrev pub with_password : String → Account → Account
  with_password h a = record a { password_hash = some h; hashed_refresh_token = none }

  abbrev pub change_found :
      ℕ → Role → String → String → Accounts → Option Account → Reply (Unit {0}) × Accounts
  change_found id role current new d none = (err unauthorized, d)
  change_found id role current new d (some a) =
      if matches current a.password_hash
      then (
        ok tt,
        record (update_account id role (with_password (c.bcrypt_hash d.next new)) d) {
          next = d.next + 1;
        },
      )
      else (err unauthorized, d)

  unfoldable pub change_password :
      ℕ → Role → String → String → Accounts → Reply (Unit {0}) × Accounts
  change_password id role current new d =
      change_found id role current new d (account_by_id id role d)

  abbrev pub new_customer : ℕ → String → String → String → Option String → Account
  new_customer id name email phone hash = record {
    id = id;
    name = name;
    email = some email;
    phone = some phone;
    role = Role.customer;
    is_b2b = false;
    password_hash = hash;
    hashed_refresh_token = none;
    is_active = true;
  }

  -- The customer's row that staff have made is claimed by its phone.
  abbrev pub claimed : RegisterDto → String → Account → Account
  claimed dto hash a = record a {
    name = dto.name;
    email = some dto.email;
    password_hash = some hash;
  }

  abbrev pub register_by_phone : RegisterDto → Accounts → Option Account → Reply Account × Accounts
  register_by_phone dto d (some a) =
      let hash = c.bcrypt_hash d.next dto.password in
      if is_some a.password_hash then (err conflict, d) else (
        ok (record (claimed dto hash a) { role = Role.customer }),
        record d {
          customers = map (change_row a.id (claimed dto hash)) d.customers;
          next = d.next + 1;
        },
      )
  register_by_phone dto d none =
      let made =
        new_customer (d.next + 1) dto.name dto.email dto.phone
          (some (c.bcrypt_hash d.next dto.password)) in
      (ok made, record d { customers = d.customers ++ (made ∷ []); next = d.next + 2 })

  unfoldable pub register : RegisterDto → Accounts → Reply Account × Accounts
  register dto d =
      if is_some (find (has_email dto.email) d.customers)
      then (err conflict, d)
      else register_by_phone dto d (find (has_phone dto.phone) d.customers)

  abbrev pub google_account : GoogleProfile → Accounts → Option Account → Reply Account × Accounts
  google_account p d (some a) = if a.is_active then (ok a, d) else (err unauthorized, d)
  google_account p d none =
      let made = new_customer d.next p.name p.email (google_phone p) none in
      if is_some (find (has_phone (google_phone p)) d.customers)
      then (err conflict, d)
      else (ok made, record d { customers = d.customers ++ (made ∷ []); next = d.next + 1 })

  unfoldable pub login_with_google : GoogleProfile → Accounts → Reply Account × Accounts
  login_with_google p d = google_account p d (account_by_email p.email d)
