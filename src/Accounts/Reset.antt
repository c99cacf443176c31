-- ===== src/Accounts/Reset.antt =====
-- `requestPasswordReset` and `resetPassword`.
use text.Mathlib.Text.{◌==◌ as str_eq}
use nation_wide.Common.{
  ℕ, ◌+◌, ◌*◌, Bool, not, ◌&&◌, ◌||◌, Option, none, some, [], ◌∷◌, ◌++◌, ltb, ◌==◌, if◌then◌else◌,
  find, map, String,
}
use nation_wide.Accounts.Rows.{
  Account, Accounts, ResetToken, Crypto, bad_link, missing_row, Reply, ok, err, account_by_email,
  update_account, is_some, has_row,
}
use nation_wide.Accounts.Sessions.{with_password}

abbrev reset_token_ttl : ℕ
reset_token_ttl = 60 * 60_000

abbrev pub outdated : String → ℕ → ResetToken → ResetToken
outdated email now r =
    if str_eq r.email email && not (is_some r.used_at) then record r { used_at = some now } else r

abbrev pub use_up : ℕ → ℕ → ResetToken → ResetToken
use_up id now r = if r.id == id then record r { used_at = some now } else r

module _ (c : Crypto) where
  abbrev pub request_found : String → ℕ → Accounts → Option Account → Accounts
  request_found email now d none = d
  request_found email now d (some a) =
      let token = c.random_token d.next in
      if a.is_active
      then record d {
        resets =
            map (outdated email now) d.resets
            ++ (record {
              id = d.next;
              token_hash = c.sha256 token;
              email = email;
              expires_at = now + reset_token_ttl;
              used_at = none;
            }
                ∷ []);
        mailed = (email, token) ∷ d.mailed;
        next = d.next + 1;
      }
      else d

  -- The answer is the same whether the address has an account or not.
  unfoldable pub request_password_reset : ℕ → String → Accounts → Accounts
  request_password_reset now email d =
      request_found (c.normalize email) now d (account_by_email (c.normalize email) d)

  abbrev pub has_hash : String → ResetToken → Bool
  has_hash token r = str_eq (c.sha256 token) r.token_hash

  abbrev pub reset_account :
      ℕ → String → ResetToken → Accounts → Option Account → Reply (Unit {0}) × Accounts
  reset_account now new r d none = (err bad_link, d)
  reset_account now new r d (some a) =
      if has_row a.id a.role d
      then (
        ok tt,
        record (update_account a.id a.role (with_password c (c.bcrypt_hash d.next new)) d) {
          resets = map (use_up r.id now) d.resets;
          next = d.next + 1;
        },
      )
      else (err missing_row, record d { next = d.next + 1 })

  abbrev pub reset_found : ℕ → String → Accounts → Option ResetToken → Reply (Unit {0}) × Accounts
  reset_found now new d none = (err bad_link, d)
  reset_found now new d (some r) =
      if is_some r.used_at || ltb r.expires_at now
      then (err bad_link, d)
      else reset_account now new r d (account_by_email r.email d)

  unfoldable pub reset_password : ℕ → String → String → Accounts → Reply (Unit {0}) × Accounts
  reset_password now token new d = reset_found now new d (find (has_hash token) d.resets)
