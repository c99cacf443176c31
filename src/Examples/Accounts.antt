-- ===== src/Examples/Accounts.antt =====
-- A customer who signs up, refreshes, changes and resets the password.
use Prim.Native.String.{◌++◌, slice}
use text.Mathlib.Text.{◌==◌ as str_eq}
use nation_wide.Common.{ℕ, zero, suc, ◌≡◌, refl, true, false, none, some, List, [], ◌∷◌, String}
use nation_wide.Store.{Role}
use nation_wide.Accounts.Rows.{
  Account, Accounts, ResetToken, Crypto, err, unauthorized, bad_link, account_by_id,
  account_by_email, update_account,
}
use nation_wide.Accounts.Sessions.{
  RegisterDto, issue_token_pair, refresh_token_pair, change_password, authenticate,
}
use nation_wide.Accounts.Reset.{reset_password}
use nation_wide.Accounts.Calls.{
  Call, log_in, sign_up, refresh, change, ask_reset, reset, tokens, refused, answer, answers, run,
}
use nation_wide.Accounts.Passwords.{is_logged_in, change_password-replaces}
use nation_wide.Accounts.Rotation.{is_accepted, refresh_token_pair-rotates}
use nation_wide.Accounts.Ended.{password_changed, answer-Ends}
use nation_wide.Accounts.Spent.{reset_password-once}

abbrev ticks : ℕ → String
ticks zero = ""
ticks (suc n) = "i" ++ ticks n

abbrev first_72 : String → String
first_72 s = slice s 0 72

-- A hash that keeps what is read, and tokens that are told apart by their numbers.
abbrev toy : Crypto
toy = record {
  bcrypt_hash = λ salt s. first_72 s;
  bcrypt_compare = λ s h. str_eq (first_72 s) h;
  sha256 = λ s. s;
  sign_access = λ p n. "access " ++ ticks n;
  sign_refresh = λ p n. "refresh " ++ ticks n;
  random_token = λ n. "link " ++ ticks n;
  normalize = λ s. s;
}

abbrev empty : Accounts
empty = record { admins = []; customers = []; resets = []; next = 0; mailed = [] }

abbrev asha : RegisterDto
asha = record { name = "Asha"; phone = "+911"; email = "asha@x.in"; password = "old secret" }

abbrev calls : List Call
calls =
    sign_up asha
    ∷ sign_up asha
    ∷ log_in "asha@x.in" "bad"
    ∷ log_in "asha@x.in" "old secret"
    ∷ refresh 1 Role.customer "refresh iii"
    ∷ ask_reset 5 "asha@x.in"
    ∷ reset 6 "link iiiiiiii" "new secret"
    ∷ reset 7 "link iiiiiiii" "third"
    ∷ log_in "asha@x.in" "new secret"
    ∷ []

-- A customer's row with a stored refresh token, and a link that was mailed.
abbrev customer : Account
customer = record {
  id = 1;
  name = "Asha";
  email = some "asha@x.in";
  phone = some "+911";
  role = Role.customer;
  is_b2b = false;
  password_hash = some "old secret";
  hashed_refresh_token = some "refresh iii";
  is_active = true;
}

abbrev link : ResetToken
link = record { id = 2; token_hash = "link"; email = "asha@x.in"; expires_at = 9; used_at = none }

abbrev stored : Accounts
stored = record {
  admins = [];
  customers = customer ∷ [];
  resets = link ∷ [];
  next = 3;
  mailed = [];
}

-- The last token is refused and the session ends.
test_answers :
    answers toy
      (refresh 1 Role.customer "refresh iii" ∷ refresh 1 Role.customer "refresh iii" ∷ [])
      stored
    ≡ (tokens (record { access_token = "access iii"; refresh_token = "refresh iiii" })
        ∷ refused unauthorized
        ∷ [])
unfolding answers answer refresh_token_pair account_by_id issue_token_pair update_account
test_answers = refl

abbrev rotated : Accounts
rotated = (refresh_token_pair toy 1 Role.customer "refresh iii" stored).1

refresh_token_pair-rotates_example :
    is_accepted (refresh_token_pair toy 1 Role.customer "refresh iii" rotated).0
    ≡ str_eq (first_72 "refresh iii") (first_72 "refresh iiii")
unfolding refresh_token_pair account_by_id issue_token_pair update_account
refresh_token_pair-rotates_example =
    refresh_token_pair-rotates toy 1 Role.customer first_72 (λ salt s t. refl) "refresh iii"
      "refresh iii" stored
      {p = record { access_token = "access iii"; refresh_token = "refresh iiii" }} {d' = rotated} tt
      refl

abbrev moved : Accounts
moved = (change_password toy 1 Role.customer "old secret" "new secret" stored).1

answer-Ends_example :
    refresh_token_pair toy 1 Role.customer "refresh iii" moved ≡ (err unauthorized, moved)
unfolding change_password answer account_by_id
answer-Ends_example =
    answer-Ends toy 1 Role.customer stored tt (change 1 Role.customer "old secret" "new secret")
      {d' = moved} password_changed refl "refresh iii"

change_password-replaces_example :
    is_logged_in (authenticate toy "asha@x.in" "new secret" moved)
    ≡ str_eq (first_72 "new secret") (first_72 "new secret")
unfolding change_password account_by_id account_by_email
change_password-replaces_example =
    change_password-replaces toy 1 Role.customer first_72 (λ salt s t. refl) "old secret"
      "new secret" stored {d' = moved} tt refl "asha@x.in" "new secret" {a = customer} refl

abbrev set_anew : Accounts
set_anew = (reset_password toy 5 "link" "new secret" stored).1

reset_password-once_example :
    reset_password toy 8 "link" "third" (run toy calls set_anew)
    ≡ (err bad_link, run toy calls set_anew)
unfolding reset_password account_by_email
reset_password-once_example =
    reset_password-once toy "link" 5 8 "new secret" "third" stored calls {d' = set_anew} refl
