-- ===== src/Accounts/Calls.antt =====
-- The calls of the sign-in pages, in any order, by anyone.
use nation_wide.Common.{ℕ, String, List, [], ◌∷◌}
use nation_wide.Store.{Role}
use nation_wide.Accounts.Rows.{Account, Accounts, Crypto, AuthError, Reply, ok, err, TokenPair}
use nation_wide.Accounts.Sessions.{
  RegisterDto, GoogleProfile, authenticate, issue_token_pair, refresh_token_pair,
  revoke_refresh_token, change_password, register, login_with_google,
}
use nation_wide.Accounts.Reset.{request_password_reset, reset_password}

pub data Call : Type 0 where
  log_in : (email password : String) → Call
  sign_up : (dto : RegisterDto) → Call
  google_log_in : (profile : GoogleProfile) → Call
  refresh : (id : ℕ) (role : Role) (token : String) → Call
  log_out : (id : ℕ) (role : Role) → Call
  change : (id : ℕ) (role : Role) (current new : String) → Call
  ask_reset : (now : ℕ) (email : String) → Call
  reset : (now : ℕ) (token new : String) → Call

pub data Answer : Type 0 where
  tokens : TokenPair → Answer
  done : Answer
  refused : AuthError → Answer

abbrev pub to_tokens : Reply TokenPair × Accounts → Answer × Accounts
to_tokens (ok p, d) = (tokens p, d)
to_tokens (err e, d) = (refused e, d)

abbrev pub to_done : Reply (Unit {0}) × Accounts → Answer × Accounts
to_done (ok a, d) = (done, d)
to_done (err e, d) = (refused e, d)

module _ (c : Crypto) where
  -- A page that signs in issues the tokens of the account.
  abbrev pub signed_in : Reply Account × Accounts → Answer × Accounts
  signed_in (ok a, d) = to_tokens (issue_token_pair c a d)
  signed_in (err e, d) = (refused e, d)

  unfoldable pub answer : Call → Accounts → Answer × Accounts
  answer (log_in email password) d = signed_in (authenticate c email password d, d)
  answer (sign_up dto) d = signed_in (register c dto d)
  answer (google_log_in profile) d = signed_in (login_with_google c profile d)
  answer (refresh id role token) d = to_tokens (refresh_token_pair c id role token d)
  answer (log_out id role) d = to_done (revoke_refresh_token c id role d)
  answer (change id role current new) d = to_done (change_password c id role current new d)
  answer (ask_reset now email) d = (done, request_password_reset c now email d)
  answer (reset now token new) d = to_done (reset_password c now token new d)

  unfoldable pub run : List Call → Accounts → Accounts
  run [] d = d
  run (k ∷ ks) d = run ks (answer k d).1

  -- What a caller sees of a sequence of calls.
  unfoldable pub answers : List Call → Accounts → List Answer
  answers [] d = []
  answers (k ∷ ks) d = (answer k d).0 ∷ answers ks (answer k d).1
