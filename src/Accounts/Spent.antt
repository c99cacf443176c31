-- ===== src/Accounts/Spent.antt =====
-- A reset link works once.
use mathlib.Core.Bool.{false≢true}
use nation_wide.Common.{
  ℕ, ◌≡◌, refl, sym, ap, subst, ◌||◌, inl, inr, Bool-cases, Option, none, some, List, [], ◌∷◌,
  String, find, ltb, arith,
}
use nation_wide.Accounts.Rows.{
  Account, Accounts, ResetToken, Crypto, Reply, ok, err, AuthError, bad_link, account_by_email,
  update_account, has_row, is_some,
}
use nation_wide.Accounts.Links.{IsSpent, request-IsSpent, reset-IsSpent, used_up}
use nation_wide.Accounts.Ended.{is_done}
use nation_wide.Accounts.Sessions.{
  issue_token_pair, refresh_token_pair, revoke_refresh_token, change_password, register,
  login_with_google,
}
use nation_wide.Accounts.Reset.{has_hash, reset_account, reset_found, reset_password}
use nation_wide.Accounts.Calls.{
  Call, answer, run, log_in, sign_up, google_log_in, refresh, log_out, change, ask_reset, reset,
  to_done,
}

module _ (c : Crypto) (token : String) where
  -- Every other call leaves the links as they are.
  abbrev KeepsLinks : (d : Accounts) → Call → Type 0
  KeepsLinks d (ask_reset now email) = Unit
  KeepsLinks d (reset now t new) = Unit
  KeepsLinks d k = (answer c k d).1.resets ≡ d.resets

  answer-KeepsLinks : (k : Call) (d : Accounts) → KeepsLinks d k
  unfolding answer register login_with_google refresh_token_pair revoke_refresh_token
      change_password issue_token_pair update_account
  answer-KeepsLinks k d = ground arith

  answer-IsSpent :
      (k : Call) (d : Accounts) → IsSpent c token d.resets → IsSpent c token (answer c k d).1.resets
  unfolding answer
  answer-IsSpent (ask_reset now email) d s = request-IsSpent c token now email d s
  answer-IsSpent (reset now other new) d s =
      done_keeps (reset_password c now other new d) (reset-IsSpent c token now other new d s)
    where
      done_keeps :
          (x : Reply (Unit {0}) × Accounts)
          → IsSpent c token x.1.resets
          → IsSpent c token (to_done x).1.resets
      done_keeps (ok a, d) s = s
      done_keeps (err e, d) s = s
  answer-IsSpent (log_in email password) d s =
      subst (IsSpent c token) (sym (answer-KeepsLinks (log_in email password) d)) s
  answer-IsSpent (sign_up dto) d s =
      subst (IsSpent c token) (sym (answer-KeepsLinks (sign_up dto) d)) s
  answer-IsSpent (google_log_in p) d s =
      subst (IsSpent c token) (sym (answer-KeepsLinks (google_log_in p) d)) s
  answer-IsSpent (refresh id role t) d s =
      subst (IsSpent c token) (sym (answer-KeepsLinks (refresh id role t) d)) s
  answer-IsSpent (log_out id role) d s =
      subst (IsSpent c token) (sym (answer-KeepsLinks (log_out id role) d)) s
  answer-IsSpent (change id role old new) d s =
      subst (IsSpent c token) (sym (answer-KeepsLinks (change id role old new) d)) s

  run-IsSpent :
      (ks : List Call) (d : Accounts)
      → IsSpent c token d.resets
      → IsSpent c token (run c ks d).resets
  unfolding run
  run-IsSpent [] d s = s
  run-IsSpent (k ∷ ks) d s = run-IsSpent ks (answer c k d).1 (answer-IsSpent k d s)

  spent :
      (now : ℕ) (new : String) (d : Accounts)
      → IsSpent c token d.resets
      → reset_password c now token new d ≡ (err bad_link, d)
  unfolding reset_password
  spent now new d s = rw (s.1) (rw (s.2) refl)

  first :
      (now : ℕ) (new : String) (d : Accounts) {d' : Accounts}
      → reset_password c now token new d ≡ (ok tt, d')
      → IsSpent c token d'.resets
  unfolding reset_password
  first now new d {d'} q = found (find (has_hash c token) d.resets) refl q
    where
      refused :
          {e : AuthError} {x : Accounts}
          → Path (Reply (Unit {0}) × Accounts) (err e, x) (ok tt, d')
          → ⊥
      refused p = false≢true (ap (λ y. is_done y.0) p)

      account :
          (r : ResetToken) (o : Option Account)
          → find (has_hash c token) d.resets ≡ some r
          → reset_account c now new r d o ≡ (ok tt, d')
          → IsSpent c token d'.resets
      account r none f p = absurd (refused p)
      account r (some a) f p = elim (Bool-cases (has_row a.id a.role d)) [
        | inl t ↦
            subst (λ x. IsSpent c token x.resets) (ap (λ x. x.1) (rw t at p))
              (used_up c token r.id now d.resets r f refl)
        | inr t ↦ absurd (refused (rw t at p))
      ]

      found :
          (o : Option ResetToken)
          → find (has_hash c token) d.resets ≡ o
          → reset_found c now new d o ≡ (ok tt, d')
          → IsSpent c token d'.resets
      found none f p = absurd (refused p)
      found (some r) f p = elim (Bool-cases (is_some r.used_at || ltb r.expires_at now)) [
        | inl t ↦ absurd (refused (rw t at p))
        | inr t ↦ account r (account_by_email r.email d) f (rw t at p)
      ]

  -- Once a reset link has set a password, it is refused, whatever calls were made since, at any time
  -- and with any new password; the refused call changes nothing.
  pub reset_password-once :
      (now later : ℕ) (new other : String) (d : Accounts) (ks : List Call) {d' : Accounts}
      → reset_password c now token new d ≡ (ok tt, d')
      → reset_password c later token other (run c ks d') ≡ (err bad_link, run c ks d')
  reset_password-once now later new other d ks {d'} q =
      spent later other (run c ks d') (run-IsSpent ks d' (first now new d q))
