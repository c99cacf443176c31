-- ===== src/Accounts/Ended.antt =====
-- The calls after which an account has no session left.
use mathlib.Core.Bool.{false≢true}
use mathlib.Core.Option.{some-injective, none-ne-some}
use nation_wide.Common.{
  ℕ, ◌≡◌, refl, sym, ap, subst, Bool, true, false, inl, inr, Bool-cases, Option, none, some, String,
  All, ◌∙◌, Option-cases,
}
use nation_wide.Store.{Role}
use nation_wide.Accounts.Rows.{
  Account, Accounts, Crypto, TokenPair, AuthError, Reply, ok, err, unauthorized, missing_row,
  account_by_id, update_account, has_row,
}
use nation_wide.Accounts.Sessions.{
  with_refresh, with_password, matches, refresh_token_pair, refresh_found, revoke_refresh_token,
  change_password, change_found,
}
use nation_wide.Accounts.Calls.{
  Call, refresh, log_out, change, Answer, tokens, done, refused, answer, to_done, to_tokens,
}
use nation_wide.Accounts.Rotation.{is_accepted, issue_token_pair_accepted}
use nation_wide.Accounts.Changed.{
  IsStaff, account_by_id-lem, account_by_id-update, has_row_eq, has_row_found, has_row-some,
  account_by_id_next,
}

abbrev pub is_done : Reply (Unit {0}) → Bool
is_done (ok a) = true
is_done (err e) = false

abbrev is_refused : Answer → Bool
is_refused (tokens p) = false
is_refused done = false
is_refused (refused e) = true

to_tokens-refused :
    (x : Reply TokenPair × Accounts) {e : AuthError} {d' : Accounts}
    → to_tokens x ≡ (refused e, d')
    → (e' : AuthError) × (x ≡ (err e', d'))
to_tokens-refused (ok p, d) q = absurd (false≢true (ap (λ y. is_refused y.0) q))
to_tokens-refused (err e', d) q = (e', ap (λ y. (err e', y.1)) q)

to_done-done :
    (x : Reply (Unit {0}) × Accounts) {d' : Accounts} → to_done x ≡ (done, d') → x ≡ (ok tt, d')
to_done-done (ok a, d) q = ap (λ y. (ok tt, y.1)) q
to_done-done (err e, d) q = absurd (false≢true (sym (ap (λ y. is_refused y.0) q)))

-- A refused refresh, a log-out, and a change of the password.
pub data Ends (id : ℕ) (role : Role) : Call → Answer → Type 0 where
  refresh_refused :
      {token : String} {e : AuthError} → Ends id role (refresh id role token) (refused e)
  logged_out : Ends id role (log_out id role) done
  password_changed : {current new : String} → Ends id role (change id role current new) done

module _ (c : Crypto) (id : ℕ) (role : Role) where
  abbrev HasNoSession : Accounts → Type 0
  HasNoSession d = (a : Account) → account_by_id id role d ≡ some a → a.hashed_refresh_token ≡ none

  without :
      (d : Accounts)
      → HasNoSession d
      → (token : String) → refresh_token_pair c id role token d ≡ (err unauthorized, d)
  unfolding refresh_token_pair
  without d h token = elim (Option-cases (account_by_id id role d)) [
    | inl e ↦ rw e refl
    | inr e ↦ rw (e.1) (simp (h e.0 e.1) refl)
  ]

  updated :
      (f : Account → Account) (d : Accounts) {a : Account}
      → ((a : Account) → (f a).id ≡ a.id)
      → ((a : Account)
          → f (record a { role = Role.customer }) ≡ record (f a) { role = Role.customer })
      → ((a : Account) → (f a).hashed_refresh_token ≡ none)
      → account_by_id id role d ≡ some a
      → HasNoSession (update_account id role f d)
  updated f d {a} h k l e b p =
      ap (λ x. x.hashed_refresh_token)
        (some-injective _ _ (sym p ∙ account_by_id-update id role f d h k e))
      ∙ l a

  revoked :
      (d : Accounts) → has_row id role d ≡ true → HasNoSession (revoke_refresh_token c id role d).1
  unfolding revoke_refresh_token
  revoked d h = rw h (
      updated (with_refresh c none) d (λ b. refl) (λ b. refl) (λ b. refl)
        (has_row-some id role d h).1)

  module _ (d : Accounts) (staff : All IsStaff d.admins) where
    refreshed :
        (token : String) {e : AuthError} {d' : Accounts}
        → refresh_token_pair c id role token d ≡ (err e, d')
        → HasNoSession d'
    unfolding refresh_token_pair
    refreshed token {e} {d'} q = found (account_by_id id role d) refl q
      where
        matched :
            (a : Account) (h : String)
            → account_by_id id role d ≡ some a
            → a.hashed_refresh_token ≡ some h
            → refresh_found c id role token d (some a) ≡ (err e, d')
            → HasNoSession d'
        matched a h f s p = elim (Bool-cases (c.bcrypt_compare token h)) [
          | inl t ↦
              let has =
                has_row_eq d id a.id role a.role (account_by_id-lem id role d staff f)
                ∙ has_row_found id role d f in
              let same = ap (λ x. is_accepted x.0) (simp (s, t) at p) in
              absurd (false≢true (sym same ∙ issue_token_pair_accepted c id role a d has))
          | inr t ↦
              subst HasNoSession (ap (λ x. x.1) (simp (s, t) at p))
                (revoked d (has_row_found id role d f))
        ]

        found :
            (o : Option Account)
            → account_by_id id role d ≡ o
            → refresh_found c id role token d o ≡ (err e, d')
            → HasNoSession d'
        found none f p =
            subst HasNoSession (ap (λ x. x.1) p) (λ a g. absurd (none-ne-some _ (sym f ∙ g)))
        found (some a) f p = elim (Option-cases a.hashed_refresh_token) [
          | inl t ↦
              subst HasNoSession (ap (λ x. x.1) (simp t at p))
                (λ b g. ap (λ x. x.hashed_refresh_token) (some-injective _ _ (sym g ∙ f)) ∙ t)
          | inr t ↦ matched a t.0 f t.1 p
        ]

    changed :
        (current new : String) {d' : Accounts}
        → change_password c id role current new d ≡ (ok tt, d')
        → HasNoSession d'
    unfolding change_password
    changed current new {d'} q = found (account_by_id id role d) refl q
      where
        found :
            (o : Option Account)
            → account_by_id id role d ≡ o
            → change_found c id role current new d o ≡ (ok tt, d')
            → HasNoSession d'
        found none f p = absurd (false≢true (ap (λ x. is_done x.0) p))
        found (some a) f p = elim (Bool-cases (matches c current a.password_hash)) [
          | inl t ↦ subst HasNoSession (ap (λ x. x.1) (rw t at p)) (λ b g.
              updated (with_password c (c.bcrypt_hash d.next new)) d (λ x. refl) (λ x. refl)
                (λ x. refl) f b (sym (account_by_id_next id role _ _) ∙ g))
          | inr t ↦ absurd (false≢true (ap (λ x. is_done x.0) (rw t at p)))
        ]

    out : {d' : Accounts} → revoke_refresh_token c id role d ≡ (ok tt, d') → HasNoSession d'
    unfolding revoke_refresh_token
    out {d'} q = elim (Bool-cases (has_row id role d)) [
      | inl t ↦ subst HasNoSession (ap (λ x. x.1) q) (revoked d t)
      | inr t ↦ absurd (false≢true (ap (λ x. is_done x.0) (missing t q)))
    ]
      where
        missing :
            has_row id role d ≡ false
            → revoke_refresh_token c id role d ≡ (ok tt, d')
            → Path (Reply (Unit {0}) × Accounts) (err missing_row, d) (ok tt, d')
        missing t q = rw t at q

    -- Where no member of staff has the role of a customer: after a refused refresh of an account, its
    -- log-out or a change of its password, every refresh token is refused and nothing changes.
    pub answer-Ends :
        (k : Call) {r : Answer} {d' : Accounts}
        → Ends id role k r
        → answer c k d ≡ (r, d')
        → (token : String) → refresh_token_pair c id role token d' ≡ (err unauthorized, d')
    unfolding answer
    answer-Ends _ {d'} (refresh_refused {token = t}) q =
        without d' (refreshed t (to_tokens-refused (refresh_token_pair c id role t d) q).1)
    answer-Ends _ {d'} logged_out q =
        without d' (out (to_done-done (revoke_refresh_token c id role d) q))
    answer-Ends _ {d'} (password_changed {current = p} {new = n}) q =
        without d' (changed p n (to_done-done (change_password c id role p n d) q))
