-- ===== src/Accounts/Rotation.antt =====
-- The refresh tokens that an account accepts after one of them was used, and after its password was
-- changed.
use mathlib.Core.Bool.{false≢true}
use text.Mathlib.Text.{◌==◌ as str_eq}
use nation_wide.Common.{
  ℕ, ◌+◌, ◌≡◌, refl, ap, Bool, true, false, inl, inr, Bool-cases, Option, none, some, String, All,
  ◌∙◌, Option-cases,
}
use nation_wide.Store.{Role}
use nation_wide.Accounts.Rows.{
  Account, Accounts, Crypto, TokenPair, Reply, ok, err, unauthorized, is_customer, account_by_id,
  has_row,
}
use nation_wide.Accounts.Sessions.{
  with_refresh, issue_token_pair, refresh_token_pair, refresh_found,
}
use nation_wide.Accounts.Changed.{
  IsStaff, account_by_id-lem, account_by_id-update, update_account_eq, has_row_eq, has_row_found,
  account_by_id_next,
}

abbrev pub is_accepted : Reply TokenPair → Bool
is_accepted (ok p) = true
is_accepted (err e) = false

abbrev refresh_token_of : Reply TokenPair → String
refresh_token_of (ok p) = p.refresh_token
refresh_token_of (err e) = ""

module _ (c : Crypto) (id : ℕ) (role : Role) where
  pub issue_token_pair_accepted :
      (a : Account) (d : Accounts)
      → has_row a.id a.role d ≡ true
      → is_accepted (issue_token_pair c a d).0 ≡ true
  unfolding issue_token_pair
  issue_token_pair_accepted a d h = rw h refl

  -- An account with a stored hash accepts what compares equal to it.
  refresh_token_pair_accepted :
      (token : String) (d : Accounts) {a : Account} {h : String}
      → (a.id ≡ id) × (is_customer a.role ≡ is_customer role)
      → account_by_id id role d ≡ some a
      → a.hashed_refresh_token ≡ some h
      → is_accepted (refresh_token_pair c id role token d).0 ≡ c.bcrypt_compare token h
  unfolding refresh_token_pair
  refresh_token_pair_accepted token d {a} {h} same e p =
      let has = has_row_eq d id a.id role a.role same ∙ has_row_found id role d e in
      rw e (
        simp p (elim (Bool-cases (c.bcrypt_compare token h)) [
          | inl t ↦ rw t (issue_token_pair_accepted a d has)
          | inr t ↦ rw t refl
        ]))

  issue_token_pair-stores :
      (a : Account) (d : Accounts) {p : TokenPair} {d' : Accounts}
      → (a.id ≡ id) × (is_customer a.role ≡ is_customer role)
      → account_by_id id role d ≡ some a
      → issue_token_pair c a d ≡ (ok p, d')
      → account_by_id id role d'
        ≡ some (with_refresh c (some (c.bcrypt_hash (d.next + 2) p.refresh_token)) a)
  unfolding issue_token_pair
  issue_token_pair-stores a d same e q =
      let has = has_row_eq d id a.id role a.role same ∙ has_row_found id role d e in
      let q' = rw has at q in
      rw⁻¹ (ap (λ x. x.1) q') (
        rw⁻¹ (ap (λ x. refresh_token_of x.0) q') (
          account_by_id_next id role _ _
          ∙ (ap (account_by_id id role) (update_account_eq _ d id a.id role a.role same)
              ∙ account_by_id-update id role _ d (λ b. refl) (λ b. refl) e)))

  -- A refresh that succeeds is of an account with a stored hash, and issues its tokens.
  refresh_token_pair-issues :
      (token : String) (d : Accounts) {p : TokenPair} {d' : Accounts}
      → refresh_token_pair c id role token d ≡ (ok p, d')
      → (a : Account) × (account_by_id id role d ≡ some a) × (issue_token_pair c a d ≡ (ok p, d'))
  unfolding refresh_token_pair
  refresh_token_pair-issues token d {p} {d'} q = found (account_by_id id role d) refl q
    where
      refused :
          {x : Accounts} → Path (Reply TokenPair × Accounts) (err unauthorized, x) (ok p, d') → ⊥
      refused e = false≢true (ap (λ y. is_accepted y.0) e)

      matched :
          (a : Account) (h : String)
          → a.hashed_refresh_token ≡ some h
          → refresh_found c id role token d (some a) ≡ (ok p, d')
          → issue_token_pair c a d ≡ (ok p, d')
      matched a h s e = elim (Bool-cases (c.bcrypt_compare token h)) [
        | inl t ↦ simp (s, t) at e
        | inr t ↦ absurd (refused (simp (s, t) at e))
      ]

      found :
          (o : Option Account)
          → account_by_id id role d ≡ o
          → refresh_found c id role token d o ≡ (ok p, d')
          → (a : Account) × (account_by_id id role d ≡ some a)
            × (issue_token_pair c a d ≡ (ok p, d'))
      found none f e = absurd (refused e)
      found (some a) f e = elim (Option-cases a.hashed_refresh_token) [
        | inl t ↦ absurd (refused (simp t at e))
        | inr t ↦ (a, f, matched a t.0 t.1 e)
      ]

  -- Where bcrypt compares as much of two texts as it reads, and no member of staff has the role of a
  -- customer: after a refresh that succeeds, a token is accepted at the next one exactly when as much
  -- of it as bcrypt reads is that of the token that was issued.
  pub refresh_token_pair-rotates :
      (read : String → String)
      (compares : (salt : ℕ) (s t : String)
        → c.bcrypt_compare s (c.bcrypt_hash salt t) ≡ str_eq (read s) (read t))
      (token token' : String) (d : Accounts) {p : TokenPair} {d' : Accounts}
      → All IsStaff d.admins
      → refresh_token_pair c id role token d ≡ (ok p, d')
      → is_accepted (refresh_token_pair c id role token' d').0
        ≡ str_eq (read token') (read p.refresh_token)
  refresh_token_pair-rotates read compares token token' d {p} {d'} staff q =
      let f = refresh_token_pair-issues token d q in
      let same = account_by_id-lem id role d staff f.1 in
      refresh_token_pair_accepted token' d' same (issue_token_pair-stores f.0 d same f.1 f.2) refl
      ∙ compares _ _ _
