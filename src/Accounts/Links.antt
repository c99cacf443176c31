-- ===== src/Accounts/Links.antt =====
-- The reset links whose row is used, and what keeps it so.
use mathlib.Core.Option.{some-injective, none-ne-some}
use text.Mathlib.Text.{◌==◌ as str_eq}
use nation_wide.Common.{
  ℕ, ◌≡◌, refl, ap, Bool, true, false, not, ◌&&◌, ◌||◌, inl, inr, Bool-cases, Option, none, some,
  List, [], ◌∷◌, ◌++◌, String, ◌∙◌, find, map, ==_iff, ltb, ◌==◌, if◌then◌else◌,
}
use nation_wide.Accounts.Rows.{
  Account, Accounts, ResetToken, Crypto, account_by_email, has_row, is_some,
}
use nation_wide.Accounts.Reset.{
  outdated, use_up, request_found, request_password_reset, has_hash, reset_account, reset_found,
  reset_password,
}

module _ (c : Crypto) (token : String) where
  -- The row that a link finds is used.
  abbrev pub IsSpent : List ResetToken → Type 0
  IsSpent rows =
      (r : ResetToken) × (find (has_hash c token) rows ≡ some r) × (is_some r.used_at ≡ true)

  map-IsSpent :
      (f : ResetToken → ResetToken)
      → ((r : ResetToken) → (f r).token_hash ≡ r.token_hash)
      → ((r : ResetToken) → is_some r.used_at ≡ true → is_some (f r).used_at ≡ true)
      → (rows : List ResetToken) → IsSpent rows
      → IsSpent (map f rows)
  map-IsSpent f h k [] s = absurd (none-ne-some _ (s.1))
  map-IsSpent f h k (x ∷ xs) s = elim (Bool-cases (has_hash c token x)) [
    | inl t ↦ (f x, rw (h x) (rw t refl), k x (rw (some-injective _ _ (rw t at s.1)) s.2))
    | inr t ↦
        let rest = map-IsSpent f h k xs (s.0, rw t at s.1, s.2) in
        (rest.0, rw (h x) (rw t rest.1), rest.2)
  ]

  append-IsSpent : (rows more : List ResetToken) → IsSpent rows → IsSpent (rows ++ more)
  append-IsSpent [] more s = absurd (none-ne-some _ (s.1))
  append-IsSpent (x ∷ xs) more s = elim (Bool-cases (has_hash c token x)) [
    | inl t ↦ (x, rw t refl, rw (some-injective _ _ (rw t at s.1)) s.2)
    | inr t ↦
        let rest = append-IsSpent xs more (s.0, rw t at s.1, s.2) in (rest.0, rw t rest.1, rest.2)
  ]

  outdated-hash :
      (email : String) (now : ℕ) (r : ResetToken) → (outdated email now r).token_hash ≡ r.token_hash
  outdated-hash email now r = elim (Bool-cases (str_eq r.email email && not (is_some r.used_at))) [
    | inl t ↦ rw t refl
    | inr t ↦ rw t refl
  ]

  outdated-used :
      (email : String) (now : ℕ) (r : ResetToken)
      → is_some r.used_at ≡ true
      → is_some (outdated email now r).used_at ≡ true
  outdated-used email now r h =
      elim (Bool-cases (str_eq r.email email && not (is_some r.used_at))) [
        | inl t ↦ rw t refl
        | inr t ↦ rw t h
      ]

  use_up-hash : (id now : ℕ) (r : ResetToken) → (use_up id now r).token_hash ≡ r.token_hash
  use_up-hash id now r = elim (Bool-cases (r.id == id)) [ inl t ↦ rw t refl | inr t ↦ rw t refl ]

  use_up-used :
      (id now : ℕ) (r : ResetToken)
      → is_some r.used_at ≡ true
      → is_some (use_up id now r).used_at ≡ true
  use_up-used id now r h = elim (Bool-cases (r.id == id)) [ inl t ↦ rw t refl | inr t ↦ rw t h ]

  pub request-IsSpent :
      (now : ℕ) (email : String) (d : Accounts)
      → IsSpent d.resets
      → IsSpent (request_password_reset c now email d).resets
  unfolding request_password_reset
  request-IsSpent now email d s = found (account_by_email (c.normalize email) d)
    where
      found : (o : Option Account) → IsSpent (request_found c (c.normalize email) now d o).resets
      found none = s
      found (some a) = elim (Bool-cases a.is_active) [
        | inl t ↦ rw t (
            append-IsSpent _ _ (
              map-IsSpent _ (outdated-hash (c.normalize email) now)
                (outdated-used (c.normalize email) now) d.resets s))
        | inr t ↦ rw t s
      ]

  either :
      {A : Type 0} (b : Bool) (x y : A × Accounts)
      → IsSpent x.1.resets
      → IsSpent y.1.resets
      → IsSpent (if b then x else y).1.resets
  either true x y h k = h
  either false x y h k = k

  reset_account-IsSpent :
      (now : ℕ) (new : String) (r : ResetToken) (d : Accounts) (o : Option Account)
      → IsSpent d.resets
      → IsSpent (reset_account c now new r d o).1.resets
  reset_account-IsSpent now new r d none s = s
  reset_account-IsSpent now new r d (some a) s =
      either (has_row a.id a.role d) _ _
        (map-IsSpent _ (use_up-hash r.id now) (use_up-used r.id now) d.resets s) s

  pub reset-IsSpent :
      (now : ℕ) (other new : String) (d : Accounts)
      → IsSpent d.resets
      → IsSpent (reset_password c now other new d).1.resets
  unfolding reset_password
  reset-IsSpent now other new d s = found (find (has_hash c other) d.resets)
    where
      found : (o : Option ResetToken) → IsSpent (reset_found c now new d o).1.resets
      found none = s
      found (some r) =
          either (is_some r.used_at || ltb r.expires_at now) _ _ s
            (reset_account-IsSpent now new r d (account_by_email r.email d) s)

  pub used_up :
      (id now : ℕ) (rows : List ResetToken) (r : ResetToken)
      → find (has_hash c token) rows ≡ some r
      → r.id ≡ id
      → IsSpent (map (use_up id now) rows)
  used_up id now [] r e h = absurd (none-ne-some _ e)
  used_up id now (x ∷ xs) r e h = elim (Bool-cases (has_hash c token x)) [
    | inl t ↦
        let same = some-injective _ _ (rw t at e) in
        (use_up id now x, rw (use_up-hash id now x) (rw t refl), marked (ap (λ y. y.id) same ∙ h))
    | inr t ↦
        let rest = used_up id now xs r (rw t at e) h in
        (rest.0, rw (use_up-hash id now x) (rw t rest.1), rest.2)
  ]
    where
      marked : x.id ≡ id → is_some (use_up id now x).used_at ≡ true
      marked p = rw ((==_iff x.id id).1 p) refl
