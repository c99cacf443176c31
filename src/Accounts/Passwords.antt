-- ===== src/Accounts/Passwords.antt =====
-- Who can log in after a password was changed.
use mathlib.Core.Bool.{false≢true}
use mathlib.Core.Option.{some-injective}
use text.Mathlib.Text.{◌==◌ as str_eq}
use nation_wide.Common.{
  ℕ, ◌≡◌, refl, sym, ap, subst, Bool, true, false, not, ◌&&◌, inl, inr, Bool-cases, Option, none,
  some, List, [], ◌∷◌, String, All, All-find, find, map, ◌==◌, if◌then◌else◌, arith, ◌∙◌, ◌+◌,
}
use nation_wide.Store.{Role}
use nation_wide.Accounts.Rows.{
  Account, Accounts, Crypto, Reply, ok, err, unauthorized, is_customer, account_by_id,
  account_by_email, has_email, change_row, as_customer, or_else, update_account,
}
use nation_wide.Accounts.Sessions.{
  authenticate, checked, with_password, change_password, change_found, matches,
}
use nation_wide.Accounts.Changed.{IsStaff}

abbrev pub is_logged_in : Reply Account → Bool
is_logged_in (ok a) = true
is_logged_in (err e) = false

-- The account is the one of the id, among the customers or among the staff as the role says.
abbrev pub is_account : ℕ → Role → Account → Bool
is_account id role a =
    (a.id == id) && (if is_customer role then is_customer a.role else not (is_customer a.role))

abbrev moved : (Account → Account) → Option Account → Option Account
moved g none = none
moved g (some a) = some (g a)

find-moved :
    (q : Account → Bool) (g : Account → Account) (rows : List Account)
    → ((a : Account) → q (g a) ≡ q a)
    → find q (map g rows) ≡ moved g (find q rows)
find-moved q g [] h = refl
find-moved q g (x ∷ xs) h = elim (Bool-cases (q x)) [
  | inl t ↦ rw (h x) (rw t refl)
  | inr t ↦ rw (h x) (rw t (find-moved q g xs h))
]

module _ (c : Crypto) (id : ℕ) (role : Role) where
  abbrev set_to : String → Account → Account
  set_to h = change_row id (with_password c h)

  same_email : (h email : String) (a : Account) → has_email email (set_to h a) ≡ has_email email a
  same_email h email a = elim (Bool-cases (a.id == id)) [ inl t ↦ rw t refl | inr t ↦ rw t refl ]

  abbrev changed : String → Account → Account
  changed h a = if is_account id role a then with_password c h a else a

  among_customers :
      (h : String) (x y : Option Account) (a : Account)
      → is_customer role ≡ true
      → ((b : Account) → x ≡ some b → IsStaff b)
      → or_else x (as_customer y) ≡ some a
      → or_else x (as_customer (moved (set_to h) y)) ≡ some (changed h a)
  among_customers h (some b) y a r staff e =
      let s = staff b refl in
      subst (λ v. Path (Option Account) (some b) (some (changed h v))) (some-injective _ _ e)
        (rw r (rw s (ground arith)))
  among_customers h none none a r staff e = cc
  among_customers h none (some b) a r staff e =
      subst (λ v. Path (Option Account) (as_customer (some (set_to h b))) (some (changed h v)))
        (some-injective _ _ e)
        (elim (Bool-cases (b.id == id)) [ inl t ↦ rw r (rw t refl) | inr t ↦ rw t refl ])

  among_staff :
      (h : String) (x y : Option Account) (a : Account)
      → is_customer role ≡ false
      → ((b : Account) → x ≡ some b → IsStaff b)
      → or_else x (as_customer y) ≡ some a
      → or_else (moved (set_to h) x) (as_customer y) ≡ some (changed h a)
  among_staff h (some b) y a r staff e =
      let s = staff b refl in
      subst (λ v. Path (Option Account) (some (set_to h b)) (some (changed h v)))
        (some-injective _ _ e)
        (elim (Bool-cases (b.id == id)) [ inl t ↦ rw r (rw s (rw t refl)) | inr t ↦ rw t refl ])
  among_staff h none none a r staff e = cc
  among_staff h none (some b) a r staff e =
      subst (λ v. Path (Option Account) (as_customer (some b)) (some (changed h v)))
        (some-injective _ _ e) (rw r (ground arith))

  account_by_email-update :
      (h email : String) (d : Accounts) {a : Account}
      → All IsStaff d.admins
      → account_by_email email d ≡ some a
      → account_by_email email (update_account id role (with_password c h) d) ≡ some (changed h a)
  unfolding account_by_email update_account
  account_by_email-update h email d {a} staff e =
      let is_staff : (b : Account) → find (has_email email) d.admins ≡ some b → IsStaff b =
        λ b k. (All-find IsStaff (has_email email) d.admins staff k).0 in
      let admin = find (has_email email) d.admins in
      let customer = find (has_email email) d.customers in
      elim (Bool-cases (is_customer role)) [
        | inl r ↦
            let found : account_by_email email (update_account id role (with_password c h) d)
                ≡ or_else admin (as_customer (moved (set_to h) customer)) =
              rw r (
                rw (find-moved (has_email email) (set_to h) d.customers (same_email h email))
                  refl) in
            found ∙ among_customers h admin customer a r is_staff e
        | inr r ↦
            let found : account_by_email email (update_account id role (with_password c h) d)
                ≡ or_else (moved (set_to h) admin) (as_customer customer) =
              rw r
                (rw (find-moved (has_email email) (set_to h) d.admins (same_email h email)) refl) in
            found ∙ among_staff h admin customer a r is_staff e
      ]

  -- A change that succeeds has stored the hash of the new password.
  change_password-stores :
      (current new : String) (d : Accounts) {d' : Accounts}
      → change_password c id role current new d ≡ (ok tt, d')
      → d' ≡ record (update_account id role (with_password c (c.bcrypt_hash d.next new)) d) {
        next = d.next + 1;
      }
  unfolding change_password
  change_password-stores current new d {d'} q = found (account_by_id id role d) q
    where
      refused :
          {x : Accounts} → Path (Reply (Unit {0}) × Accounts) (err unauthorized, x) (ok tt, d') → ⊥
      refused e = false≢true (ap (λ y. is_done y.0) e)
        where
          is_done : Reply (Unit {0}) → Bool
          is_done (ok a) = true
          is_done (err e) = false

      found :
          (o : Option Account)
          → change_found c id role current new d o ≡ (ok tt, d')
          → d' ≡ record (update_account id role (with_password c (c.bcrypt_hash d.next new)) d) {
            next = d.next + 1;
          }
      found none e = absurd (refused e)
      found (some a) e = elim (Bool-cases (matches c current a.password_hash)) [
        | inl t ↦ sym (ap (λ y. y.1) (rw t at e))
        | inr t ↦ absurd (refused (rw t at e))
      ]

  account_by_email_next :
      (email : String) (d : Accounts) (n : ℕ)
      → account_by_email email (record d { next = n }) ≡ account_by_email email d
  unfolding account_by_email
  account_by_email_next email d n = refl

  checked-new :
      (h password : String) (a : Account)
      → is_logged_in (checked c password (some (with_password c h a)))
        ≡ (a.is_active && c.bcrypt_compare password h)
  checked-new h password a = ground arith

  checked-changed :
      (h password : String) (a : Account)
      → is_logged_in (checked c password (some (changed h a))) ≡ (
          if is_account id role a
          then a.is_active && c.bcrypt_compare password h
          else is_logged_in (checked c password (some a)))
  checked-changed h password a = by_account (is_account id role a)
    where
      by_account :
          (b : Bool)
          → is_logged_in (checked c password (some (if b then with_password c h a else a))) ≡ (
              if b
              then a.is_active && c.bcrypt_compare password h
              else is_logged_in (checked c password (some a)))
      by_account true = checked-new h password a
      by_account false = refl

  -- Where bcrypt compares as much of two texts as it reads, and no member of staff has the role of a
  -- customer: after a change of a password that succeeds, the account logs in with a password
  -- exactly when it is active and as much of it as bcrypt reads is that of the new one. Each other
  -- account that an email finds logs in exactly as before.
  pub change_password-replaces :
      (read : String → String)
      (compares : (salt : ℕ) (s t : String)
        → c.bcrypt_compare s (c.bcrypt_hash salt t) ≡ str_eq (read s) (read t))
      (current new : String) (d : Accounts) {d' : Accounts}
      → All IsStaff d.admins
      → change_password c id role current new d ≡ (ok tt, d')
      → (email password : String) {a : Account} → account_by_email email d ≡ some a
      → is_logged_in (authenticate c email password d') ≡ (
          if is_account id role a
          then a.is_active && str_eq (read password) (read new)
          else is_logged_in (authenticate c email password d))
  unfolding authenticate
  change_password-replaces read compares current new d {d'} staff q email password {a} e =
      let h = c.bcrypt_hash d.next new in
      let stored : account_by_email email d' ≡ some (changed h a) =
        ap (account_by_email email) (change_password-stores current new d q)
        ∙ account_by_email_next email _ _
        ∙ account_by_email-update h email d staff e in
      rw stored (rw e (rw⁻¹ (compares d.next password new) (checked-changed h password a)))
