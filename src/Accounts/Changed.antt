-- ===== src/Accounts/Changed.antt =====
-- The row that an account has after an update.
use mathlib.Core.Bool.{false≢true}
use mathlib.Core.Option.{some-injective}
use nation_wide.Common.{
  ℕ, ◌≡◌, refl, sym, true, false, inl, inr, Bool-cases, Option, none, some, List, [], ◌∷◌, ◌==◌,
  find, map, All, All-find, ap, ==_iff,
}
use nation_wide.Store.{Role}
use nation_wide.Accounts.Rows.{
  Account, Accounts, is_customer, has_id, change_row, as_customer, account_by_id, update_account,
  has_row, is_some,
}

-- No member of staff has the role of a customer.
abbrev pub IsStaff : Account → Type 0
IsStaff a = is_customer a.role ≡ false

changed_id :
    (id : ℕ) (f : Account → Account)
    → ((a : Account) → (f a).id ≡ a.id)
    → (a : Account) → (change_row id f a).id ≡ a.id
changed_id id f h a = elim (Bool-cases (a.id == id)) [ inl t ↦ rw t (h a) | inr t ↦ rw t refl ]

find_changed :
    (id : ℕ) (f : Account → Account)
    → ((a : Account) → (f a).id ≡ a.id)
    → (rows : List Account) {a : Account} → find (has_id id) rows ≡ some a
    → find (has_id id) (map (change_row id f) rows) ≡ some (f a)
find_changed id f h [] e = cc
find_changed id f h (x ∷ xs) e = elim (Bool-cases (x.id == id)) [
  | inl t ↦ rw (changed_id id f h x) (rw t (ap (λ a. some (f a)) (some-injective _ _ (rw t at e))))
  | inr t ↦ rw (changed_id id f h x) (rw t (find_changed id f h xs (rw t at e)))
]

has_id_lem :
    (id : ℕ) (rows : List Account) {a : Account} → find (has_id id) rows ≡ some a → a.id ≡ id
has_id_lem id [] e = cc
has_id_lem id (x ∷ xs) e = elim (Bool-cases (x.id == id)) [
  | inl t ↦ rw⁻¹ (some-injective _ _ (rw t at e)) ((==_iff x.id id).0 t)
  | inr t ↦ has_id_lem id xs (rw t at e)
]

pub account_by_id-lem :
    (id : ℕ) (role : Role) (d : Accounts) {a : Account}
    → All IsStaff d.admins
    → account_by_id id role d ≡ some a
    → (a.id ≡ id) × (is_customer a.role ≡ is_customer role)
unfolding account_by_id
account_by_id-lem id role d {a} h e = elim (Bool-cases (is_customer role)) [
  | inl t ↦ rw t (customer (find (has_id id) d.customers) refl (rw t at e))
  | inr t ↦
      rw t (
        has_id_lem id d.admins (rw t at e),
        (All-find IsStaff (has_id id) d.admins h (rw t at e)).0,
      )
]
  where
    customer :
        (o : Option Account)
        → find (has_id id) d.customers ≡ o
        → as_customer o ≡ some a
        → (a.id ≡ id) × (is_customer a.role ≡ true)
    customer none f e = cc
    customer (some b) f e =
        let same = some-injective _ _ e in rw⁻¹ same (has_id_lem id d.customers f, refl)

-- What an update leaves of a column-wise change.
pub account_by_id-update :
    (id : ℕ) (role : Role) (f : Account → Account) (d : Accounts) {a : Account}
    → ((a : Account) → (f a).id ≡ a.id)
    → ((a : Account)
        → f (record a { role = Role.customer }) ≡ record (f a) { role = Role.customer })
    → account_by_id id role d ≡ some a
    → account_by_id id role (update_account id role f d) ≡ some (f a)
unfolding account_by_id update_account
account_by_id-update id role f d {a} h k e = elim (Bool-cases (is_customer role)) [
  | inl t ↦ rw t (customer (find (has_id id) d.customers) refl (rw t at e))
  | inr t ↦ rw t (find_changed id f h d.admins (rw t at e))
]
  where
    customer :
        (o : Option Account)
        → find (has_id id) d.customers ≡ o
        → as_customer o ≡ some a
        → as_customer (find (has_id id) (map (change_row id f) d.customers)) ≡ some (f a)
    customer none p e = cc
    customer (some b) p e =
        rw (find_changed id f h d.customers p) (rw⁻¹ (some-injective _ _ e) (ap some (sym (k b))))

-- Only the table matters to an update and to its row.
pub update_account_eq :
    (f : Account → Account) (d : Accounts) (id id' : ℕ) (role role' : Role)
    → (id' ≡ id) × (is_customer role' ≡ is_customer role)
    → update_account id' role' f d ≡ update_account id role f d
unfolding update_account
update_account_eq f d id id' role role' e = rw (e.0) (rw (e.1) refl)

pub has_row_eq :
    (d : Accounts) (id id' : ℕ) (role role' : Role)
    → (id' ≡ id) × (is_customer role' ≡ is_customer role)
    → has_row id' role' d ≡ has_row id role d
has_row_eq d id id' role role' e = rw (e.0) (rw (e.1) refl)

pub has_row_found :
    (id : ℕ) (role : Role) (d : Accounts) {a : Account}
    → account_by_id id role d ≡ some a
    → has_row id role d ≡ true
unfolding account_by_id
has_row_found id role d {a} e = elim (Bool-cases (is_customer role)) [
  | inl t ↦ rw t (customer (find (has_id id) d.customers) (rw t at e))
  | inr t ↦ rw t (ap is_some (rw t at e))
]
  where
    customer : (o : Option Account) → as_customer o ≡ some a → is_some o ≡ true
    customer none p = cc
    customer (some b) p = refl

pub account_by_id_next :
    (id : ℕ) (role : Role) (d : Accounts) (n : ℕ)
    → account_by_id id role (record d { next = n }) ≡ account_by_id id role d
unfolding account_by_id
account_by_id_next id role d n = refl

pub has_row-some :
    (id : ℕ) (role : Role) (d : Accounts)
    → has_row id role d ≡ true
    → (a : Account) × (account_by_id id role d ≡ some a)
unfolding account_by_id
has_row-some id role d e = elim (Bool-cases (is_customer role)) [
  | inl t ↦ rw t (customer (find (has_id id) d.customers) (rw t at e))
  | inr t ↦ rw t (staff (find (has_id id) d.admins) (rw t at e))
]
  where
    customer : (o : Option Account) → is_some o ≡ true → (a : Account) × (as_customer o ≡ some a)
    customer none p = absurd (false≢true p)
    customer (some b) p = (_, refl)

    staff : (o : Option Account) → is_some o ≡ true → (a : Account) × (o ≡ some a)
    staff none p = absurd (false≢true p)
    staff (some b) p = (b, refl)
