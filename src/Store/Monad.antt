-- ===== src/Store/Monad.antt =====
-- A service call: the state with exceptions. What was written before an exception stays written,
-- outside of a transaction.
use nation_wide.Common.{◌≡◌, ℕ, Bool, true, false, Option, none, some, ◌∷◌, if◌then◌else◌}
use nation_wide.Store.State.{World, Table, put, Action, Event}

pub data Reason : Type 0 where
  wrong_status missing_date slot_closed already_taken not_arrived no_aadhaar no_photo : Reason
  no_rate price_is_rated not_verified already_settled nothing_owing no_approver : Reason
  amount_too_far payment_missing already_processed not_a_drop_off : Reason
  coupon_inactive coupon_expired coupon_used_up : Reason
  not_an_option quote_expired not_available window_missing window_not_allowed bad_date bad_window :
      Reason
  unknown_provider blocked_cancellation : Reason

pub data Error : Type 0 where
  not_found forbidden conflict : Error
  bad_request : Reason → Error

pub data Result (A : Type 0) : Type 0 where
  ok : A → Result A
  err : Error → Result A

abbrev pub M : Type 0 → Type 0
M A = World → Result A × World

module _ {A : Type 0} where
  abbrev pub pure : A → M A
  pure a w = (ok a, w)

  abbrev pub raise : Error → M A
  raise e w = (err e, w)

  abbrev pub gets : (World → A) → M A
  gets f w = (ok (f w), w)

  abbrev pub or_raise : Option A → Error → M A
  or_raise none e w = (err e, w)
  or_raise (some a) e w = (ok a, w)

-- `bound` hands a result on.
abbrev pub bound : {A B : Type 0} → (A → M B) → Result A × World → Result B × World
bound f (ok a, w) = f a w
bound f (err e, w) = (err e, w)

infixl 5 ◌>>=◌ ◌>>◌
abbrev pub ◌>>=◌ : {A B : Type 0} → M A → (A → M B) → M B
◌>>=◌ m f w = bound f (m w)

abbrev pub ◌>>◌ : {A B : Type 0} → M A → M B → M B
m >> k = m >>= λ _. k

-- `if (test) throw e`.
abbrev pub raise_if : Bool → Error → M (Unit {0})
raise_if true e w = (err e, w)
raise_if false e w = (ok tt, w)

abbrev pub modify : (World → World) → M (Unit {0})
modify f w = (ok tt, f w)

-- `auditLog.create`.
abbrev pub log : ℕ → Action → ℕ → M (Unit {0})
log actor action id =
    modify
      λ w. record w { audit = record { actor = actor; action = action; entity_id = id } ∷ w.audit }

abbrev pub emit : Event → M (Unit {0})
emit e = modify λ w. record w { events = e ∷ w.events }

-- The call fails and the state is as it was.
abbrev pub Refused : {A : Type 0} → World → Result A × World → Type 0
Refused w (ok a, w') = ⊥
Refused w (err e, w') = w' ≡ w

-- `updateMany({ where: { id, … }, data })`: the rows that it counts are one or none.
abbrev pub claim_row :
    {A : Type 0} → (A → Bool) → (A → A) → Table A → ℕ → Option A → Option (Table A)
claim_row test change t id none = none
claim_row test change t id (some a) = if test a then some (put t id (change a)) else none

-- `$transaction`: an exception undoes the writes.
abbrev pub committed : {A : Type 0} → World → Result A × World → Result A × World
committed w (ok a, w') = (ok a, w')
committed w (err e, w') = (err e, w)

abbrev pub transaction : {A : Type 0} → M A → M A
transaction m w = committed w (m w)
