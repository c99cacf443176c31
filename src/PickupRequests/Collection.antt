-- ===== src/PickupRequests/Collection.antt =====
-- Payment at the door: `payableFor`, `collectPayment`, `requireDueApprover`, `deferPayment`.
use nation_wide.Common.{
  ℕ, zero, suc, ◌+◌, ◌-◌, ◌*◌, max, Bool, true, false, not, ◌&&◌, ◌||◌, Option, none, some, ltb,
  leb, if◌then◌else◌, String, or_default,
}
use nation_wide.Money.{round2}
use nation_wide.Store.{
  World, Table, M, bad_request, not_verified, already_settled, nothing_owing, no_approver,
  amount_too_far, pure, or_raise, ◌>>=◌, ◌>>◌, raise_if, log, emit, Action, notified, Template,
  PickupRequest, AdminUser, Role, PaymentMethod,
}
use nation_wide.PickupRequests.Access.{is_none, find_one, find_one_for_partner, claim_request}

-- What the customer pays: the price, less the coupon, and never below zero.
unfoldable pub payable_for : PickupRequest → ℕ
payable_for r =
    round2 (or_default r.verified_price r.estimated_price - or_default r.discount_amount 0) 1

-- The DTO requires the amount and the method unless the payment is deferred, and the approver
-- where a due is left, which the service does not test again.
pub record CollectPayment : Type 0 where
  pub deferred : Bool
  pub defer_remainder : Bool
  pub due_approved_by : Option ℕ
  pub due_note : Option String
  pub payment_method : PaymentMethod
  pub collected_amount : ℕ
  pub payment_reference : Option String
  pub payment_notes : Option String

abbrev pub is_office : Role → Bool
is_office Role.customer = false
is_office Role.admin = true
is_office Role.super_admin = true
is_office Role.pickup_partner = false

-- `findFirst` on an id, an active account and an office role.
abbrev pub active_admin : Option AdminUser → Option AdminUser
active_admin none = none
active_admin (some u) = if u.is_active && is_office u.role then some u else none

-- The first one among the ids that were given out.
unfoldable pub first_admin : Table AdminUser → ℕ → Option AdminUser
first_admin t zero = none
first_admin t (suc n) = elim (first_admin t n) [ none ↦ active_admin (t n) | some u ↦ some u ]

-- `where: { id: undefined }` is no condition on the id: any active account of the office is found.
abbrev pub due_approver : Option ℕ → World → Option AdminUser
due_approver none w = first_admin w.users w.next_id
due_approver (some id) w = active_admin (w.users id)

unfoldable pub require_due_approver : Option ℕ → M AdminUser
require_due_approver id w = or_raise (due_approver id w) (bad_request no_approver) w

abbrev pub is_some : {A : Type 0} → Option A → Bool
is_some a = not (is_none a)

abbrev pub is_settled : PickupRequest → Bool
is_settled r = is_some r.payment_collected_at || is_some r.payment_deferred_at

abbrev pub defer_row : ℕ → ℕ → Option String → PickupRequest → PickupRequest
defer_row now approver note r = record r {
  payment_deferred_at = some now;
  due_approved_by = some approver;
  due_note = note;
}

-- The row was read before, by its id; the write tests it again.
unfoldable pub defer_payment : ℕ → ℕ → PickupRequest → CollectPayment → ℕ → M PickupRequest
unfolding require_due_approver claim_request find_one
defer_payment now id r dto partner = do
  approver ← require_due_approver dto.due_approved_by
  claim_request id (λ a. not (is_settled a)) (defer_row now approver.id dto.due_note)
      (bad_request already_settled)
  log partner Action.payment_deferred id
  find_one id

abbrev pub distance : ℕ → ℕ → ℕ
distance a b = (a - b) + (b - a)

-- Five percent of the price, but never less than 50 rupees, in hundredths of a paisa.
abbrev pub tolerance : ℕ → ℕ
tolerance expected = max (expected * 5) (5_000 * 100)

-- The control on the amount: an approver for a remainder, else the tolerance.
unfoldable pub check_amount : CollectPayment → ℕ → M (Option ℕ)
unfolding require_due_approver
check_amount dto expected =
    if dto.defer_remainder
    then (raise_if (leb expected dto.collected_amount) (bad_request nothing_owing)
        >> (require_due_approver dto.due_approved_by >>= λ a. pure (some a.id)))
    else (raise_if (ltb (tolerance expected) (100 * distance dto.collected_amount expected))
          (bad_request amount_too_far)
        >> pure none)

abbrev pub collect_row : ℕ → CollectPayment → Option ℕ → PickupRequest → PickupRequest
collect_row now dto approver r = record r {
  payment_method = some dto.payment_method;
  collected_amount = some dto.collected_amount;
  payment_reference = dto.payment_reference;
  payment_notes = dto.payment_notes;
  payment_collected_at = some now;
  due_approved_by = if is_some approver then approver else r.due_approved_by;
  due_note = if is_some approver then dto.due_note else r.due_note;
}

-- The rest of `collectPayment`, for a row that was read before.
unfoldable pub collect : ℕ → ℕ → PickupRequest → CollectPayment → ℕ → M PickupRequest
unfolding check_amount claim_request find_one
collect now id r dto partner = do
  approver ← check_amount dto (payable_for r)
  claim_request id (λ a. not (is_settled a)) (collect_row now dto approver)
      (bad_request already_settled)
  log partner Action.payment_collected id
  emit (notified r.customer_id Template.payment_collected)
  find_one id

-- The code from the checks on, for a row that was read at some earlier moment.
unfoldable pub settle : ℕ → ℕ → CollectPayment → ℕ → PickupRequest → M PickupRequest
unfolding defer_payment collect
settle now id dto partner r = do
  raise_if (is_none r.verified_at) (bad_request not_verified)
  raise_if (is_settled r) (bad_request already_settled)
  if dto.deferred then defer_payment now id r dto partner else collect now id r dto partner

unfoldable pub collect_payment : ℕ → ℕ → CollectPayment → ℕ → Bool → M PickupRequest
unfolding find_one_for_partner settle
collect_payment now id dto partner as_admin =
    find_one_for_partner id partner as_admin >>= settle now id dto partner
