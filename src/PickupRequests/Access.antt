-- ===== src/PickupRequests/Access.antt =====
-- Who may see and work a pickup, taking an open one, and assigning one.
use nation_wide.Common.{ℕ, Bool, true, false, not, ◌&&◌, Option, none, some, ◌==◌, if◌then◌else◌}
use nation_wide.Store.{
  put, claim_row, M, ok, err, Error, not_found, bad_request, wrong_status, already_taken,
  not_a_drop_off, pure, or_raise, ◌>>=◌, ◌>>◌, raise_if, log, emit, Action, notified, pushed,
  Template, PickupRequest, PickupRequestStatus, is_request_status, AdminUser, Role, Quote,
}

-- `NON_TERMINAL_STATUSES.includes(status)`.
abbrev pub is_open : PickupRequestStatus → Bool
is_open PickupRequestStatus.pending_assignment = true
is_open PickupRequestStatus.assigned = true
is_open PickupRequestStatus.scheduled = true
is_open PickupRequestStatus.out_for_pickup = true
is_open PickupRequestStatus.verification_pending = true
is_open PickupRequestStatus.completed = false
is_open PickupRequestStatus.cancelled = false
is_open PickupRequestStatus.rejected = false

abbrev pub is_none {ℓ} : {A : Type ℓ} → Option A → Bool
is_none none = true
is_none (some a) = false

-- `a === b` for an id column that may be null.
abbrev pub is_id : Option ℕ → ℕ → Bool
is_id none b = false
is_id (some a) b = a == b

unfoldable pub find_one : ℕ → M PickupRequest
find_one id = λ w. or_raise (w.requests id) not_found w

-- A request that every partner may still take.
abbrev pub is_unclaimed : PickupRequest → Bool
is_unclaimed r =
    is_none r.assigned_partner_id
    && is_request_status r.status PickupRequestStatus.pending_assignment
    && not r.logistics.drop_at_warehouse

unfoldable pub find_one_visible_to_partner : ℕ → ℕ → M PickupRequest
unfolding find_one
find_one_visible_to_partner id partner = do
  r ← find_one id
  raise_if (not (is_unclaimed r) && not (is_id r.assigned_partner_id partner)) not_found
  pure r

-- The partner that it is assigned to, or an admin for a warehouse drop-off.
unfoldable pub may_work : ℕ → Bool → PickupRequest → M PickupRequest
may_work partner true r w =
    if r.logistics.drop_at_warehouse then (ok r, w) else (err (bad_request not_a_drop_off), w)
may_work partner false r w =
    if is_id r.assigned_partner_id partner then (ok r, w) else (err not_found, w)

unfoldable pub find_one_for_partner : ℕ → ℕ → Bool → M PickupRequest
unfolding find_one may_work
find_one_for_partner id partner as_admin = do r ← find_one id; may_work partner as_admin r

-- The one conditional write that a partner's claim is.
abbrev pub assign_to : ℕ → ℕ → PickupRequest → PickupRequest
assign_to partner now r = record r {
  assigned_partner_id = some partner;
  assigned_at = some now;
  status = PickupRequestStatus.assigned;
}

abbrev pub update_request : ℕ → (PickupRequest → PickupRequest) → M (Unit {0})
update_request id change w = elim (w.requests id) [
  | none ↦ (err not_found, w)
  | some r ↦ (ok tt, record w { requests = put w.requests id (change r) })
]

abbrev pub update_quote : ℕ → (Quote → Quote) → M (Unit {0})
update_quote id change w = elim (w.quotes id) [
  | none ↦ (err not_found, w)
  | some q ↦ (ok tt, record w { quotes = put w.quotes id (change q) })
]

-- An `updateMany` whose count is zero makes the call fail.
unfoldable pub claim_request :
    ℕ → (PickupRequest → Bool) → (PickupRequest → PickupRequest) → Error → M (Unit {0})
claim_request id test change e w = elim (claim_row test change w.requests id (w.requests id)) [
  | none ↦ (err e, w)
  | some t ↦ (ok tt, record w { requests = t })
]

unfoldable pub claim : ℕ → ℕ → ℕ → M PickupRequest
unfolding find_one claim_request
claim now id partner = do
  claim_request id is_unclaimed (assign_to partner now) (bad_request already_taken)
  r ← find_one id
  log partner Action.partner_assigned id
  emit (notified r.customer_id Template.pickup_partner_assigned)
  pure r

abbrev pub is_partner : AdminUser → Bool
is_partner u = elim u.role [
  | Role.customer ↦ false
  | Role.admin ↦ false
  | Role.super_admin ↦ false
  | Role.pickup_partner ↦ true
]

abbrev pub partner_of : Option AdminUser → Option AdminUser
partner_of none = none
partner_of (some u) = if is_partner u then some u else none

-- What `announceAssignment` sends to the customer and to the partner.
abbrev pub announce_assignment : PickupRequest → ℕ → M (Unit {0})
announce_assignment r partner =
    emit (notified r.customer_id Template.pickup_partner_assigned) >> emit (pushed partner)

unfoldable pub assign_partner : ℕ → ℕ → ℕ → ℕ → M PickupRequest
unfolding find_one
assign_partner now id partner actor = do
  r ← find_one id
  raise_if (not (is_open r.status)) (bad_request wrong_status)
  p ← λ w. or_raise (partner_of (w.users partner)) not_found w
  update_request id (assign_to partner now)
  log actor Action.partner_assigned id
  announce_assignment r partner
  find_one id

abbrev located : ℕ → ℕ → ℕ → AdminUser → AdminUser
located now latitude longitude u = record u {
  last_latitude = some latitude;
  last_longitude = some longitude;
  location_updated_at = some now;
}

unfoldable pub update_partner_location : ℕ → ℕ → ℕ → ℕ → M (Unit {0})
update_partner_location now partner latitude longitude w = elim (w.users partner) [
  | none ↦ (err not_found, w)
  | some u ↦ (ok tt, record w { users = put w.users partner (located now latitude longitude u) })
]
