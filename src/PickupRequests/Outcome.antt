-- ===== src/PickupRequests/Outcome.antt =====
-- `acceptParcel` and `rejectParcel`.
use nation_wide.Common.{
  ℕ, Bool, false, not, Option, none, some, ◌==◌, if◌then◌else◌, find, String, or_default,
}
use nation_wide.Money.{pos, minus}
use nation_wide.Store.{
  World, put, M, Result, ok, bad_request, wrong_status, not_verified, payment_missing,
  already_processed, ◌>>=◌, ◌>>◌, raise_if, modify, log, emit, Action, notified, invoice_asked,
  receipt_asked, Template, transaction, PickupRequest, PickupRequestStatus, Quote, QuoteStatus,
  Checklist, Order, PaymentStatus, Coupon,
}
use nation_wide.Coupons.{redeem, has_id}
use nation_wide.Orders.{create_order_with_shipment}
use nation_wide.PickupRequests.Access.{
  is_open, is_none, find_one, find_one_for_partner, claim_request, update_request, update_quote,
}
use nation_wide.PickupRequests.Collection.{payable_for, is_settled, is_some}

abbrev pub complete_row : PickupRequest → PickupRequest
complete_row r = record r { status = PickupRequestStatus.completed }

abbrev pub link_row : ℕ → Checklist → PickupRequest → PickupRequest
link_row order_id list r = record r {
  status = PickupRequestStatus.completed;
  order_id = some order_id;
  checklist = some list;
}

-- `a && b` on a coupon id and a discount: a discount of zero is falsy.
abbrev pub has_discount : Option ℕ → Option ℕ → Bool
has_discount (some c) (some d) = not (d == 0)
has_discount _ _ = false

-- The result is dropped, the exception is logged.
abbrev pub quietly : {A : Type 0} → Result A × World → Result (Unit {0}) × World
quietly (res, w) = (ok tt, w)

abbrev pub redeem_coupon : ℕ → Option Coupon → M (Unit {0})
redeem_coupon now none w = (ok tt, w)
redeem_coupon now (some c) w = quietly (redeem now c.code w)

-- The promised discount stands even where the code can no longer be redeemed.
unfoldable pub redeem_quietly : ℕ → PickupRequest → M (Unit {0})
redeem_quietly now r w =
    if has_discount r.coupon_id r.discount_amount
    then redeem_coupon now (find (has_id (or_default r.coupon_id 0)) w.coupons) w
    else (ok tt, w)

-- Deferred: all of it is due. Part-paid: the remainder is due. Else paid.
abbrev pub deferred_order : ℕ → ℕ → PickupRequest → Order → Order
deferred_order price partner r o = record o {
  payment_status = PaymentStatus.pending;
  due_amount = some (pos price);
  due_approved_by = r.due_approved_by;
  payment_marked_by = some partner;
}

abbrev pub part_paid_order : ℕ → ℕ → PickupRequest → Order → Order
part_paid_order price partner r o = record o {
  payment_status = PaymentStatus.pending;
  payment_method = r.payment_method;
  paid_amount = r.collected_amount;
  paid_at = r.payment_collected_at;
  due_amount = some (minus price (or_default r.collected_amount 0));
  due_approved_by = r.due_approved_by;
  payment_marked_by = some partner;
}

abbrev pub paid_order : ℕ → ℕ → PickupRequest → Order → Order
paid_order price partner r o = record o {
  payment_status = PaymentStatus.paid;
  payment_method = r.payment_method;
  paid_amount = some (or_default r.collected_amount price);
  paid_at = r.payment_collected_at;
  payment_marked_by = some partner;
}

abbrev pub with_coupon : PickupRequest → Order → Order
with_coupon r o = record o { coupon_id = r.coupon_id; discount_amount = r.discount_amount }

unfoldable pub order_payment : ℕ → ℕ → PickupRequest → Order → Order
order_payment price partner r o =
    let c = with_coupon r o in
    if is_some r.payment_deferred_at
    then deferred_order price partner r c
    else if is_some r.due_approved_by
    then part_paid_order price partner r c
    else paid_order price partner r c

abbrev pub accept_quote_row : ℕ → Quote → Quote
accept_quote_row order_id q = record q { status = QuoteStatus.accepted; order_id = some order_id }

-- The four writes of the transaction.
unfoldable pub link_order : ℕ → Checklist → ℕ → PickupRequest → Order → M (Unit {0})
unfolding order_payment
link_order id list partner r order = do
  modify λ w. record w {
    orders = put w.orders order.id (order_payment (payable_for r) partner r order);
  }
  update_quote r.quote_id (accept_quote_row order.id)
  update_request id (link_row order.id list)
  log partner Action.accepted id

-- What follows the creation of the order.
unfoldable pub link_and_announce : ℕ → ℕ → Checklist → ℕ → PickupRequest → Order → M PickupRequest
unfolding find_one redeem_quietly link_order
link_and_announce now id list partner r order = do
  redeem_quietly now r
  transaction (link_order id list partner r order)
  emit (invoice_asked order.id)
  emit (receipt_asked order.id)
  emit (notified r.customer_id Template.order_created_from_pickup)
  find_one id

-- What is left after the checks, for a row that was read at some earlier moment.
unfoldable pub accept_checked : ℕ → ℕ → Checklist → ℕ → PickupRequest → M PickupRequest
unfolding claim_request create_order_with_shipment link_and_announce
accept_checked now id list partner r = do
  claim_request id (λ a. is_open a.status) complete_row (bad_request already_processed)
  made ← create_order_with_shipment r.customer_id none
  link_and_announce now id list partner r made.0

unfoldable pub accept_parcel : ℕ → ℕ → Checklist → ℕ → Bool → M PickupRequest
unfolding find_one_for_partner accept_checked
accept_parcel now id list partner as_admin = do
  r ← find_one_for_partner id partner as_admin
  raise_if (not (is_open r.status)) (bad_request wrong_status)
  raise_if (is_none r.verified_at) (bad_request not_verified)
  raise_if (not (is_settled r)) (bad_request payment_missing)
  accept_checked now id list partner r

abbrev pub reject_row : String → PickupRequest → PickupRequest
reject_row reason r = record r {
  status = PickupRequestStatus.rejected;
  rejection_reason = some reason;
}

abbrev pub reject_quote_row : String → Quote → Quote
reject_quote_row reason q = record q {
  status = QuoteStatus.rejected;
  rejection_reason = some reason;
}

unfoldable pub reject_parcel : ℕ → String → ℕ → Bool → M PickupRequest
unfolding find_one find_one_for_partner
reject_parcel id reason partner as_admin = do
  r ← find_one_for_partner id partner as_admin
  raise_if (not (is_open r.status)) (bad_request wrong_status)
  transaction do
    update_request id (reject_row reason)
    update_quote r.quote_id (reject_quote_row reason)
    log partner Action.rejected id
  emit (notified r.customer_id Template.pickup_rejected)
  find_one id
