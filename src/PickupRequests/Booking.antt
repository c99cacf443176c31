-- ===== src/PickupRequests/Booking.antt =====
-- Booking a pickup: `create`, `commitBooking` and `broadcastToPartners`.
use nation_wide.Common.{
  ℕ, zero, suc, ◌+◌, Bool, true, false, not, ◌||◌, Option, none, some, List, min, ◌==◌,
  if◌then◌else◌, String,
}
use nation_wide.Parcel.{ShipmentType}
use nation_wide.Store.{
  Table, put, M, ok, err, forbidden, conflict, bad_request, wrong_status, missing_date, slot_closed,
  already_processed, pure, ◌>>=◌, ◌>>◌, raise_if, emit, notified, remembered, broadcast, Template,
  transaction, PickupRequest, PickupRequestStatus, Recipient, ShipmentItem, Quote, QuoteStatus,
  is_quote_status, Coupon,
}
use nation_wide.Quotes.Decide.{find_one_or_throw, claim_quote}
use nation_wide.PickupRequests.Access.{find_one, update_quote}
use nation_wide.PickupRequests.Door.{confirm_contents}
use nation_wide.PickupRequests.Slots.{Clock}
use nation_wide.PickupRequests.Terms.{
  selected_option, coupon_of, BookingPricing, pricing_of, update_columns,
}
use nation_wide.PickupRequests.Places.{
  PickupLogistics, pickup_logistics_data, lacks_window, slot_is_over,
}

pub record CreatePickupRequest : Type 0 where
  pub quote_id : ℕ
  pub logistics : PickupLogistics
  pub recipient : Option Recipient
  pub items : List ShipmentItem
  pub coupon_code : Option String

-- The row that a booking creates, with the defaults of the columns that it does not name.
unfoldable pub new_request :
    Quote → ℕ → ShipmentType → BookingPricing → PickupLogistics → ℕ → PickupRequest
new_request q customer kind pricing place id = record {
  id = id;
  quote_id = q.id;
  customer_id = customer;
  rate_provider_id = pricing.rate_provider_id;
  rate_provider_name = pricing.rate_provider_name;
  shipment_type = kind;
  estimated_weight = q.weight;
  estimated_price = pricing.estimated_price;
  currency = pricing.currency;
  coupon_id = none;
  discount_amount = none;
  logistics = pickup_logistics_data place;
  status = PickupRequestStatus.pending_assignment;
  assigned_partner_id = none;
  assigned_at = none;
  arrived_at = none;
  parcel_photo_key = none;
  recipient_verified_at = none;
  verified = none;
  verified_price = none;
  verified_at = none;
  payment_method = none;
  collected_amount = none;
  payment_reference = none;
  payment_notes = none;
  payment_collected_at = none;
  payment_deferred_at = none;
  due_approved_by = none;
  due_note = none;
  checklist = none;
  rejection_reason = none;
  order_id = none;
}

-- The discount is frozen at booking, and never more than the price.
unfoldable pub discounted : Option Coupon → PickupRequest → PickupRequest
discounted none r = r
discounted (some c) r = record r {
  coupon_id = some c.id;
  discount_amount = some (min c.discount_amount r.estimated_price);
}

abbrev pub is_of_quote : ℕ → Option PickupRequest → Bool
is_of_quote quote_id none = false
is_of_quote quote_id (some r) = r.quote_id == quote_id

-- The unique index on `quoteId`, over the ids that were given out.
unfoldable pub has_request : ℕ → Table PickupRequest → ℕ → Bool
has_request quote_id t zero = false
has_request quote_id t (suc n) = is_of_quote quote_id (t n) || has_request quote_id t n

abbrev pub is_taken : Option PickupRequest → Bool
is_taken none = false
is_taken (some r) = true

-- `pickupRequest.create`: a second row with the id, or with the quote, is a conflict.
unfoldable pub insert_request : (ℕ → PickupRequest) → M PickupRequest
unfolding has_request
insert_request make w =
    let r = make w.next_id in
    if is_taken (w.requests w.next_id) || has_request r.quote_id w.requests w.next_id
    then (err conflict, w)
    else (ok r, record w { requests = put w.requests w.next_id r; next_id = w.next_id + 1 })

abbrev pub requested_row : Quote → Quote
requested_row q = record q { status = QuoteStatus.pickup_requested }

abbrev pub write_booking : ℕ → Option Recipient → List ShipmentItem → M (Unit {0})
write_booking id recipient items w = update_quote id (confirm_contents w.texts recipient items) w

abbrev pub claim_requested : ℕ → M (Unit {0})
claim_requested id =
    claim_quote id (λ a. is_quote_status a.status QuoteStatus.pending_pickup_request) requested_row
      (bad_request wrong_status)

-- The transaction of `create`, for a quote that was read at some earlier moment.
unfoldable pub claim_and_create : Quote → CreatePickupRequest → ℕ → Option Coupon → M PickupRequest
claim_and_create q dto customer coupon = transaction do
  claim_requested q.id
  write_booking q.id dto.recipient dto.items
  insert_request λ id.
      discounted coupon
        (new_request q customer q.shipment_type (pricing_of (selected_option q) q) dto.logistics id)

-- The checks of `create` on the quote and on the window.
unfoldable pub check_bookable : Clock → CreatePickupRequest → ℕ → M Quote
unfolding find_one_or_throw
check_bookable clock dto customer = do
  q ← find_one_or_throw dto.quote_id
  raise_if (not (q.customer_id == customer)) forbidden
  raise_if (not (is_quote_status q.status QuoteStatus.pending_pickup_request))
      (bad_request wrong_status)
  raise_if (lacks_window dto.logistics) (bad_request missing_date)
  raise_if (slot_is_over clock dto.logistics) (bad_request slot_closed)
  pure q

-- `broadcastToPartners`, unless the parcel is dropped at the warehouse.
abbrev pub broadcast_unless : Bool → ℕ → M (Unit {0})
broadcast_unless true id w = (ok tt, w)
broadcast_unless false id w = emit (broadcast id) w

unfoldable pub announce_booking : ℕ → CreatePickupRequest → PickupRequest → M PickupRequest
unfolding find_one
announce_booking customer dto r = do
  emit (remembered customer)
  emit (notified customer Template.pickup_request_received)
  full ← find_one r.id
  broadcast_unless dto.logistics.drop_at_warehouse full.id
  pure full

unfoldable pub create : ℕ → Clock → CreatePickupRequest → ℕ → M PickupRequest
unfolding check_bookable coupon_of claim_and_create announce_booking
create now clock dto customer = do
  q ← check_bookable clock dto customer
  coupon ← coupon_of now dto.coupon_code
  r ← claim_and_create q dto customer coupon
  announce_booking customer dto r

-- Staff bookings are handed straight to a partner.
unfoldable pub assigned_at_once : ℕ → Option ℕ → PickupRequest → PickupRequest
assigned_at_once now none r = r
assigned_at_once now (some partner) r = record r {
  assigned_partner_id = some partner;
  assigned_at = some now;
  status = PickupRequestStatus.assigned;
}

pub record Booking : Type 0 where
  pub quote : Quote
  pub customer_id : ℕ
  pub shipment_type : ShipmentType
  pub recipient : Recipient
  pub items : List ShipmentItem
  pub logistics : PickupLogistics
  pub pricing : BookingPricing
  pub partner_id : Option ℕ

-- `status: { in: ['RATED', 'NEEDS_MANUAL_REVIEW'] }`.
abbrev pub is_priceable : Quote → Bool
is_priceable q =
    is_quote_status q.status QuoteStatus.rated
    || is_quote_status q.status QuoteStatus.needs_manual_review

abbrev pub claim_for_booking : Booking → M (Unit {0})
claim_for_booking b w =
    claim_quote b.quote.id is_priceable
      (λ q.
        update_columns b.pricing.quote
          (confirm_contents w.texts (some b.recipient) b.items (requested_row q)))
      (bad_request already_processed) w

unfoldable pub commit_booking : ℕ → Booking → M PickupRequest
unfolding claim_quote
commit_booking now b = transaction do
  claim_for_booking b
  insert_request λ id.
      assigned_at_once now b.partner_id
        (new_request b.quote b.customer_id b.shipment_type b.pricing b.logistics id)
