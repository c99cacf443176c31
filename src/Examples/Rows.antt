-- ===== src/Examples/Rows.antt =====
-- A small state: one request of each kind, its quote, its customer and the staff.
use nation_wide.Common.{true, false, none, some, [], ◌∷◌, ◌==◌, if◌then◌else◌}
use nation_wide.Parcel.{packaged}
use nation_wide.Store.{
  Customer, ShippingProvider, World, Table, PickupRequest, PickupRequestStatus, Logistics, Quote,
  QuoteStatus, Recipient, Order, PaymentMethod, AdminUser, Role, Coupon, VerifiedParcel, Checklist,
}
use nation_wide.Orders.{new_order}

abbrev pub at_home : Logistics
at_home = record {
  drop_at_warehouse = false;
  contact_name = "A";
  contact_phone = "1";
  address_line1 = "Road";
  address_line2 = none;
  city = "Pune";
  state = "MH";
  postal_code = "411001";
  latitude = none;
  longitude = none;
  maps_url = none;
  pickup_date = none;
  time_slot = none;
  instructions = none;
}

abbrev pub booked : PickupRequest
booked = record {
  id = 1;
  quote_id = 1;
  customer_id = 1;
  rate_provider_id = none;
  rate_provider_name = none;
  shipment_type = packaged;
  estimated_weight = 2_000;
  estimated_price = 150_000;
  currency = "INR";
  coupon_id = none;
  discount_amount = some 10_000;
  logistics = at_home;
  status = PickupRequestStatus.pending_assignment;
  assigned_partner_id = none;
  assigned_at = none;
  arrived_at = none;
  parcel_photo_key = none;
  recipient_verified_at = none;
  verified = none;
  verified_price = none;
  verified_at = none;
  payment_method = none;
  collected_amount = none;
  payment_reference = none;
  payment_notes = none;
  payment_collected_at = none;
  payment_deferred_at = none;
  due_approved_by = none;
  due_note = none;
  checklist = none;
  rejection_reason = none;
  order_id = none;
}

abbrev pub weighed : VerifiedParcel
weighed = record {
  weight = 2_000;
  packages = [];
  shipment_type = packaged;
  taxable_subtotal = none;
  gst_percent = none;
  gst_amount = none;
  nationwide_cut = none;
  notes = none;
}

abbrev pub weighed_request : PickupRequest
weighed_request = record booked {
  id = 2;
  status = PickupRequestStatus.verification_pending;
  assigned_partner_id = some 7;
  assigned_at = some 10;
  arrived_at = some 20;
  parcel_photo_key = some 30;
  verified = some weighed;
  verified_price = some 160_000;
  verified_at = some 40;
}

abbrev pub paid_request : PickupRequest
paid_request = record weighed_request {
  id = 3;
  payment_method = some PaymentMethod.cash;
  collected_amount = some 150_000;
  payment_collected_at = some 50;
}

abbrev pub closed_request : PickupRequest
closed_request = record paid_request {
  id = 4;
  status = PickupRequestStatus.completed;
  order_id = some 1;
}

abbrev pub requests : Table PickupRequest
requests id =
    if id == 1
    then some booked
    else if id == 2
    then some weighed_request
    else if id == 3
    then some paid_request
    else if id == 4
    then some closed_request
    else none

abbrev pub nobody : Recipient
nobody = record {
  name = none;
  phone = none;
  address_line1 = none;
  address_line2 = none;
  city = none;
  state = none;
  postal_code = none;
}

abbrev pub asked_quote : Quote
asked_quote = record {
  id = 1;
  customer_id = 1;
  shipment_type = packaged;
  weight = 2_000;
  packages = none;
  items = none;
  recipient = nobody;
  dest_country = "Japan";
  fulfillment_method = none;
  status = QuoteStatus.pickup_requested;
  review_reason = none;
  quoted_amount = some 150_000;
  quoted_currency = some "INR";
  quoted_by = none;
  quoted_at = none;
  internal_notes = none;
  rejection_reason = none;
  submission_key = "k";
  order_id = none;
  selected_option_id = none;
  options_expire_at = none;
  options = [];
}

abbrev pub one_order : Order
one_order = new_order 1 1

abbrev pub manager : AdminUser
manager = record {
  id = 9;
  role = Role.admin;
  is_active = true;
  last_latitude = none;
  last_longitude = none;
  location_updated_at = none;
}

abbrev pub flat_code : Coupon
flat_code = record {
  id = 1;
  code = "SAVE";
  discount_amount = 10_000;
  is_active = true;
  expires_at = some 1_000;
  max_redemptions = some 5;
  times_used = 4;
}

abbrev pub sender : Customer
sender = record { id = 1; name = "A"; aadhaar_key = some 5 }

abbrev pub carrier : ShippingProvider
carrier = record { id = 1; code = "ICL" }

abbrev pub sample : World
sample = record {
  texts = record { trim = λ s. s; to_upper = λ s. s; parse_date = λ s. none; numbered = λ s i. s };
  quotes = λ id. if id == 1 then some asked_quote else none;
  requests = requests;
  orders = λ id. if id == 1 then some one_order else none;
  customers =
      λ id. if id == 1 then some (record { id = 1; name = "A"; aadhaar_key = some 5 }) else none;
  users = λ id. if id == 9 then some manager else none;
  coupons = flat_code ∷ [];
  providers = record { id = 1; code = "ICL" } ∷ [];
  shipments = record { id = 1; order_id = 1; provider_id = 1; awb_count = 0 } ∷ [];
  pickups = [];
  tables = record { zone_countries = []; rate_cards = []; same_name = λ a b. true };
  next_id = 100;
  audit = [];
  events = [];
}

abbrev pub checked_list : Checklist
checked_list = record {
  parcel_packed_properly = true;
  weight_verified = true;
  restricted_items_checked = true;
  documents_verified = true;
  is_fragile = false;
  insurance_required = false;
  remarks = none;
}
