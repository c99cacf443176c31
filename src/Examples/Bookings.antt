-- ===== src/Examples/Bookings.antt =====
-- Bookings, on a quote that awaits its pickup.
use nation_wide.Common.{◌≡◌, ◌≤◌, refl, false, none, some, [], ◌∷◌, ◌==◌, if◌then◌else◌, List}
use nation_wide.Store.{
  World, Quote, QuoteStatus, err, bad_request, slot_closed, from_9_to_12, from_12_to_15,
}
use nation_wide.Invoices.Numbering.{codes, decimal, pad_start}
use nation_wide.Coupons.{validate, has_expired, used_up}
use nation_wide.Quotes.Decide.{claim_quote}
use nation_wide.PickupRequests.Slots.{Clock, local_date_iso, is_pickup_slot_open}
use nation_wide.PickupRequests.Places.{PickupLogistics, slot_is_over}
use nation_wide.PickupRequests.Terms.{BookingPricing, no_update, coupon_of}
use nation_wide.PickupRequests.Booking.{
  CreatePickupRequest, Booking, create, has_request, claim_and_create, insert_request,
  commit_booking,
}
use nation_wide.PickupRequests.Booked.{
  Attempt, by_customer, by_staff, times_booked, times_booked_once,
}
use nation_wide.PickupRequests.Booked.Success.{Booked, create-Booked}
use nation_wide.Examples.Rows.{asked_quote, flat_code, nobody, sample}

abbrev awaiting : Quote
awaiting = record asked_quote { status = QuoteStatus.pending_pickup_request }

abbrev before : World
before = record sample {
  quotes = λ id. if id == 1 then some awaiting else none;
  requests = λ id. none;
  next_id = 3;
}

-- Twenty past twelve.
abbrev noon : Clock
noon = record { year = 2_026; month = 7; day = 24; hours = 12; minutes = 20 }

abbrev home : PickupLogistics
home = record {
  drop_at_warehouse = false;
  contact_name = "A";
  contact_phone = "1";
  address_line1 = some "Road";
  address_line2 = none;
  city = some "Pune";
  state = some "MH";
  postal_code = some "411001";
  latitude = none;
  longitude = none;
  maps_url = none;
  pickup_date = some (codes "2026-07-24");
  time_slot = some from_12_to_15;
  instructions = none;
}

abbrev asks : CreatePickupRequest
asks = record {
  quote_id = 1;
  logistics = home;
  recipient = none;
  items = [];
  coupon_code = some "SAVE";
}

abbrev early : CreatePickupRequest
early = record asks { logistics = record home { time_slot = some from_9_to_12 } }

-- The morning is over.
refused_early : create 10 noon early 1 before ≡ (err (bad_request slot_closed), before)
unfolding create slot_is_over local_date_iso decimal pad_start is_pickup_slot_open
refused_early = refl

create-Booked_example : Booked awaiting (some flat_code) before (create 10 noon asks 1 before)
unfolding slot_is_over local_date_iso decimal pad_start is_pickup_slot_open coupon_of validate
    has_expired used_up has_request
create-Booked_example =
    create-Booked 10 noon asks awaiting (some flat_code) before refl refl refl refl refl refl refl
      refl

abbrev by_hand : BookingPricing
by_hand = record {
  rate_provider_id = none;
  rate_provider_name = none;
  estimated_price = 90_000;
  currency = "INR";
  quote = no_update;
}

abbrev for_staff : Booking
for_staff = record {
  quote = awaiting;
  customer_id = 1;
  shipment_type = awaiting.shipment_type;
  recipient = nobody;
  items = [];
  logistics = home;
  pricing = by_hand;
  partner_id = some 7;
}

abbrev attempts : List Attempt
attempts =
    by_customer awaiting asks 1 none
    ∷ by_staff 20 for_staff
    ∷ by_customer awaiting asks 1 (some flat_code)
    ∷ []

-- The first attempt succeeds.
first_only : times_booked 1 attempts before ≡ 1
unfolding times_booked claim_and_create claim_quote insert_request commit_booking
first_only = refl

times_booked_once_example : times_booked 1 attempts before ≤ 1
times_booked_once_example = times_booked_once 1 attempts before
