-- ===== src/PickupRequests/BatchTerms.antt =====
-- What `createBatchForCustomer` takes, answers and charges for one of its parcels.
use nation_wide.Common.{
  ℕ, zero, suc, ◌==◌, if◌then◌else◌, false, Option, none, some, List, [], ◌∷◌, find, sort_by,
  String,
}
use nation_wide.Parcel.{ShipmentType, Package, chargeable_weight}
use nation_wide.Store.{Table, PickupRequest, Recipient, ShipmentItem, QuoteOption}
use nation_wide.Quotes.Window.{CreateQuote}
use nation_wide.Quotes.Create.{or_else}
use nation_wide.PickupRequests.Places.{PickupLogistics}
use nation_wide.PickupRequests.Terms.{no_update, BookingPricing}

pub record B2bOrder : Type 0 where
  pub recipient : Recipient
  pub destination_country : String
  pub shipment_type : ShipmentType
  pub packages : List Package
  pub items : List ShipmentItem
  pub rate_provider_id : Option ℕ
  pub manual_price : Option ℕ

pub record B2bCreateOrders : Type 0 where
  pub submission_key : String
  pub pickup : PickupLogistics
  pub orders : List B2bOrder

-- Who calls: staff name the partner and themselves, the portal neither.
pub record BatchOptions : Type 0 where
  pub partner_id : Option ℕ
  pub actor_id : Option ℕ

pub data B2bOrderResult : Type 0 where
  booked : (index : ℕ) (request : PickupRequest) → B2bOrderResult
  needs_pricing : (index quote_id : ℕ) → B2bOrderResult

-- A short link of a map carries no coordinates until `resolve` has followed it.
abbrev pub with_coordinates :
    (String → Option (ℕ × ℕ)) → Option ℕ → Option String → PickupLogistics → PickupLogistics
with_coordinates resolve (some l) url p = p
with_coordinates resolve none none p = p
with_coordinates resolve none (some String.[]) p = p
with_coordinates resolve none (some (String.◌∷◌ c s)) p = elim (resolve (String.◌∷◌ c s)) [
  | none ↦ record p { latitude = none; longitude = none }
  | some at ↦ record p { latitude = some at.0; longitude = some at.1 }
]

unfoldable pub batch_logistics : (String → Option (ℕ × ℕ)) → PickupLogistics → PickupLogistics
batch_logistics resolve p = record (with_coordinates resolve p.latitude p.maps_url p) {
  drop_at_warehouse = false;
}

unfoldable pub quote_request : String → B2bOrder → CreateQuote
quote_request key o = record {
  shipment_type = o.shipment_type;
  weight = chargeable_weight o.packages;
  packages = some o.packages;
  items = none;
  recipient = o.recipient;
  country = o.destination_country;
  fulfillment_method = none;
  pickup_date = none;
  time_slot = none;
  submission_key = key;
}

abbrev pub of_quote : ℕ → Option PickupRequest → Option PickupRequest
of_quote id none = none
of_quote id (some r) = if r.quote_id == id then some r else none

-- `findUnique` by the quote, among the ids that were given out.
unfoldable pub request_of_quote : ℕ → Table PickupRequest → ℕ → Option PickupRequest
request_of_quote id t zero = none
request_of_quote id t (suc n) = or_else (request_of_quote id t n) (of_quote id (t n))

abbrev pub head : {A : Type 0} → List A → Option A
head [] = none
head (x ∷ xs) = some x

-- The carrier that was asked for, or the cheapest.
unfoldable pub chosen_option : Option ℕ → List QuoteOption → Option QuoteOption
chosen_option (some provider) os = find (λ o. o.option.rate_provider_id == provider) os
chosen_option none os = head (sort_by (λ o. o.option.final_price) os)

unfoldable pub manual_pricing : ℕ → ℕ → ℕ → BookingPricing
manual_pricing now price actor = record {
  rate_provider_id = none;
  rate_provider_name = none;
  estimated_price = price;
  currency = "INR";
  quote = record no_update {
    quoted_amount = some price;
    quoted_currency = some "INR";
    quoted_by = some actor;
    quoted_at = some now;
  };
}

unfoldable pub option_pricing : QuoteOption → BookingPricing
option_pricing o = record {
  rate_provider_id = some o.option.rate_provider_id;
  rate_provider_name = some o.option.rate_provider_name;
  estimated_price = o.option.final_price;
  currency = o.option.currency;
  quote = record no_update {
    selected_option_id = some o.id;
    quoted_amount = some o.option.final_price;
    quoted_currency = some o.option.currency;
  };
}
