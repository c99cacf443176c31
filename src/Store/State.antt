-- ===== src/Store/State.antt =====
-- The state that a service call reads and writes.
use nation_wide.Common.{ℕ, Option, some, List, String, ◌==◌, if◌then◌else◌}
use nation_wide.Pricing.Engine.{Tables}
use nation_wide.Store.Rows.{
  Quote, PickupRequest, Order, Customer, AdminUser, Coupon, ShippingProvider, Shipment, Pickup,
}

pub data Action : Type 0 where
  partner_assigned arrived verified payment_collected payment_deferred accepted rejected : Action
  aadhaar_added aadhaar_replaced : Action
  manual_quote_created quote_rejected : Action
  order_payment_updated order_cancelled parcel_returned return_undone : Action

pub record AuditEntry : Type 0 where
  pub actor : ℕ
  pub action : Action
  pub entity_id : ℕ

pub data Template : Type 0 where
  pickup_request_received pickup_partner_assigned pickup_partner_arrived : Template
  pickup_verification_complete payment_collected order_created_from_pickup pickup_rejected :
      Template
  pickup_request_needed quote_ready quote_rejected order_confirmation : Template

-- What a call hands to the services whose own state is not modelled: the message queue, the push
-- service (to one partner, or to every active one),
-- invoices and receipts, the address book, the file store.
pub data Event : Type 0 where
  notified : ℕ → Template → Event
  pushed : ℕ → Event
  broadcast : ℕ → Event
  invoice_asked receipt_asked : ℕ → Event
  charge_asked : ℕ → ℕ → Event
  remembered : ℕ → Event
  file_put file_deleted : ℕ → Event

abbrev pub Table : Type 0 → Type 0
Table A = ℕ → Option A

abbrev pub put : {A : Type 0} → Table A → ℕ → A → Table A
put t id a j = if j == id then some a else t j

-- The string methods of JavaScript that the code calls, and `new Date` of a text: its time, or none
-- for an invalid one. `numbered` is the template `${key}:${index}`.
pub record Texts : Type 0 where
  pub trim : String → String
  pub to_upper : String → String
  pub parse_date : List ℕ → Option ℕ
  pub numbered : String → ℕ → String

pub record World : Type 0 where
  pub texts : Texts
  pub quotes : Table Quote
  pub requests : Table PickupRequest
  pub orders : Table Order
  pub customers : Table Customer
  pub users : Table AdminUser
  pub coupons : List Coupon
  pub providers : List ShippingProvider
  pub shipments : List Shipment
  pub pickups : List Pickup
  pub tables : Tables
  pub next_id : ℕ
  pub audit : List AuditEntry
  pub events : List Event
