-- ===== src/Store/Rows.antt =====
-- The rows: quotes, pickup requests, orders and the people and codes that they name.
use nation_wide.Common.{ℕ, Bool, Option, List, String}
use nation_wide.Money.{ℤ}
use nation_wide.Parcel.{ShipmentType, Package}
use nation_wide.Pricing.Engine.{ComputedRateOption}
use nation_wide.Store.Kinds.{
  QuoteStatus, QuoteReviewReason, FulfillmentMethod, PickupRequestStatus, PickupTimeSlot, Role,
  OrderStatus, PaymentStatus, PaymentMethod,
}

pub record ShipmentItem : Type 0 where
  pub category : Option String
  pub description : String
  pub quantity : ℕ
  pub unit_value : ℕ
  pub hs_code : Option String

-- The `dest*` columns of a quote but for the country.
pub record Recipient : Type 0 where
  pub name : Option String
  pub phone : Option String
  pub address_line1 : Option String
  pub address_line2 : Option String
  pub city : Option String
  pub state : Option String
  pub postal_code : Option String

pub record QuoteOption : Type 0 where
  pub id : ℕ
  pub option : ComputedRateOption

pub record Quote : Type 0 where
  pub id : ℕ
  pub customer_id : ℕ
  pub shipment_type : ShipmentType
  pub weight : ℕ
  pub packages : Option (List Package)
  pub items : Option (List ShipmentItem)
  pub recipient : Recipient
  pub dest_country : String
  pub fulfillment_method : Option FulfillmentMethod
  pub status : QuoteStatus
  pub review_reason : Option QuoteReviewReason
  pub quoted_amount : Option ℕ
  pub quoted_currency : Option String
  pub quoted_by : Option ℕ
  pub quoted_at : Option ℕ
  pub internal_notes : Option String
  pub rejection_reason : Option String
  pub submission_key : String
  pub order_id : Option ℕ
  pub selected_option_id : Option ℕ
  pub options_expire_at : Option ℕ
  pub options : List QuoteOption

-- The pickup columns that `pickupLogisticsData` writes; the date is the text that was sent, by the
-- codes of its characters.
pub record Logistics : Type 0 where
  pub drop_at_warehouse : Bool
  pub contact_name : String
  pub contact_phone : String
  pub address_line1 : String
  pub address_line2 : Option String
  pub city : String
  pub state : String
  pub postal_code : String
  pub latitude : Option ℕ
  pub longitude : Option ℕ
  pub maps_url : Option String
  pub pickup_date : Option (List ℕ)
  pub time_slot : Option PickupTimeSlot
  pub instructions : Option String

-- The columns that only `verify` writes, besides the price and the time.
pub record VerifiedParcel : Type 0 where
  pub weight : ℕ
  pub packages : List Package
  pub shipment_type : ShipmentType
  pub taxable_subtotal : Option ℕ
  pub gst_percent : Option ℕ
  pub gst_amount : Option ℕ
  pub nationwide_cut : Option ℕ
  pub notes : Option String

-- The acceptance checklist.
pub record Checklist : Type 0 where
  pub parcel_packed_properly : Bool
  pub weight_verified : Bool
  pub restricted_items_checked : Bool
  pub documents_verified : Bool
  pub is_fragile : Bool
  pub insurance_required : Bool
  pub remarks : Option String

pub record PickupRequest : Type 0 where
  pub id : ℕ
  pub quote_id : ℕ
  pub customer_id : ℕ
  pub rate_provider_id : Option ℕ
  pub rate_provider_name : Option String
  pub shipment_type : ShipmentType
  pub estimated_weight : ℕ
  pub estimated_price : ℕ
  pub currency : String
  pub coupon_id : Option ℕ
  pub discount_amount : Option ℕ
  pub logistics : Logistics
  pub status : PickupRequestStatus
  pub assigned_partner_id : Option ℕ
  pub assigned_at : Option ℕ
  pub arrived_at : Option ℕ
  pub parcel_photo_key : Option ℕ
  pub recipient_verified_at : Option ℕ
  pub verified : Option VerifiedParcel
  pub verified_price : Option ℕ
  pub verified_at : Option ℕ
  pub payment_method : Option PaymentMethod
  pub collected_amount : Option ℕ
  pub payment_reference : Option String
  pub payment_notes : Option String
  pub payment_collected_at : Option ℕ
  pub payment_deferred_at : Option ℕ
  pub due_approved_by : Option ℕ
  pub due_note : Option String
  pub checklist : Option Checklist
  pub rejection_reason : Option String
  pub order_id : Option ℕ

pub record Order : Type 0 where
  pub id : ℕ
  pub customer_id : ℕ
  pub status : OrderStatus
  pub payment_status : PaymentStatus
  pub payment_method : Option PaymentMethod
  pub paid_amount : Option ℕ
  pub paid_at : Option ℕ
  pub payment_marked_by : Option ℕ
  pub payer_name : Option String
  pub payment_note : Option String
  pub refunded_amount : Option ℕ
  pub refunded_at : Option ℕ
  pub refund_note : Option String
  pub coupon_id : Option ℕ
  pub discount_amount : Option ℕ
  pub due_amount : Option ℤ
  pub due_approved_by : Option ℕ
  pub cancelled_at : Option ℕ
  pub cancellation_reason : Option String
  pub cancellation_fee : Option ℕ
  pub cancellation_distance : Option ℕ
  pub cancellation_distance_source : Option String
  pub returned_at : Option ℕ
  pub return_note : Option String

-- `awb_count` counts the external tracking numbers that are mapped to the shipment.
pub record Shipment : Type 0 where
  pub id : ℕ
  pub order_id : ℕ
  pub provider_id : ℕ
  pub awb_count : ℕ

pub record Customer : Type 0 where
  pub id : ℕ
  pub name : String
  pub aadhaar_key : Option ℕ

pub record AdminUser : Type 0 where
  pub id : ℕ
  pub role : Role
  pub is_active : Bool
  pub last_latitude : Option ℕ
  pub last_longitude : Option ℕ
  pub location_updated_at : Option ℕ

pub record Coupon : Type 0 where
  pub id : ℕ
  pub code : String
  pub discount_amount : ℕ
  pub is_active : Bool
  pub expires_at : Option ℕ
  pub max_redemptions : Option ℕ
  pub times_used : ℕ

pub record ShippingProvider : Type 0 where
  pub id : ℕ
  pub code : String

-- The legacy pickup of a quote that was accepted with its logistics on it.
pub record Pickup : Type 0 where
  pub id : ℕ
  pub quote_id : ℕ
  pub order_id : ℕ
  pub method : FulfillmentMethod
