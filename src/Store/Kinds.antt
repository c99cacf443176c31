-- ===== src/Store/Kinds.antt =====
-- The enumerations of packages/shared-types/src that the services branch on.
use nation_wide.Common.{ℕ, Bool, ◌==◌}

pub data QuoteStatus : Type 0 where
  submitted rated needs_manual_review quoted pending_pickup_request pickup_requested : QuoteStatus
  accepted rejected cancelled : QuoteStatus

pub data QuoteReviewReason : Type 0 where
  oversized dangerous_goods restricted_destination special_handling miscellaneous :
      QuoteReviewReason
  no_rate_available : QuoteReviewReason

pub data FulfillmentMethod : Type 0 where
  pickup warehouse_drop_off : FulfillmentMethod

pub data PickupRequestStatus : Type 0 where
  pending_assignment assigned scheduled out_for_pickup verification_pending : PickupRequestStatus
  completed cancelled rejected : PickupRequestStatus

-- The windows of `PICKUP_TIME_SLOTS`: 09:00-12:00, 12:00-15:00 and 15:00-18:00.
pub data PickupTimeSlot : Type 0 where
  from_9_to_12 from_12_to_15 from_15_to_18 : PickupTimeSlot

pub data Role : Type 0 where
  customer admin super_admin pickup_partner : Role

pub data OrderStatus : Type 0 where
  pending confirmed cancelled completed : OrderStatus

pub data PaymentStatus : Type 0 where
  pending paid failed refunded : PaymentStatus

pub data PaymentMethod : Type 0 where
  cash upi bank_transfer razorpay : PaymentMethod

-- `===` on statuses, by their places in the enumerations.
abbrev pub quote_code : QuoteStatus → ℕ
quote_code QuoteStatus.submitted = 0
quote_code QuoteStatus.rated = 1
quote_code QuoteStatus.needs_manual_review = 2
quote_code QuoteStatus.quoted = 3
quote_code QuoteStatus.pending_pickup_request = 4
quote_code QuoteStatus.pickup_requested = 5
quote_code QuoteStatus.accepted = 6
quote_code QuoteStatus.rejected = 7
quote_code QuoteStatus.cancelled = 8

abbrev pub is_quote_status : QuoteStatus → QuoteStatus → Bool
is_quote_status a b = quote_code a == quote_code b

abbrev pub request_code : PickupRequestStatus → ℕ
request_code PickupRequestStatus.pending_assignment = 0
request_code PickupRequestStatus.assigned = 1
request_code PickupRequestStatus.scheduled = 2
request_code PickupRequestStatus.out_for_pickup = 3
request_code PickupRequestStatus.verification_pending = 4
request_code PickupRequestStatus.completed = 5
request_code PickupRequestStatus.cancelled = 6
request_code PickupRequestStatus.rejected = 7

abbrev pub is_request_status : PickupRequestStatus → PickupRequestStatus → Bool
is_request_status a b = request_code a == request_code b
