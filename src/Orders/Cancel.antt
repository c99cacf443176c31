-- ===== src/Orders/Cancel.antt =====
-- `OrdersService.quoteCancellation` and `cancel`. Distances are in units of 100 m, to which
-- `RoutingService.distanceKm` rounds.
use nation_wide.Common.{
  ℕ, ◌+◌, ◌*◌, Bool, true, false, not, ◌&&◌, ◌||◌, Option, none, some, ltb, ◌==◌, if◌then◌else◌,
  any, String, or_default,
}
use nation_wide.Money.{round2}
use nation_wide.Store.{
  World, M, not_found, bad_request, blocked_cancellation, pure, ◌>>=◌, ◌>>◌, raise_if, modify, gets,
  log, emit, Action, charge_asked, Order, OrderStatus, Shipment, Table, PickupRequest,
  PickupRequestStatus, is_request_status,
}
use nation_wide.Orders.Defs.{find_one, put_order}

-- The fees of the active `CompanySettings`.
pub record CancellationFees : Type 0 where
  pub base_fee : ℕ
  pub per_km_fee : ℕ

-- The answer of `RoutingService.distanceKm`, and how it was measured.
pub record Distance : Type 0 where
  pub tenths : ℕ
  pub source : String

pub record CancellationQuote : Type 0 where
  pub is_blocked : Bool
  pub base_fee : ℕ
  pub per_km_fee : ℕ
  pub distance : Option Distance
  pub total_fee : ℕ

abbrev pub is_over : OrderStatus → Bool
is_over OrderStatus.pending = false
is_over OrderStatus.confirmed = false
is_over OrderStatus.cancelled = true
is_over OrderStatus.completed = true

-- A tracking number of a carrier is mapped to a shipment of the order.
abbrev pub has_awb : ℕ → Shipment → Bool
has_awb id s = (s.order_id == id) && ltb 0 s.awb_count

-- Whether `cancellationBlockedReason` gives a reason.
unfoldable pub cancellation_blocked_reason : Order → World → Bool
cancellation_blocked_reason o w = is_over o.status || any (has_awb o.id) w.shipments

-- No settings row means no fees.
abbrev pub fee_settings : Option CancellationFees → CancellationFees
fee_settings none = record { base_fee = 0; per_km_fee = 0 }
fee_settings (some s) = s

-- No coordinates means no distance, and the base fee alone.
abbrev pub tenths_of : Option Distance → ℕ
tenths_of none = 0
tenths_of (some d) = d.tenths

unfoldable pub total_fee : CancellationFees → Option Distance → ℕ
total_fee fees d = round2 (10 * fees.base_fee + fees.per_km_fee * tenths_of d) 10

unfoldable pub quote_cancellation :
    Option CancellationFees → (ℕ → Option Distance) → ℕ → M CancellationQuote
unfolding find_one
quote_cancellation settings distance_km id = do
  o ← find_one id
  blocked ← gets (cancellation_blocked_reason o)
  pure (record {
    is_blocked = blocked;
    base_fee = (fee_settings settings).base_fee;
    per_km_fee = (fee_settings settings).per_km_fee;
    distance = distance_km id;
    total_fee = total_fee (fee_settings settings) (distance_km id);
  })

abbrev pub is_order_request : ℕ → PickupRequest → Bool
is_order_request id r = elim r.order_id [ none ↦ false | some o ↦ o == id ]

abbrev pub cancel_row : ℕ → Option String → PickupRequest → PickupRequest
cancel_row id reason r =
    if is_order_request id r && not (is_request_status r.status PickupRequestStatus.completed)
    then record r {
      status = PickupRequestStatus.cancelled;
      rejection_reason = some (or_default reason "Order cancelled");
    }
    else r

-- The `updateMany` on the pickup requests of the order. It is not run for an order that has no
-- request, where it would find no row.
unfoldable pub cancel_requests : ℕ → Option String → Table PickupRequest → Table PickupRequest
cancel_requests id reason t j = elim (t j) [ none ↦ none | some r ↦ some (cancel_row id reason r) ]

abbrev pub source_of : Option Distance → Option String
source_of none = none
source_of (some d) = some d.source

abbrev pub length_of : Option Distance → Option ℕ
length_of none = none
length_of (some d) = some d.tenths

unfoldable pub with_cancellation : ℕ → Option String → CancellationQuote → Order → Order
with_cancellation now reason q o = record o {
  status = OrderStatus.cancelled;
  cancelled_at = some now;
  cancellation_reason = reason;
  cancellation_fee = some q.total_fee;
  cancellation_distance = length_of q.distance;
  cancellation_distance_source = source_of q.distance;
}

-- `customer_id && order.customerId !== customerId`.
abbrev pub is_other : Option ℕ → ℕ → Bool
is_other none owner = false
is_other (some c) owner = not (owner == c)

unfoldable pub ask_charge : ℕ → ℕ → M (Unit {0})
ask_charge id fee = if ltb 0 fee then emit (charge_asked id fee) else pure tt

unfoldable pub cancel :
    Option CancellationFees → (ℕ → Option Distance) → ℕ → ℕ → Option String → ℕ → Option ℕ → M Order
unfolding find_one cancellation_blocked_reason quote_cancellation with_cancellation cancel_requests
    ask_charge
cancel settings distance_km now id reason actor customer_id = do
  o ← find_one id
  raise_if (is_other customer_id o.customer_id) not_found
  blocked ← gets (cancellation_blocked_reason o)
  raise_if blocked (bad_request blocked_cancellation)
  q ← quote_cancellation settings distance_km id
  modify (put_order (with_cancellation now reason q o))
  modify λ w. record w { requests = cancel_requests id reason w.requests }
  ask_charge id q.total_fee
  log actor Action.order_cancelled id
  find_one id
