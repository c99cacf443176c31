-- ===== src/Orders/Defs.antt =====
-- `OrdersService`: create, update, setReturned, updatePayment, quoteCancellation, cancel; and
-- `ShipmentsService.createForOrder`, whose tracking number is not modelled.
use text.Mathlib.Text.{◌==◌ as str_eq}
use nation_wide.Common.{
  ℕ, ◌+◌, Bool, Option, none, some, ◌∷◌, if◌then◌else◌, find, String, or_default,
}
use nation_wide.Store.{
  World, M, ok, not_found, bad_request, unknown_provider, pure, or_raise, ◌>>=◌, ◌>>◌, modify, log,
  emit, Action, notified, Template, put, Order, OrderStatus, PaymentStatus, Shipment,
  ShippingProvider,
}

abbrev pub default_provider_code : String
default_provider_code = "ICL"

unfoldable pub find_one : ℕ → M Order
find_one id w = or_raise (w.orders id) not_found w

unfoldable pub resolve_provider : Option String → M ShippingProvider
resolve_provider code w =
    or_raise (find (λ p. str_eq p.code (or_default code default_provider_code)) w.providers)
      (bad_request unknown_provider) w

-- The columns that have a default in the schema.
abbrev pub new_order : ℕ → ℕ → Order
new_order id customer = record {
  id = id;
  customer_id = customer;
  status = OrderStatus.pending;
  payment_status = PaymentStatus.pending;
  payment_method = none;
  paid_amount = none;
  paid_at = none;
  payment_marked_by = none;
  payer_name = none;
  payment_note = none;
  refunded_amount = none;
  refunded_at = none;
  refund_note = none;
  coupon_id = none;
  discount_amount = none;
  due_amount = none;
  due_approved_by = none;
  cancelled_at = none;
  cancellation_reason = none;
  cancellation_fee = none;
  cancellation_distance = none;
  cancellation_distance_source = none;
  returned_at = none;
  return_note = none;
}

abbrev pub put_order : Order → World → World
put_order o w = record w { orders = put w.orders o.id o }

unfoldable pub create_for_order : ℕ → ℕ → M Shipment
create_for_order order_id provider_id w =
    let shipment : Shipment = record {
      id = w.next_id;
      order_id = order_id;
      provider_id = provider_id;
      awb_count = 0;
    } in
    (ok shipment, record w { shipments = shipment ∷ w.shipments; next_id = w.next_id + 1 })

abbrev insert_order : ℕ → M Order
insert_order customer w =
    let order = new_order w.next_id customer in
    (ok order, record w { orders = put w.orders order.id order; next_id = w.next_id + 1 })

unfoldable pub create_order_with_shipment : ℕ → Option String → M (Order × Shipment)
unfolding resolve_provider create_for_order
create_order_with_shipment customer_id provider_code = do
  customer ← λ w. or_raise (w.customers customer_id) not_found w
  provider ← resolve_provider provider_code
  order ← insert_order customer_id
  shipment ← create_for_order order.id provider.id
  pure (order, shipment)

unfoldable pub create : ℕ → Option String → M Order
unfolding create_order_with_shipment find_one
create customer_id provider_code = do
  made ← create_order_with_shipment customer_id provider_code
  emit (notified customer_id Template.order_confirmation)
  find_one made.0.id

unfoldable pub update : ℕ → OrderStatus → M Order
unfolding find_one
update id status = do
  o ← find_one id
  modify (put_order (record o { status = status }))
  find_one id

unfoldable pub set_returned : ℕ → ℕ → Bool → Option String → ℕ → M Order
unfolding find_one
set_returned now id returned note actor = do
  o ← find_one id
  modify (
      put_order (record o {
        returned_at = if returned then some now else none;
        return_note = if returned then note else none;
      }))
  log actor (if returned then Action.parcel_returned else Action.return_undone) id
  find_one id
