-- ===== src/Orders.antt =====
-- Orders, their payments and their cancellation: backend/src/modules/orders/orders.service.ts.
mod Defs
pub mod Payment
pub mod Cancel
pub mod Cancellation
pub mod Settled
unfoldable pub use Defs.{
  find_one, resolve_provider, create_for_order, create_order_with_shipment, create, update,
  set_returned,
}
pub use Defs.*
