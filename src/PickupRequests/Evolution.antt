-- ===== src/PickupRequests/Evolution.antt =====
-- Every operation evolves the requests by the steps of `RowStep`.
pub mod Door
pub mod Payment
pub mod Closing
pub mod Handling
pub mod Booking
pub mod Batch
