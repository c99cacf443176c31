-- ===== src/PickupRequests.antt =====
-- Pickup requests: backend/src/modules/pickup-requests/pickup-requests.service.ts.
pub mod Access
pub mod Door
pub mod Collection
pub mod Slots
pub mod Places
pub mod Terms
pub mod Booking
pub mod Booked
pub mod BatchTerms
pub mod Batch
pub mod Outcome
pub mod Uploads
pub mod Steps
pub mod Rules
pub mod Evolution
pub mod Valid
pub mod Final
pub mod Calls
pub mod Money
pub mod Explain
mod Linked
pub mod Accepted
mod Closed
pub mod Once
