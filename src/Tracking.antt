-- ===== src/Tracking.antt =====
-- Where a parcel is, and what its receiver says of it: tracking, shipments and reviews of
-- backend/src/modules.
pub mod Rows
pub mod Reviews
pub mod Shipments
pub mod Events
pub mod Status
pub mod Calls
pub mod Numbers
pub mod History
pub mod Invitations
pub mod Invited
pub mod Again
pub mod Shown
