-- ===== src/LegacyPickups.antt =====
-- The pickups of orders that are made at once: backend/src/modules/pickups/pickups.service.ts.
pub mod Status
pub mod Life
