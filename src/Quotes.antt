-- ===== src/Quotes.antt =====
-- Quotes: backend/src/modules/quotes/quotes.service.ts.
pub mod Rating
pub mod Window
pub mod Create
pub mod Created
pub mod Previewed
pub mod Decide
pub mod Decided
