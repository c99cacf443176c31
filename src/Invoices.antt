-- ===== src/Invoices.antt =====
-- Tax invoices and receipts: backend/src/modules/invoices and receipts.
pub mod Calendar
pub mod Numbering
pub mod States
pub mod Books
pub mod Issue
pub mod Order
pub mod Custom
pub mod Consolidated
pub mod Documents
pub mod Receipts
pub mod Rules
pub mod Keeps
pub mod Together
pub mod Calls
pub mod Series
pub mod Distinct
pub mod Totals
mod Unbilled
pub mod Fresh
pub mod Again
