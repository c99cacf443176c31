-- ===== src/Gst.antt =====
-- The tax arithmetic of an invoice: backend/src/modules/invoices/gst.ts.
mod Split
mod Breakdown
unfoldable pub use Split.{split_gst}
unfoldable pub use Breakdown.{resolve_charged_breakdown}
pub use Split.*
pub use Breakdown.*
