-- ===== src/Money.antt =====
-- Amounts of money: `round2` of backend/src/modules/invoices/gst.ts (repeated in
-- pricing/pricing-engine.service.ts and orders/orders.service.ts).
-- An amount is a whole number of paise; the argument of `round2` is a fraction of a paisa.
mod Rounding
mod Signed
unfoldable pub use Rounding.{round2}
unfoldable pub use Signed.{minus}
pub use Rounding.*
pub use Signed.*
