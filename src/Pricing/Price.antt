-- ===== src/Pricing/Price.antt =====
-- `calculateFinalPrice`, the seven steps from a base rate to the price that a customer pays.
mod Defs
mod Totals
unfoldable pub use Defs.{billed_kilos, resolved_rate, add_charges, calculate_final_price}
pub use Defs.*
pub use Totals.*
