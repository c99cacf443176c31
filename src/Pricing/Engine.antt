-- ===== src/Pricing/Engine.antt =====
-- `PricingEngineService` of pricing/pricing-engine.service.ts.
mod Defs
mod Computed
mod Options
unfoldable pub use Defs.{
  rate_card_shipment_type, compute_option, zones_of, is_eligible, price_cards,
  compute_quotes_for_request, preview_rate,
}
pub use Defs.*
pub use Options.*
