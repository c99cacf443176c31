-- ===== src/Pricing.antt =====
-- The pricing engine: backend/src/modules/pricing/pricing-engine.service.ts.
-- Amounts are paise, percentages hundredths of a percent, weights grams: the DTOs of
-- backend/src/modules/pricing/dto accept at most two decimals of an amount and of a percentage,
-- and at most three of a kilogram.
pub mod Price
pub mod Bands
pub mod Slabs
pub mod Engine
