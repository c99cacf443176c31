-- ===== src/Parcel.antt =====
-- Boxes, their weights and their kinds: packages/shared-types/src/parcel.ts and
-- backend/src/common/dto/parcel.dto.ts.
-- Weights are whole grams (the DTO accepts two decimals of a kilogram) and dimensions whole
-- millimetres (one decimal of a centimetre), so a volumetric weight is a whole number of
-- 1/5000 gram.
mod Kind
mod Weight
unfoldable pub use Weight.{
  volumetric_weight, charged_units, total_units, chargeable_weight, clean_packages,
}
pub use Kind.*
pub use Weight.*
