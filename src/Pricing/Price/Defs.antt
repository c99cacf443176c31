-- ===== src/Pricing/Price/Defs.antt =====
-- The definitions of `calculateFinalPrice`.
use nation_wide.Common.{ℕ, ◌+◌, ◌*◌, ◌/◌, Bool, if◌then◌else◌}
use nation_wide.Money.{round2}

pub data RateType : Type 0 where
  flat per_kg : RateType

pub record PriceCalculationInput : Type 0 where
  pub base_rate : ℕ
  pub rate_type : RateType
  pub tax_inclusive : Bool
  pub fuel_charge_percent : ℕ
  pub pss_per_kg : ℕ
  pub weight : ℕ
  pub gst_percent : ℕ
  pub nationwide_cut : ℕ

pub record PriceBreakdown : Type 0 where
  pub base_rate : ℕ
  pub pss_amount : ℕ
  pub fuel_charge_percent : ℕ
  pub fuel_charge_amount : ℕ
  pub taxable_subtotal : ℕ
  pub gst_percent : ℕ
  pub gst_amount : ℕ
  pub nationwide_cut : ℕ
  pub final_price : ℕ

-- `Math.ceil(Number(weightKg.toFixed(6)))`: whole grams have three decimals of a kilogram, so
-- `toFixed` changes nothing.
unfoldable pub billed_kilos : ℕ → ℕ
billed_kilos grams = (grams + 999) / 1000

-- `resolvedRate`: a rate per kilogram becomes the amount for this shipment.
unfoldable pub resolved_rate : RateType → ℕ → ℕ → ℕ
resolved_rate per_kg base grams = round2 (base * billed_kilos grams) 1
resolved_rate flat base grams = base

-- Steps 3 to 7, from the effective base rate and the surcharge.
unfoldable pub add_charges : ℕ → ℕ → ℕ → ℕ → ℕ → PriceBreakdown
add_charges base pss fuel_percent gst_percent cut =
    let fuel = round2 (base * fuel_percent) 10_000 in
    let taxable = round2 (base + pss + fuel) 1 in
    let gst = round2 (taxable * gst_percent) 10_000 in
    let after_gst = round2 (taxable + gst) 1 in
    record {
      base_rate = base;
      pss_amount = pss;
      fuel_charge_percent = fuel_percent;
      fuel_charge_amount = fuel;
      taxable_subtotal = taxable;
      gst_percent = gst_percent;
      gst_amount = gst;
      nationwide_cut = cut;
      final_price = round2 (after_gst + cut) 1;
    }

unfoldable pub calculate_final_price : PriceCalculationInput → PriceBreakdown
calculate_final_price i =
    let resolved = resolved_rate i.rate_type i.base_rate i.weight in
    let fuel_percent : ℕ = if i.tax_inclusive then 0 else i.fuel_charge_percent in
    let pss : ℕ = if i.tax_inclusive then 0 else round2 (i.pss_per_kg * i.weight) 1000 in
    let base : ℕ =
      if i.tax_inclusive then round2 (resolved * 10_000) (10_000 + i.gst_percent) else resolved in
    add_charges base pss fuel_percent i.gst_percent i.nationwide_cut
