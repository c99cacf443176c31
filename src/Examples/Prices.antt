-- ===== src/Examples/Prices.antt =====
-- A rate card of two slabs, its prices and its edits.
use nation_wide.Common.{
  ◌+◌, ◌*◌, ◌≤◌, ◌<◌, ◌≡◌, ◌↔◌, refl, inr, true, false, none, some, List, [], ◌∷◌, arith, In, here,
  there, filter_by, sort_by, insert_by, ◌==◌, if◌then◌else◌,
}
use nation_wide.Parcel.{
  Package, packaged, parcel, chargeable_weight, total_units, actual, volumetric,
  chargeable_weight_bounds,
}
use nation_wide.Pricing.Price.{
  PriceCalculationInput, flat, calculate_final_price, calculate_final_price_mono,
}
use nation_wide.Pricing.Bands.{MarginBand, margin_from_bands, band_margin, covers}
use nation_wide.Pricing.Bands.Edit.{
  BandsDb, BandsCall, run as run_edits, set_margin_bands, check_bands,
}
use nation_wide.Pricing.Bands.Apart.{run-margin}
use nation_wide.Pricing.Slabs.{
  WeightSlab, range_of, find_overlapping_slabs, find_overlapping_slabs_iff, Disjoint,
  find_matching_slab, active_slabs,
}
use nation_wide.Pricing.Engine.{
  Country, RateProvider, RateCard, Tables, ComputeQuotesInput, compute_option,
  compute_quotes_for_request, compute_quotes_for_request_iff, Offered,
}
use nation_wide.Rates.{
  RatesDb, IsValid, CreateRateDto, sets_active, set_active, set_active_found, write_slab, put_slab,
  run, run_call, run-find_matching_slab, on_card,
}

abbrev box : Package
box = record { weight = 1_500; length_mm = some 300; width_mm = some 200; height_mm = some 200 }

chargeable_weight_bounds_example :
    (actual (box ∷ []) ≤ chargeable_weight (box ∷ []))
    × (volumetric (box ∷ []) ≤ chargeable_weight (box ∷ []) * 5000)
    × (total_units 0 (box ∷ []) ≤ chargeable_weight (box ∷ []) * 5000)
    × (chargeable_weight (box ∷ []) * 5000 < total_units 0 (box ∷ []) + 50_000)
chargeable_weight_bounds_example = chargeable_weight_bounds (box ∷ [])

abbrev two_kilos : PriceCalculationInput
two_kilos = record {
  base_rate = 100_000;
  rate_type = flat;
  tax_inclusive = false;
  fuel_charge_percent = 1_250;
  pss_per_kg = 2_500;
  weight = 2_000;
  gst_percent = 1_800;
  nationwide_cut = 2_000;
}

calculate_final_price_mono_example :
    (calculate_final_price two_kilos).final_price
    ≤ (calculate_final_price (record two_kilos { weight = 3_000 })).final_price
calculate_final_price_mono_example =
    calculate_final_price_mono two_kilos (record two_kilos { weight = 3_000 }) refl refl
      (refl, refl, omega arith, omega arith, omega arith, omega arith, omega arith)

abbrev ladder : List MarginBand
ladder =
    record { from = 0; to = some 5_000; flat_amount = 10_000; per_kg_amount = 1_000 }
    ∷ record { from = 5_000; to = none; flat_amount = 15_000; per_kg_amount = 500 }
    ∷ []

abbrev top_band : MarginBand
top_band = record { from = 5_000; to = none; flat_amount = 15_000; per_kg_amount = 500 }

abbrev no_bands : BandsDb
no_bands = record { bands = λ id. if id == 1 then some [] else none; audit = [] }

-- The bands are sent out of order, and an overlapping edit is refused after them.
abbrev band_edits : List BandsCall
band_edits =
    record {
      id = 1;
      bands =
          top_band
          ∷ record { from = 0; to = some 5_000; flat_amount = 10_000; per_kg_amount = 1_000 }
          ∷ [];
      actor = some 9;
    }
    ∷ record { id = 1; bands = top_band ∷ top_band ∷ []; actor = some 9 }
    ∷ []

run-margin_example : margin_from_bands ladder 6_000 ≡ band_margin 6_000 top_band
unfolding run_edits set_margin_bands check_bands sort_by insert_by covers
run-margin_example =
    run-margin band_edits no_bands 1 ladder top_band 6_000 (λ j. ground arith) refl
      (there (here refl)) refl

abbrev light : WeightSlab
light = record {
  id = 1;
  rate_card_id = 1;
  weight_from = 0;
  weight_to = 1_000;
  base_rate = 60_000;
  rate_type = flat;
  gst_percent = 1_800;
  nationwide_cut = 2_000;
  is_active = true;
}

abbrev heavy : WeightSlab
heavy = record light { id = 2; weight_from = 1_001; weight_to = 2_000; base_rate = 100_000 }

abbrev slabs : List WeightSlab
slabs = heavy ∷ light ∷ []

find_overlapping_slabs_iff_example :
    (find_overlapping_slabs (range_of heavy ∷ range_of light ∷ []) ≡ none)
    ↔ Disjoint (range_of heavy ∷ range_of light ∷ [])
find_overlapping_slabs_iff_example =
    find_overlapping_slabs_iff (range_of heavy ∷ range_of light ∷ [])
      (omega arith, (omega arith, tt))

abbrev japan : Country
japan = record { id = 1; name = "Japan"; is_active = true }

abbrev carrier : RateProvider
carrier = record {
  id = 1;
  name = "ICL";
  is_active = true;
  fuel_charge_percent = 1_250;
  pss_per_kg = 2_500;
  margin_bands = ladder;
}

abbrev card : RateCard
card = record {
  id = 1;
  zone_id = 1;
  rate_provider = carrier;
  shipment_type = packaged;
  currency = "INR";
  tax_inclusive = false;
  weight_slabs = slabs;
}

abbrev pub tables : Tables
tables = record {
  zone_countries = record { zone_id = 1; country = japan; rate_provider = carrier } ∷ [];
  rate_cards = card ∷ [];
  same_name = λ a b. true;
}

abbrev asked : ComputeQuotesInput
asked = record { destination_country_name = "Japan"; weight = 1_500; shipment_type = parcel }

compute_quotes_for_request_iff_example :
    In (compute_option card heavy 1_500) (compute_quotes_for_request tables asked)
    ↔ Offered tables asked (compute_option card heavy 1_500)
compute_quotes_for_request_iff_example =
    compute_quotes_for_request_iff tables asked (compute_option card heavy 1_500)

abbrev db : RatesDb
db = record {
  cards = record { id = 1; zone_id = 1; shipment_type = packaged } ∷ [];
  slabs = slabs;
  next_id = 3;
  audit = [];
}

db-IsValid : IsValid db
db-IsValid = record {
  compatible = ((λ a b c. inr (omega arith), tt), (tt, tt));
  distinct = ((omega arith, tt), (tt, tt));
  ranges = (omega arith, (omega arith, tt));
  fresh = (omega arith, (omega arith, tt));
}

abbrev third_slab : CreateRateDto
third_slab = record {
  zone_id = 1;
  shipment_type = packaged;
  weight_from = 2_001;
  weight_to = 3_000;
  base_rate = 140_000;
  gst_percent = none;
  nationwide_cut = none;
}

run-find_matching_slab_example :
    find_matching_slab
      (active_slabs (filter_by (on_card 1) (run ((9, sets_active 1 false) ∷ []) db).slabs))
      1_500
    ≡ some heavy
unfolding run run_call set_active set_active_found write_slab put_slab
run-find_matching_slab_example =
    run-find_matching_slab ((9, sets_active 1 false) ∷ []) db heavy 1_500 db-IsValid (here refl)
      refl refl
