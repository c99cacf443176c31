-- ===== src/Pricing/Engine/Defs.antt =====
-- `PricingEngineService`: the tables it reads, and the options that it computes.
use nation_wide.Common.{
  ℕ, Bool, ◌&&◌, Option, none, some, List, [], ◌∷◌, ◌==◌, if◌then◌else◌, any, filter_by, String,
  map, or_default, false,
}
use nation_wide.Parcel.{ShipmentType, parcel, packaged, same_kind}
use nation_wide.Pricing.Price.{PriceBreakdown, flat, calculate_final_price}
use nation_wide.Pricing.Bands.{MarginBand, margin_from_bands}
use nation_wide.Pricing.Slabs.{WeightSlab, active_slabs, find_matching_slab}

pub record Country : Type 0 where
  pub id : ℕ
  pub name : String
  pub is_active : Bool

pub record RateProvider : Type 0 where
  pub id : ℕ
  pub name : String
  pub is_active : Bool
  pub fuel_charge_percent : ℕ
  pub pss_per_kg : ℕ
  pub margin_bands : List MarginBand

-- A row with the relations that the query joins to it.
pub record ZoneCountry : Type 0 where
  pub zone_id : ℕ
  pub country : Country
  pub rate_provider : RateProvider

-- `rate_provider` is `zone.rateProvider`.
pub record RateCard : Type 0 where
  pub id : ℕ
  pub zone_id : ℕ
  pub rate_provider : RateProvider
  pub shipment_type : ShipmentType
  pub currency : String
  pub tax_inclusive : Bool
  pub weight_slabs : List WeightSlab

pub record Tables : Type 0 where
  pub zone_countries : List ZoneCountry
  pub rate_cards : List RateCard
  -- `equals` in the database's case-insensitive mode.
  pub same_name : String → String → Bool

pub record ComputeQuotesInput : Type 0 where
  pub destination_country_name : String
  pub weight : ℕ
  pub shipment_type : ShipmentType

pub record ComputedRateOption : Type 0 where
  pub rate_provider_id : ℕ
  pub rate_provider_name : String
  pub rate_card_id : ℕ
  pub weight_slab_id : ℕ
  pub currency : String
  pub breakdown : PriceBreakdown
  pub open breakdown use *

-- `PARCEL` is priced from the rate cards of `PACKAGE`.
unfoldable pub rate_card_shipment_type : ShipmentType → ShipmentType
rate_card_shipment_type parcel = packaged
rate_card_shipment_type t = t

-- `a || b` on amounts: zero is falsy.
abbrev pub or_if_zero : ℕ → ℕ → ℕ
or_if_zero a b = if a == 0 then b else a

unfoldable pub compute_option : RateCard → WeightSlab → ℕ → ComputedRateOption
compute_option card slab weight = record {
  rate_provider_id = card.rate_provider.id;
  rate_provider_name = card.rate_provider.name;
  rate_card_id = card.id;
  weight_slab_id = slab.id;
  currency = card.currency;
  breakdown = calculate_final_price (record {
    base_rate = slab.base_rate;
    rate_type = slab.rate_type;
    tax_inclusive = card.tax_inclusive;
    fuel_charge_percent = card.rate_provider.fuel_charge_percent;
    pss_per_kg = card.rate_provider.pss_per_kg;
    weight = weight;
    gst_percent = slab.gst_percent;
    nationwide_cut =
        or_if_zero slab.nationwide_cut (margin_from_bands card.rate_provider.margin_bands weight);
  });
}

-- The zones that the destination belongs to under an active provider.
unfoldable pub zones_of : Tables → String → List ℕ
zones_of t name =
    map (λ z. z.zone_id)
      (filter_by
        (λ z. z.country.is_active && t.same_name z.country.name name && z.rate_provider.is_active)
        t.zone_countries)

unfoldable pub is_eligible : ShipmentType → List ℕ → RateCard → Bool
is_eligible kind zones card =
    same_kind card.shipment_type (rate_card_shipment_type kind)
    && any (λ z. z == card.zone_id) zones
    && any (λ s. s.is_active) card.weight_slabs

pub add_option :
    RateCard → ℕ → Option WeightSlab → List ComputedRateOption → List ComputedRateOption
add_option card weight none options = options
add_option card weight (some slab) options = compute_option card slab weight ∷ options

-- The loop over the eligible cards; one without a matching slab is left out.
unfoldable pub price_cards : ℕ → List RateCard → List ComputedRateOption
unfolding add_option
price_cards weight [] = []
price_cards weight (card ∷ cards) =
    add_option card weight (find_matching_slab (active_slabs card.weight_slabs) weight)
      (price_cards weight cards)

unfoldable pub quotes_in : Tables → ComputeQuotesInput → List ℕ → List ComputedRateOption
quotes_in t input [] = []
quotes_in t input (z ∷ zs) =
    price_cards input.weight (filter_by (is_eligible input.shipment_type (z ∷ zs)) t.rate_cards)

unfoldable pub compute_quotes_for_request : Tables → ComputeQuotesInput → List ComputedRateOption
compute_quotes_for_request t input = quotes_in t input (zones_of t input.destination_country_name)

-- `previewRate` for a provider that was found: a flat rate, with the provider's live charges.
unfoldable pub preview_rate : RateProvider → ℕ → ℕ → Option ℕ → Option ℕ → PriceBreakdown
preview_rate p weight base gst cut = calculate_final_price (record {
  base_rate = base;
  rate_type = flat;
  tax_inclusive = false;
  fuel_charge_percent = p.fuel_charge_percent;
  pss_per_kg = p.pss_per_kg;
  weight = weight;
  gst_percent = or_default gst 0;
  nationwide_cut = or_if_zero (or_default cut 0) (margin_from_bands p.margin_bands weight);
})
