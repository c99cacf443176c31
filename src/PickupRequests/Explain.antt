-- ===== src/PickupRequests/Explain.antt =====
-- Why the price at the door differs from the quote: `recalculate`, `explainPriceChange`.
use nation_wide.Common.{
  ℕ, Bool, false, Option, none, some, List, [], ◌∷◌, ◌==◌, if◌then◌else◌, find, String,
}
use nation_wide.Money.{ℤ, minus}
use nation_wide.Parcel.{ShipmentType, same_kind}
use nation_wide.Pricing.Price.{PriceBreakdown}
use nation_wide.Pricing.Engine.{ComputedRateOption}
use nation_wide.Store.{M, not_found, or_raise, pure, ◌>>=◌, PickupRequest, Quote, QuoteOption}
use nation_wide.PickupRequests.Access.{find_one_for_partner}
use nation_wide.PickupRequests.Door.{reprice_against_original_provider}

-- The label, and the values that it gives as texts.
pub data PriceChange : Type 0 where
  chargeable_weight carrier_base_rate fuel_surcharge peak_season_surcharge gst handling_charge :
      (before after : ℕ) → PriceChange
  shipment_type : (before after : ShipmentType) → PriceChange

abbrev changed_amount : (ℕ → ℕ → PriceChange) → ℕ → ℕ → List PriceChange → List PriceChange
changed_amount label a b rest = if a == b then rest else label a b ∷ rest

-- The changes of the tariff.
unfoldable pub explain_rates : PriceBreakdown → PriceBreakdown → List PriceChange
explain_rates quoted fresh = changed_amount carrier_base_rate quoted.base_rate fresh.base_rate (
    changed_amount fuel_surcharge quoted.fuel_charge_percent fresh.fuel_charge_percent (
      changed_amount peak_season_surcharge quoted.pss_amount fresh.pss_amount (
        changed_amount gst quoted.gst_percent fresh.gst_percent
          (changed_amount handling_charge quoted.nationwide_cut fresh.nationwide_cut []))))

abbrev explain_option : Option QuoteOption → PriceBreakdown → List PriceChange
explain_option none fresh = []
explain_option (some o) fresh = explain_rates o.option.breakdown fresh

abbrev pub is_selected : Option ℕ → QuoteOption → Bool
is_selected none o = false
is_selected (some id) o = o.id == id

-- A quote without a selected option has no earlier breakdown to compare.
unfoldable pub explain_price_change : Quote → PriceBreakdown → ℕ → ShipmentType → List PriceChange
unfolding explain_rates
explain_price_change q fresh weight kind = changed_amount chargeable_weight q.weight weight (
    let rates = explain_option (find (is_selected q.selected_option_id) q.options) fresh in
    if same_kind q.shipment_type kind then rates else shipment_type q.shipment_type kind ∷ rates)

pub record RecalculatePreview : Type 0 where
  pub estimated_price : ℕ
  pub recalculated_price : Option ℕ
  pub difference : Option ℤ
  pub currency : String
  pub changes : List PriceChange

abbrev preview_of :
    PickupRequest → Quote → ℕ → ShipmentType → Option ComputedRateOption → RecalculatePreview
preview_of r q weight kind none = record {
  estimated_price = r.estimated_price;
  recalculated_price = none;
  difference = none;
  currency = r.currency;
  changes = [];
}
preview_of r q weight kind (some o) = record {
  estimated_price = r.estimated_price;
  recalculated_price = some o.final_price;
  difference = some (minus o.final_price r.estimated_price);
  currency = r.currency;
  changes = explain_price_change q o.breakdown weight kind;
}

unfoldable pub recalculate : ℕ → ℕ → ShipmentType → ℕ → Bool → M RecalculatePreview
unfolding find_one_for_partner reprice_against_original_provider explain_price_change
recalculate id weight kind partner as_admin = do
  r ← find_one_for_partner id partner as_admin
  q ← λ w. or_raise (w.quotes r.quote_id) not_found w
  fresh ← reprice_against_original_provider r weight kind
  pure (preview_of r q weight kind fresh)
