-- ===== src/PickupRequests/Terms.antt =====
-- What a booking charges, and what it writes back onto the quote.
use nation_wide.Common.{ℕ, Option, none, some, ◌==◌, find, String, or_default}
use nation_wide.Store.{M, pure, ◌>>=◌, Quote, QuoteOption, Coupon}
use nation_wide.Coupons.{validate}
use nation_wide.Orders.Payment.{or_kept}

unfoldable pub selected_option : Quote → Option QuoteOption
selected_option q = elim q.selected_option_id [
  | none ↦ none
  | some id ↦ find (λ o. o.id == id) q.options
]

-- `dto.couponCode ? await this.coupons.validate(dto.couponCode) : null`.
unfoldable pub coupon_of : ℕ → Option String → M (Option Coupon)
coupon_of now none = pure none
coupon_of now (some String.[]) = pure none
coupon_of now (some (String.◌∷◌ c s)) = do a ← validate now (String.◌∷◌ c s); pure (some a)

-- The columns of the quote that a staff booking sets.
pub record QuoteUpdate : Type 0 where
  pub selected_option_id : Option ℕ
  pub quoted_amount : Option ℕ
  pub quoted_currency : Option String
  pub quoted_by : Option ℕ
  pub quoted_at : Option ℕ

abbrev pub no_update : QuoteUpdate
no_update = record {
  selected_option_id = none;
  quoted_amount = none;
  quoted_currency = none;
  quoted_by = none;
  quoted_at = none;
}

abbrev pub update_columns : QuoteUpdate → Quote → Quote
update_columns u q = record q {
  selected_option_id = or_kept u.selected_option_id q.selected_option_id;
  quoted_amount = or_kept u.quoted_amount q.quoted_amount;
  quoted_currency = or_kept u.quoted_currency q.quoted_currency;
  quoted_by = or_kept u.quoted_by q.quoted_by;
  quoted_at = or_kept u.quoted_at q.quoted_at;
}

-- What a booking charges, and what that writes back onto the quote.
pub record BookingPricing : Type 0 where
  pub rate_provider_id : Option ℕ
  pub rate_provider_name : Option String
  pub estimated_price : ℕ
  pub currency : String
  pub quote : QuoteUpdate

-- The chosen option of a carrier, or the price that staff have set by hand.
unfoldable pub pricing_of : Option QuoteOption → Quote → BookingPricing
pricing_of none q = record {
  rate_provider_id = none;
  rate_provider_name = none;
  estimated_price = or_default q.quoted_amount 0;
  currency = or_default q.quoted_currency "INR";
  quote = no_update;
}
pricing_of (some o) q = record {
  rate_provider_id = some o.option.rate_provider_id;
  rate_provider_name = some o.option.rate_provider_name;
  estimated_price = o.option.final_price;
  currency = o.option.currency;
  quote = no_update;
}
