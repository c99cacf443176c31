-- ===== src/Quotes/Create.antt =====
-- `create` and `preview` of a quote.

use text.Mathlib.Text.{◌==◌ as str_eq}
use nation_wide.Common.{
  ℕ, zero, suc, ◌+◌, ◌*◌, Bool, true, false, Option, none, some, List, [], ◌∷◌, map, if◌then◌else◌,
  String, or_default,
}
use nation_wide.Parcel.{Package, chargeable_weight, clean_packages}
use nation_wide.Pricing.Engine.{ComputedRateOption, ComputeQuotesInput, compute_quotes_for_request}
use nation_wide.Store.{
  Table, put, M, ok, err, conflict, ◌>>◌, Texts, Quote, QuoteStatus, QuoteReviewReason, QuoteOption,
  is_quote_status, Recipient, ShipmentItem,
}
use nation_wide.PickupRequests.Door.{clean_items, not_empty}
use nation_wide.Quotes.Window.{CreateQuote, check_window}
use nation_wide.Quotes.Rating.{Rating, rate_request, classify_manual_review}

-- The weight of the boxes, where they are given.
unfoldable pub weight_of : CreateQuote → ℕ
weight_of dto = elim dto.packages [ none ↦ dto.weight | some ps ↦ chargeable_weight ps ]

unfoldable pub input_of : CreateQuote → ComputeQuotesInput
unfolding weight_of
input_of dto = record {
  destination_country_name = dto.country;
  weight = weight_of dto;
  shipment_type = dto.shipment_type;
}

abbrev destination_of : Recipient → Recipient
destination_of r = record {
  name = not_empty r.name;
  phone = not_empty r.phone;
  address_line1 = not_empty r.address_line1;
  address_line2 = not_empty r.address_line2;
  city = not_empty r.city;
  state = not_empty r.state;
  postal_code = not_empty r.postal_code;
}

-- The rows of the options, with ids from `id` on.
unfoldable pub option_rows : ℕ → List ComputedRateOption → List QuoteOption
option_rows id [] = []
option_rows id (o ∷ os) = record { id = id; option = o } ∷ option_rows (id + 1) os

unfoldable pub count : List ComputedRateOption → ℕ
count [] = 0
count (o ∷ os) = count os + 1

abbrev default_validity_hours : ℕ
default_validity_hours = 48

-- A rated quote expires after so many hours.
abbrev expiry : ℕ → Option ℕ → QuoteStatus → Option ℕ
expiry now hours status =
    if is_quote_status status QuoteStatus.rated
    then some (now + or_default hours default_validity_hours * 60 * 60 * 1_000)
    else none

abbrev clean_items_of : Texts → Option (List ShipmentItem) → Option (List ShipmentItem)
clean_items_of t none = none
clean_items_of t (some is) = some (clean_items t is)

abbrev clean_packages_of : Option (List Package) → Option (List Package)
clean_packages_of none = none
clean_packages_of (some ps) = some (clean_packages ps)

unfoldable pub new_quote : Texts → ℕ → Option ℕ → CreateQuote → ℕ → Rating → ℕ → Quote
new_quote t now hours dto customer rating id = record {
  id = id;
  customer_id = customer;
  shipment_type = dto.shipment_type;
  weight = weight_of dto;
  packages = clean_packages_of dto.packages;
  items = clean_items_of t dto.items;
  recipient = destination_of dto.recipient;
  dest_country = dto.country;
  fulfillment_method = dto.fulfillment_method;
  status = rating.status;
  review_reason = rating.review_reason;
  quoted_amount = none;
  quoted_currency = none;
  quoted_by = none;
  quoted_at = none;
  internal_notes = none;
  rejection_reason = none;
  submission_key = dto.submission_key;
  order_id = none;
  selected_option_id = none;
  options_expire_at = expiry now hours rating.status;
  options = option_rows (id + 1) rating.options;
}

abbrev pub keyed : String → Option Quote → Option Quote
keyed key none = none
keyed key (some q) = if str_eq q.submission_key key then some q else none

abbrev pub or_else {ℓ} : {A : Type ℓ} → Option A → Option A → Option A
or_else none o = o
or_else (some a) o = some a

-- The row that the unique index on `submissionKey` finds, among the ids that were given out.
unfoldable pub quote_by_key : String → Table Quote → ℕ → Option Quote
quote_by_key key t zero = none
quote_by_key key t (suc n) = or_else (quote_by_key key t n) (keyed key (t n))

abbrev pub is_row : Option Quote → Bool
is_row none = false
is_row (some q) = true

-- The write, or the row that an earlier submission with the key has made.
unfoldable pub insert_quote : Option Quote → (ℕ → Quote) → ℕ → M Quote
insert_quote (some q) make options w = (ok q, w)
insert_quote none make options w = if is_row (w.quotes w.next_id) then (err conflict, w) else (
  ok (make w.next_id),
  record w { quotes = put w.quotes w.next_id (make w.next_id); next_id = w.next_id + 1 + options },
)

unfoldable pub write_quote : ℕ → Option ℕ → CreateQuote → ℕ → M Quote
unfolding rate_request input_of new_quote insert_quote quote_by_key count
write_quote now hours dto customer w =
    let rating = rate_request w.tables (input_of dto) in
    insert_quote (quote_by_key dto.submission_key w.quotes w.next_id)
      (new_quote w.texts now hours dto customer rating) (count rating.options) w

unfoldable pub create : ℕ → Option ℕ → CreateQuote → ℕ → M Quote
unfolding check_window write_quote
create now hours dto customer = do check_window now dto; write_quote now hours dto customer

-- `GET /quotes/preview`.
pub record PreviewOption : Type 0 where
  pub rate_provider_id : ℕ
  pub rate_provider_name : String
  pub currency : String
  pub final_price : ℕ

pub record PreviewResult : Type 0 where
  pub status : QuoteStatus
  pub review_reason : Option QuoteReviewReason
  pub options : List PreviewOption

abbrev pub preview_option : ComputedRateOption → PreviewOption
preview_option o = record {
  rate_provider_id = o.rate_provider_id;
  rate_provider_name = o.rate_provider_name;
  currency = o.currency;
  final_price = o.final_price;
}

abbrev reviewed_preview : QuoteReviewReason → PreviewResult
reviewed_preview reason = record {
  status = QuoteStatus.needs_manual_review;
  review_reason = some reason;
  options = [];
}

abbrev pub preview_of_options : List ComputedRateOption → PreviewResult
preview_of_options [] = reviewed_preview QuoteReviewReason.no_rate_available
preview_of_options (o ∷ os) = record {
  status = QuoteStatus.rated;
  review_reason = none;
  options = map preview_option (o ∷ os);
}

-- It has branches of its own, which `create` does not share.
unfoldable pub preview : ComputeQuotesInput → M PreviewResult
unfolding classify_manual_review
preview i w = elim (classify_manual_review i.shipment_type i.weight) [
  | some reason ↦ (ok (reviewed_preview reason), w)
  | none ↦ (ok (preview_of_options (compute_quotes_for_request w.tables i)), w)
]
