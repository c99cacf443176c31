-- ===== src/Quotes/Rating.antt =====
-- `classifyManualReview`, and how `create` rates a request.
use nation_wide.Common.{
  ℕ, ◌≤◌, ◌≡◌, ◌≢◌, ◌↔◌, false, Option, none, some, List, [], ◌∷◌, arith, ltb, if◌then◌else◌,
}
use nation_wide.Parcel.{ShipmentType, other, same_kind}
use nation_wide.Pricing.Engine.{
  ComputedRateOption, ComputeQuotesInput, Tables, compute_quotes_for_request,
}
use nation_wide.Store.{QuoteStatus, QuoteReviewReason}

abbrev pub oversized_weight : ℕ
oversized_weight = 100_000

unfoldable pub classify_manual_review : ShipmentType → ℕ → Option QuoteReviewReason
classify_manual_review kind weight =
    if same_kind kind other
    then some QuoteReviewReason.miscellaneous
    else if ltb oversized_weight weight
    then some QuoteReviewReason.oversized
    else none

-- The status and the reason of a new quote, and the options that are stored with it.
pub record Rating : Type 0 where
  pub status : QuoteStatus
  pub review_reason : Option QuoteReviewReason
  pub options : List ComputedRateOption

abbrev pub rated_by : List ComputedRateOption → Rating
rated_by [] = record {
  status = QuoteStatus.needs_manual_review;
  review_reason = some QuoteReviewReason.no_rate_available;
  options = [];
}
rated_by (o ∷ os) = record { status = QuoteStatus.rated; review_reason = none; options = o ∷ os }

-- The engine runs only where no reason for a manual review is known before.
unfoldable pub rate_request : Tables → ComputeQuotesInput → Rating
unfolding classify_manual_review
rate_request t i = elim (classify_manual_review i.shipment_type i.weight) [
  | none ↦ rated_by (compute_quotes_for_request t i)
  | some reason ↦ record {
    status = QuoteStatus.needs_manual_review;
    review_reason = some reason;
    options = [];
  }
]

abbrev pub AutoRated : Tables → ComputeQuotesInput → Type 0
AutoRated t i =
    (same_kind i.shipment_type other ≡ false)
    × (i.weight ≤ oversized_weight)
    × (compute_quotes_for_request t i ≢ [])

-- A request is rated exactly when its kind is known, it weighs at most 100 kg and the engine has an
-- option for it.
pub rate_request_iff :
    (t : Tables) (i : ComputeQuotesInput)
    → ((rate_request t i).status ≡ QuoteStatus.rated) ↔ AutoRated t i
unfolding rate_request classify_manual_review
rate_request_iff t i = (λ h. ground arith, λ h. ground arith)
