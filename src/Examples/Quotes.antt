-- ===== src/Examples/Quotes.antt =====
-- Decisions on quotes of the sample state.
use nation_wide.Common.{◌≡◌, refl, false, none, some, [], ◌∷◌, ◌==◌, if◌then◌else◌}
use nation_wide.Parcel.{parcel}
use nation_wide.Pricing.Price.{add_charges}
use nation_wide.Pricing.Engine.{ComputeQuotesInput}
use nation_wide.Store.{World, Refused, ok, Quote, QuoteStatus, QuoteOption, PickupRequestStatus}
use nation_wide.PickupRequests.Access.{is_open}
use nation_wide.Quotes.Decide.{
  ManualQuote, accept_quote, select_option, decline_quote, set_manual_quote, reject, orphan_row,
  pending_row, check_selectable, select_by, find_one_or_throw, claim_quote,
  transition_to_pending_pickup_request, cancel_orphan,
}
use nation_wide.Quotes.Decided.{decided-Refused, Selected, select_option-Selected, reject_closes}
use nation_wide.Examples.Rows.{asked_quote, booked, sample}

abbrev offer : QuoteOption
offer = record {
  id = 8;
  option = record {
    rate_provider_id = 1;
    rate_provider_name = "ICL";
    rate_card_id = 1;
    weight_slab_id = 1;
    currency = "INR";
    breakdown = add_charges 100_000 5_000 1_250 1_800 2_000;
  };
}

abbrev offered : Quote
offered = record asked_quote {
  id = 2;
  status = QuoteStatus.rated;
  options_expire_at = some 1_000;
  options = offer ∷ [];
}

abbrev taken : Quote
taken = record asked_quote { id = 3; status = QuoteStatus.accepted }

abbrev market : World
market = record sample {
  quotes = λ id.
      if id == 1
      then some asked_quote
      else if id == 2
      then some offered
      else if id == 3
      then some taken
      else none;
}

abbrev by_hand : ManualQuote
by_hand = record { amount = 90_000; currency = none; internal_notes = none }

decided-Refused_example :
    Refused market (accept_quote 3 1 market)
    × Refused market (select_option 500 3 8 1 market)
    × Refused market (decline_quote 3 1 market)
    × Refused market (set_manual_quote 500 3 by_hand 1 market)
    × Refused market (reject 3 "late" 1 market)
decided-Refused_example = decided-Refused 500 3 1 8 by_hand "late" market taken refl refl

chosen : (select_option 500 2 8 1 market).0 ≡ ok (pending_row (some offer) offered)
unfolding select_option check_selectable select_by find_one_or_throw claim_quote
    transition_to_pending_pickup_request
chosen = refl

select_option-Selected_example : Selected 500 8 offered (pending_row (some offer) offered)
select_option-Selected_example =
    select_option-Selected 500 2 8 1 market offered (pending_row (some offer) offered) refl chosen

closed : (reject 1 "late" 9 market).1.requests 1 ≡ some (orphan_row 1 booked)
unfolding reject find_one_or_throw cancel_orphan
closed = refl

reject_closes_example : is_open PickupRequestStatus.cancelled ≡ false
reject_closes_example =
    reject_closes 1 "late" 9 market asked_quote 1 (orphan_row 1 booked) refl refl closed refl

abbrev asked : ComputeQuotesInput
asked = record { destination_country_name = "Japan"; weight = 120_000; shipment_type = parcel }
