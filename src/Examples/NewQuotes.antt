-- ===== src/Examples/NewQuotes.antt =====
-- A quote that is submitted twice.
use nation_wide.Common.{◌≡◌, refl, none, some, [], ◌∷◌}
use nation_wide.Parcel.{packaged}
use nation_wide.Store.{World, ok, Quote}
use nation_wide.Quotes.Rating.{rate_request}
use nation_wide.Quotes.Window.{CreateQuote}
use nation_wide.Quotes.Create.{create, new_quote, input_of, preview}
use nation_wide.Quotes.Created.{Submission, submit, IsAnswered, create_again}
use nation_wide.Quotes.Previewed.{shown, create-preview}
use nation_wide.Examples.Rows.{nobody, sample}
use nation_wide.Examples.Prices.{tables}

abbrev enquiry : CreateQuote
enquiry = record {
  shipment_type = packaged;
  weight = 1_500;
  packages = none;
  items = none;
  recipient = nobody;
  country = "Japan";
  fulfillment_method = none;
  pickup_date = none;
  time_slot = none;
  submission_key = "first";
}

abbrev priced : World
priced = record sample { tables = tables }

abbrev made : Quote
made = new_quote priced.texts 10 none enquiry 1 (rate_request tables (input_of enquiry)) 100

abbrev written : World
written = (create 10 none enquiry 1 priced).1

-- Another customer's quote, submitted before the first is submitted again.
abbrev another : Submission
another = record {
  at = 15;
  hours = none;
  dto = record enquiry { submission_key = "second" };
  customer = 2;
}

create_again_example :
    IsAnswered 20
      (some 24)
      (record enquiry { weight = 9_000 })
      2
      (submit (another ∷ []) written)
      made
unfolding create
create_again_example =
    create_again 10 20 none (some 24) enquiry (record enquiry { weight = 9_000 }) 1 2 priced written
      made (another ∷ []) refl refl

create-preview_example : preview (input_of enquiry) priced ≡ (ok (shown made), priced)
unfolding create
create-preview_example = create-preview 10 none enquiry 1 priced written made refl refl
