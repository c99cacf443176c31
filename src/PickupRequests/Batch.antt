-- ===== src/PickupRequests/Batch.antt =====
-- Booking several parcels at once: `createBatchForCustomer`, `toOrderResult` and `createForAdmin`.
use nation_wide.Common.{ℕ, ◌+◌, if◌then◌else◌, ◌&&◌, Option, none, some, List, [], ◌∷◌, String}
use nation_wide.Store.{
  World, M, not_found, bad_request, not_an_option, pure, or_raise, ◌>>=◌, ◌>>◌, emit, gets,
  notified, remembered, broadcast, Template, PickupRequest, Quote, QuoteStatus, is_quote_status,
  AdminUser,
}
use nation_wide.Quotes.Create.{create as create_quote}
use nation_wide.PickupRequests.Access.{is_partner, announce_assignment}
use nation_wide.PickupRequests.Places.{PickupLogistics}
use nation_wide.PickupRequests.Terms.{BookingPricing}
use nation_wide.PickupRequests.BatchTerms.{
  B2bOrder, B2bCreateOrders, BatchOptions, B2bOrderResult, booked, needs_pricing, batch_logistics,
  quote_request, request_of_quote, chosen_option, manual_pricing, option_pricing,
}
use nation_wide.PickupRequests.Booking.{Booking, commit_booking}

-- A result, with the request if this call has made it.
abbrev pub Outcome : Type 0
Outcome = B2bOrderResult × Option PickupRequest

module _ (now customer : ℕ) (place : PickupLogistics) (opts : BatchOptions) where
  unfoldable pub booking_of : Quote → B2bOrder → BookingPricing → Booking
  booking_of q o pricing = record {
    quote = q;
    customer_id = customer;
    shipment_type = o.shipment_type;
    recipient = o.recipient;
    items = o.items;
    logistics = place;
    pricing = pricing;
    partner_id = opts.partner_id;
  }

  unfoldable pub book_at : ℕ → Quote → B2bOrder → BookingPricing → M Outcome
  book_at index q o pricing = do
    r ← commit_booking now (booking_of q o pricing)
    emit (remembered customer)
    pure (booked index r, some r)

  -- A quote without a price is left for an admin, unless staff have named one.
  unfoldable pub book_unrated : ℕ → Quote → B2bOrder → Option ℕ → Option ℕ → M Outcome
  book_unrated index q o (some price) (some actor) =
      book_at index q o (manual_pricing now price actor)
  book_unrated index q o (some price) none = pure (needs_pricing index q.id, none)
  book_unrated index q o none actor = pure (needs_pricing index q.id, none)

  unfoldable pub book_rated : ℕ → Quote → B2bOrder → M Outcome
  unfolding book_at
  book_rated index q o = do
    c ← or_raise (chosen_option o.rate_provider_id q.options) (bad_request not_an_option)
    book_at index q o (option_pricing c)

  unfoldable pub book_new : ℕ → Quote → B2bOrder → M Outcome
  book_new index q o w =
      if is_quote_status q.status QuoteStatus.rated
      then book_rated index q o w
      else book_unrated index q o o.manual_price opts.actor_id w

  -- The request that an earlier submission has booked.
  unfoldable pub existing_of : Quote → World → Option PickupRequest
  existing_of q w =
      if is_quote_status q.status QuoteStatus.pickup_requested
      then request_of_quote q.id w.requests w.next_id
      else none

  unfoldable pub book_or_find : ℕ → Quote → B2bOrder → Option PickupRequest → M Outcome
  book_or_find index q o (some r) = pure (booked index r, none)
  book_or_find index q o none = book_new index q o

  unfoldable pub book_order : Option ℕ → String → ℕ → B2bOrder → M Outcome
  book_order hours key index o = do
    q ← λ w. create_quote now hours (quote_request (w.texts.numbered key index) o) customer w
    found ← gets (existing_of q)
    book_or_find index q o found

  unfoldable pub book_orders : Option ℕ → String → ℕ → List B2bOrder → M (List Outcome)
  book_orders hours key index [] = pure []
  book_orders hours key index (o ∷ os) = do
    r ← book_order hours key index o
    rs ← book_orders hours key (index + 1) os
    pure (r ∷ rs)

unfoldable pub made_in : List Outcome → List PickupRequest
made_in [] = []
made_in ((res, none) ∷ os) = made_in os
made_in ((res, some r) ∷ os) = r ∷ made_in os

unfoldable pub results_of : List Outcome → List B2bOrderResult
results_of [] = []
results_of (o ∷ os) = o.0 ∷ results_of os

abbrev announce_to : Option ℕ → PickupRequest → M (Unit {0})
announce_to none r = emit (broadcast r.id)
announce_to (some partner) r = announce_assignment r partner

abbrev pub announce_each : Option ℕ → List PickupRequest → M (Unit {0})
announce_each partner [] = pure tt
announce_each partner (r ∷ rs) = announce_to partner r >> announce_each partner rs

-- One message for the batch, and the partners' part for each parcel that this call has booked.
unfoldable pub announce_batch : ℕ → Option ℕ → List PickupRequest → M (Unit {0})
announce_batch customer partner [] = pure tt
announce_batch customer partner (r ∷ rs) = do
  emit (notified customer Template.pickup_request_received)
  announce_each partner (r ∷ rs)

unfoldable pub create_batch_for_customer :
    (String → Option (ℕ × ℕ))
    → ℕ
    → Option ℕ
    → ℕ
    → B2bCreateOrders
    → BatchOptions
    → M (List B2bOrderResult)
create_batch_for_customer resolve now hours customer dto opts = do
  os ←
      book_orders now customer (batch_logistics resolve dto.pickup) opts hours dto.submission_key 0
        dto.orders
  announce_batch customer opts.partner_id (made_in os)
  pure (results_of os)

abbrev pub active_partner : Option AdminUser → Option AdminUser
active_partner none = none
active_partner (some u) = if is_partner u && u.is_active then some u else none

unfoldable pub create_for_admin :
    (String → Option (ℕ × ℕ)) → ℕ → Option ℕ → ℕ → ℕ → B2bCreateOrders → ℕ → M (List B2bOrderResult)
unfolding create_batch_for_customer
create_for_admin resolve now hours partner customer dto actor = do
  p ← λ w. or_raise (active_partner (w.users partner)) not_found w
  c ← λ w. or_raise (w.customers customer) not_found w
  create_batch_for_customer resolve now hours customer dto
      (record { partner_id = some partner; actor_id = some actor })
