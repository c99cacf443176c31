-- ===== src/PickupRequests/Evolution/Batch.antt =====
-- Booking several parcels adds fresh rows, also where it stops at one of them.
use nation_wide.Common.{
  ℕ, ◌+◌, refl, inl, inr, Bool-cases, Option, none, some, List, [], ◌∷◌, arith, String,
}
use nation_wide.Store.{
  Table, M, PickupRequest, Quote, QuoteStatus, is_quote_status, Keeps, bind, keep, pure, gets,
  or_raise, not_found, bad_request, not_an_option, ◌>>=◌, ◌>>◌, emit, remembered,
}
use nation_wide.Quotes.Window.{CreateQuote, check_window, assert_valid_pickup_window}
use nation_wide.Quotes.Create.{create as create_quote, write_quote, insert_quote}
use nation_wide.PickupRequests.Places.{PickupLogistics}
use nation_wide.PickupRequests.Terms.{BookingPricing}
use nation_wide.PickupRequests.Booking.{commit_booking}
use nation_wide.PickupRequests.BatchTerms.{
  B2bOrder, B2bCreateOrders, BatchOptions, booked, quote_request, chosen_option, batch_logistics,
  manual_pricing, option_pricing,
}
use nation_wide.PickupRequests.Batch.{
  booking_of, book_at, book_unrated, book_rated, book_new, existing_of, book_or_find, book_order,
  book_orders, made_in, results_of, announce_each, announce_batch, create_batch_for_customer,
  create_for_admin, active_partner, Outcome,
}
use nation_wide.PickupRequests.Steps.{Evolves}
use nation_wide.PickupRequests.Rules.{Evolving, Keeps-Evolving}
use nation_wide.PickupRequests.Evolution.Booking.{commit_booking-Evolving}

create_quote-Keeps :
    (now : ℕ) (hours : Option ℕ) (dto : CreateQuote) (customer : ℕ)
    → Keeps (create_quote now hours dto customer)
unfolding create_quote check_window assert_valid_pickup_window write_quote insert_quote
create_quote-Keeps now hours dto customer w = ground arith

announce_each-Keeps :
    (partner : Option ℕ) (rs : List PickupRequest) → Keeps (announce_each partner rs)
announce_each-Keeps partner [] w = refl
announce_each-Keeps none (r ∷ rs) w = announce_each-Keeps none rs _
announce_each-Keeps (some p) (r ∷ rs) w = announce_each-Keeps (some p) rs _

announce_batch-Keeps :
    (customer : ℕ) (partner : Option ℕ) (rs : List PickupRequest)
    → Keeps (announce_batch customer partner rs)
unfolding announce_batch
announce_batch-Keeps customer partner [] w = refl
announce_batch-Keeps customer partner (r ∷ rs) w = announce_each-Keeps partner (r ∷ rs) _

module _ (t : Table PickupRequest) where
  same : (u : Table PickupRequest) → Evolves t u → Evolves t u
  same u h = h

  -- First one call, then the other.
  both :
      {A B : Type 0} (m : M A) (f : A → M B)
      → Evolving t m
      → ((a : A) → Evolving t (f a))
      → Evolving t (m >>= f)
  both m f h k = bind (Evolves t) (Evolves t) (λ _. Evolves t) (λ _. Evolves t) m f h k

  quiet : {A : Type 0} (m : M A) → Keeps m → Evolving t m
  quiet m k = Keeps-Evolving t 0 m k

  module _ (now customer : ℕ) (place : PickupLogistics) (opts : BatchOptions) where
    book_at-Evolving :
        (index : ℕ) (q : Quote) (o : B2bOrder) (pricing : BookingPricing)
        → Evolving t (book_at now customer place opts index q o pricing)
    unfolding book_at
    book_at-Evolving index q o pricing =
        both (commit_booking now (booking_of now customer place opts q o pricing))
          (λ r. emit (remembered customer) >> pure (booked index r, some r))
          (commit_booking-Evolving t now (booking_of now customer place opts q o pricing))
          (λ r.
            quiet {A = Outcome} (emit (remembered customer) >> pure (booked index r, some r))
              (λ w. refl))

    book_unrated-Evolving :
        (index : ℕ) (q : Quote) (o : B2bOrder) (price actor : Option ℕ)
        → Evolving t (book_unrated now customer place opts index q o price actor)
    unfolding book_unrated
    book_unrated-Evolving index q o (some p) (some a) w h =
        book_at-Evolving index q o (manual_pricing now p a) w h
    book_unrated-Evolving index q o (some p) none w h = h
    book_unrated-Evolving index q o none a w h = h

    book_rated-Evolving :
        (index : ℕ) (q : Quote) (o : B2bOrder)
        → Evolving t (book_rated now customer place opts index q o)
    unfolding book_rated
    book_rated-Evolving index q o =
        both (or_raise (chosen_option o.rate_provider_id q.options) (bad_request not_an_option))
          (λ c. book_at now customer place opts index q o (option_pricing c))
          (quiet (or_raise (chosen_option o.rate_provider_id q.options) (bad_request not_an_option))
            (λ w. ground arith))
          (λ c. book_at-Evolving index q o (option_pricing c))

    book_or_find-Evolving :
        (index : ℕ) (q : Quote) (o : B2bOrder) (found : Option PickupRequest)
        → Evolving t (book_or_find now customer place opts index q o found)
    unfolding book_or_find book_new
    book_or_find-Evolving index q o (some r) w h = h
    book_or_find-Evolving index q o none w h =
        elim (Bool-cases (is_quote_status q.status QuoteStatus.rated)) [
          | inl y ↦ rw y (book_rated-Evolving index q o w h)
          | inr n ↦ rw n (book_unrated-Evolving index q o o.manual_price opts.actor_id w h)
        ]

    book_order-Evolving :
        (hours : Option ℕ) (key : String) (index : ℕ) (o : B2bOrder)
        → Evolving t (book_order now customer place opts hours key index o)
    unfolding book_order
    book_order-Evolving hours key index o w =
        both (create_quote now hours (quote_request (w.texts.numbered key index) o) customer)
          (λ q.
            gets (existing_of now customer place opts q)
            >>= book_or_find now customer place opts index q o)
          (quiet (create_quote now hours (quote_request (w.texts.numbered key index) o) customer)
            (create_quote-Keeps now hours (quote_request (w.texts.numbered key index) o) customer))
          (λ q.
            both (gets (existing_of now customer place opts q))
              (book_or_find now customer place opts index q o)
              (quiet (gets (existing_of now customer place opts q)) (λ v. refl))
              (book_or_find-Evolving index q o))
          w

    book_orders-Evolving :
        (hours : Option ℕ) (key : String) (index : ℕ) (os : List B2bOrder)
        → Evolving t (book_orders now customer place opts hours key index os)
    unfolding book_orders
    book_orders-Evolving hours key index [] w h = h
    book_orders-Evolving hours key index (o ∷ os) w h =
        both (book_order now customer place opts hours key index o)
          (λ r.
            book_orders now customer place opts hours key (index + 1) os >>= λ rs. pure (r ∷ rs))
          (book_order-Evolving hours key index o)
          (λ r.
            both (book_orders now customer place opts hours key (index + 1) os)
              (λ rs. pure (r ∷ rs)) (book_orders-Evolving hours key (index + 1) os) (λ rs v k. k))
          w h

  pub create_batch_for_customer-Evolving :
      (resolve : String → Option (ℕ × ℕ)) (now : ℕ) (hours : Option ℕ) (customer : ℕ)
      (dto : B2bCreateOrders) (opts : BatchOptions)
      → Evolving t (create_batch_for_customer resolve now hours customer dto opts)
  unfolding create_batch_for_customer
  create_batch_for_customer-Evolving resolve now hours customer dto opts =
      both
        (book_orders now customer (batch_logistics resolve dto.pickup) opts hours dto.submission_key
          0 dto.orders)
        (λ os. announce_batch customer opts.partner_id (made_in os) >> pure (results_of os))
        (book_orders-Evolving now customer (batch_logistics resolve dto.pickup) opts hours
          dto.submission_key 0 dto.orders)
        (λ os.
          both (announce_batch customer opts.partner_id (made_in os)) (λ _. pure (results_of os))
            (quiet (announce_batch customer opts.partner_id (made_in os))
              (announce_batch-Keeps customer opts.partner_id (made_in os)))
            (λ _ w h. h))

  pub create_for_admin-Evolving :
      (resolve : String → Option (ℕ × ℕ)) (now : ℕ) (hours : Option ℕ) (partner customer : ℕ)
      (dto : B2bCreateOrders) (actor : ℕ)
      → Evolving t (create_for_admin resolve now hours partner customer dto actor)
  unfolding create_for_admin
  create_for_admin-Evolving resolve now hours partner customer dto actor =
      keep (Evolves t) (Evolves t) (λ _. Evolves t)
        (λ w. or_raise (active_partner (w.users partner)) not_found w) _ same (λ w. ground arith)
        (λ _.
          keep (Evolves t) (Evolves t) (λ _. Evolves t)
            (λ w. or_raise (w.customers customer) not_found w) _ same (λ w. ground arith)
            (λ _.
              create_batch_for_customer-Evolving resolve now hours customer dto
                (record { partner_id = some partner; actor_id = some actor })))
