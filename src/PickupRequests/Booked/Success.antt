-- ===== src/PickupRequests/Booked/Success.antt =====
-- When a customer's booking succeeds, and with what.
use nation_wide.Common.{
  ℕ, ◌≡◌, sym, subst, Bool, true, false, Option, none, some, arith, min, or_default,
}
use nation_wide.Store.{
  World, put, bound, Result, ok, err, PickupRequest, PickupRequestStatus, Quote, QuoteStatus,
  is_quote_status, Coupon, QuoteOption,
}
use nation_wide.Quotes.Decide.{find_one_or_throw, claim_quote}
use nation_wide.PickupRequests.Access.{find_one}
use nation_wide.PickupRequests.Slots.{Clock}
use nation_wide.PickupRequests.Places.{lacks_window, slot_is_over}
use nation_wide.PickupRequests.Terms.{coupon_of, selected_option, pricing_of}
use nation_wide.PickupRequests.Booking.{
  CreatePickupRequest, new_request, discounted, has_request, insert_request, claim_and_create,
  check_bookable, announce_booking, create,
}

-- The price that the customer agreed to: that of the option, or the one that staff have quoted.
abbrev agreed_price : Option QuoteOption → Quote → ℕ
agreed_price none q = or_default q.quoted_amount 0
agreed_price (some o) q = o.option.final_price

abbrev agreed_discount : Option Coupon → ℕ → Option ℕ
agreed_discount none price = none
agreed_discount (some c) price = some (min c.discount_amount price)

abbrev status_is : QuoteStatus → Option Quote → Bool
status_is s none = false
status_is s (some q) = is_quote_status q.status s

abbrev pub Booked : Quote → Option Coupon → World → Result PickupRequest × World → Type 0
Booked q coupon w (err e, w') = ⊥
Booked q coupon w (ok r, w') =
    (r.id ≡ w.next_id)
    × (w'.requests ≡ put w.requests w.next_id r)
    × (r.quote_id ≡ q.id)
    × (r.customer_id ≡ q.customer_id)
    × (r.status ≡ PickupRequestStatus.pending_assignment)
    × (r.estimated_price ≡ agreed_price (selected_option q) q)
    × (r.discount_amount ≡ agreed_discount coupon (agreed_price (selected_option q) q))
    × (status_is QuoteStatus.pickup_requested (w'.quotes q.id) ≡ true)
    × (w'.coupons ≡ w.coupons)

checked :
    (clock : Clock) (dto : CreatePickupRequest) (q : Quote) (w : World)
    → w.quotes dto.quote_id ≡ some q
    → q.status ≡ QuoteStatus.pending_pickup_request
    → lacks_window dto.logistics ≡ false
    → slot_is_over clock dto.logistics ≡ false
    → check_bookable clock dto q.customer_id w ≡ (ok q, w)
unfolding check_bookable find_one_or_throw
checked clock dto q w e s l o = ground arith

created :
    (dto : CreatePickupRequest) (q : Quote) (coupon : Option Coupon) (w : World)
    → w.quotes q.id ≡ some q
    → q.status ≡ QuoteStatus.pending_pickup_request
    → w.requests w.next_id ≡ none
    → has_request q.id w.requests w.next_id ≡ false
    → Booked q coupon w (claim_and_create q dto q.customer_id coupon w)
unfolding claim_and_create claim_quote insert_request new_request discounted pricing_of
created dto q none w e s f h = ground arith
created dto q (some c) w e s f h = ground arith

announced :
    (dto : CreatePickupRequest) (q : Quote) (coupon : Option Coupon) (w : World)
    (res : Result PickupRequest × World)
    → Booked q coupon w res
    → Booked q coupon w (bound (announce_booking q.customer_id dto) res)
unfolding announce_booking find_one
announced dto q coupon w (ok r, u) h = ground arith
announced dto q coupon w (err e, u) h = h

-- The customer's booking of a quote that awaits it succeeds, where the window is given and not over,
-- the code is valid, and the id and the quote have no request yet: a new request at the agreed price
-- awaits a partner, the discount is the coupon's but never above the price, the quote is requested,
-- and the coupon is not redeemed.
pub create-Booked :
    (now : ℕ) (clock : Clock) (dto : CreatePickupRequest) (q : Quote) (coupon : Option Coupon)
    (w : World)
    → w.quotes dto.quote_id ≡ some q
    → q.id ≡ dto.quote_id
    → q.status ≡ QuoteStatus.pending_pickup_request
    → lacks_window dto.logistics ≡ false
    → slot_is_over clock dto.logistics ≡ false
    → coupon_of now dto.coupon_code w ≡ (ok coupon, w)
    → w.requests w.next_id ≡ none
    → has_request q.id w.requests w.next_id ≡ false
    → Booked q coupon w (create now clock dto q.customer_id w)
unfolding create
create-Booked now clock dto q coupon w e i s l o k f h = rw (checked clock dto q w e s l o) (
    rw k (
      announced dto q coupon w (claim_and_create q dto q.customer_id coupon w)
        (created dto q coupon w (subst (λ k. w.quotes k ≡ some q) (sym i) e) s f h)))
