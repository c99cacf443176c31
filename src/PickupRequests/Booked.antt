-- ===== src/PickupRequests/Booked.antt =====
-- What a booking leaves behind.
pub mod Success
use nation_wide.Common.{
  ℕ, suc, ◌≤◌, ◌≡◌, refl, sym, subst, ◌∙◌, inl, inr, Bool, true, false, not, ◌||◌, Option, none,
  some, arith, ◌==◌, Bool-cases, if◌then◌else◌, List, [], ◌∷◌, ◌+◌, ◌&&◌,
}
use nation_wide.Store.{
  World, Table, put, M, Result, ok, err, Refused, PickupRequest, Quote, QuoteStatus,
  is_quote_status, Coupon, claim_row, committed, bad_request, conflict,
}
use nation_wide.Quotes.Decide.{claim_quote}
use nation_wide.PickupRequests.Booking.{
  CreatePickupRequest, claim_requested, insert_request, requested_row, write_booking,
  claim_and_create, Booking, claim_for_booking, commit_booking, is_priceable, has_request, is_taken,
}

-- The transaction of a customer's booking or of one by staff, with the row of the quote that was
-- read before.
pub data Attempt : Type 0 where
  by_customer :
      (q : Quote) (dto : CreatePickupRequest) (customer : ℕ) (coupon : Option Coupon) → Attempt
  by_staff : (now : ℕ) (b : Booking) → Attempt

abbrev pub quote_of : Attempt → ℕ
quote_of (by_customer q dto customer coupon) = q.id
quote_of (by_staff now b) = b.quote.id

unfoldable pub attempt : Attempt → M PickupRequest
attempt (by_customer q dto customer coupon) = claim_and_create q dto customer coupon
attempt (by_staff now b) = commit_booking now b

abbrev is_requested : Option Quote → Bool
is_requested none = false
is_requested (some q) = is_quote_status q.status QuoteStatus.pickup_requested

refused :
    (a : Attempt) (w : World)
    → is_requested (w.quotes (quote_of a)) ≡ true
    → Refused w (attempt a w)
unfolding attempt claim_and_create commit_booking claim_quote
refused (by_customer q dto customer coupon) w h = ground arith
refused (by_staff now b) w h = ground arith

-- Its quote is requested, or nothing has changed.
abbrev Requested : ℕ → World → Result PickupRequest × World → Type 0
Requested id w (ok r, w') = is_requested (w'.quotes id) ≡ true
Requested id w (err e, w') = w' ≡ w

requests_quote : (a : Attempt) (w : World) → Requested (quote_of a) w (attempt a w)
unfolding attempt claim_and_create commit_booking claim_quote insert_request
requests_quote (by_customer q dto customer coupon) w = ground arith
requests_quote (by_staff now b) w = ground arith

keeps_requested :
    (id : ℕ) (a : Attempt) (w : World)
    → is_requested (w.quotes id) ≡ true
    → is_requested ((attempt a w).1.quotes id) ≡ true
unfolding attempt claim_and_create commit_booking claim_quote insert_request
keeps_requested id (by_customer q dto customer coupon) w h = ground arith
keeps_requested id (by_staff now b) w h = ground arith

abbrev succeeded : Result PickupRequest × World → Bool
succeeded (ok r, w) = true
succeeded (err e, w) = false

-- How many attempts of a sequence book the quote.
unfoldable pub times_booked : ℕ → List Attempt → World → ℕ
unfolding attempt
times_booked id [] w = 0
times_booked id (a ∷ tries) w =
    let later = times_booked id tries (attempt a w).1 in
    if (quote_of a == id) && succeeded (attempt a w) then later + 1 else later

never_again :
    (id : ℕ) (tries : List Attempt) (w : World)
    → is_requested (w.quotes id) ≡ true
    → times_booked id tries w ≡ 0
unfolding times_booked
never_again id [] w h = refl
never_again id (a ∷ tries) w h = elim (Bool-cases ((quote_of a == id) && succeeded (attempt a w))) [
  | inl y ↦ absurd (clash (attempt a w) (refused a w (ground arith)) (ground arith))
  | inr n ↦ rw n (never_again id tries (attempt a w).1 (keeps_requested id a w h))
]
  where
    clash : (res : Result PickupRequest × World) → Refused w res → succeeded res ≡ true → ⊥
    clash (ok r, u) f s = f
    clash (err e, u) f s = ground arith

-- However the bookings of customers and staff follow one another, and however old the rows are that
-- they have read, one of them at most books a quote.
pub times_booked_once : (id : ℕ) (tries : List Attempt) (w : World) → times_booked id tries w ≤ 1
unfolding times_booked
times_booked_once id [] w = ground arith
times_booked_once id (a ∷ tries) w =
    elim (Bool-cases ((quote_of a == id) && succeeded (attempt a w))) [
      | inl y ↦ rw y (
          rw
            (never_again id tries (attempt a w).1
              (now_requested (attempt a w) (requests_quote a w) (ground arith) (ground arith)))
            (ground arith))
      | inr n ↦ rw n (times_booked_once id tries (attempt a w).1)
    ]
  where
    now_requested :
        (res : Result PickupRequest × World)
        → Requested (quote_of a) w res
        → succeeded res ≡ true
        → quote_of a ≡ id
        → is_requested (res.1.quotes id) ≡ true
    now_requested (ok r, u) f s e = subst (λ k. is_requested (u.quotes k) ≡ true) e f
    now_requested (err x, u) f s e = ground arith
