-- ===== src/PickupRequests/Evolution/Booking.antt =====
-- A booking adds one fresh row.
use Prim.Native.String
use nation_wide.Common.{
  ℕ, ◌≡◌, refl, sym, subst, inl, inr, true, false, ◌||◌, Option, none, some, arith, ◌==◌,
  Bool-cases,
}
use nation_wide.Store.{
  Table, put, M, ◌>>=◌, ◌>>◌, PickupRequest, Quote, Coupon, Keeps, bind, keep, in_transaction,
}
use nation_wide.Coupons.{validate, check}
use nation_wide.Quotes.Decide.{find_one_or_throw, claim_quote}
use nation_wide.PickupRequests.Access.{find_one}
use nation_wide.PickupRequests.Slots.{Clock}
use nation_wide.PickupRequests.Terms.{coupon_of, pricing_of, selected_option}
use nation_wide.PickupRequests.Booking.{
  CreatePickupRequest, claim_requested, new_request, discounted, is_taken, has_request,
  insert_request, write_booking, claim_and_create, check_bookable, announce_booking, create,
  assigned_at_once, Booking, claim_for_booking, commit_booking,
}
use nation_wide.PickupRequests.Steps.{IsFresh, Evolved, Evolves, stays}
use nation_wide.PickupRequests.Rules.{Evolving, Keeps-Evolving}

-- A row at an id that was free.
new_row :
    (a b : Option PickupRequest) (r : PickupRequest)
    → IsFresh r
    → is_taken b ≡ false
    → Evolved a b
    → Evolved a (some r)
new_row none b r fresh free h = (r, fresh, stays)
new_row (some q) none r fresh free h = absurd h
new_row (some q) (some s) r fresh free h = ground arith

put_new-Evolves :
    (t u : Table PickupRequest) (id : ℕ) (r : PickupRequest)
    → IsFresh r
    → is_taken (u id) ≡ false
    → Evolves t u
    → Evolves t (put u id r)
put_new-Evolves t u id r fresh free h j = elim (Bool-cases (j == id)) [
  | inl here ↦ rw here (
      new_row (t j) (u j) r fresh
        (subst (λ k. is_taken (u k) ≡ false) (sym (eq_of_id j id here)) free) (h j))
  | inr other ↦ rw other (h j)
]
  where
    eq_of_id : (a b : ℕ) → (a == b) ≡ true → a ≡ b
    eq_of_id a b k = ground arith

insert_request-Evolving :
    (t : Table PickupRequest) (make : ℕ → PickupRequest)
    → ((id : ℕ) → IsFresh (make id))
    → Evolving t (insert_request make)
unfolding insert_request
insert_request-Evolving t make fresh w h =
    elim (Bool-cases (
      is_taken (w.requests w.next_id)
      || has_request (make w.next_id).quote_id w.requests w.next_id)) [
        | inl y ↦ rw y h
        | inr n ↦ rw n (
            put_new-Evolves t w.requests w.next_id (make w.next_id) (fresh w.next_id) (ground arith)
              h)
      ]

new_request-IsFresh :
    (q : Quote) (customer : ℕ) (kind : _) (pricing : _) (place : _) (id : ℕ)
    → IsFresh (new_request q customer kind pricing place id)
unfolding new_request
new_request-IsFresh q customer kind pricing place id = (refl, refl, refl, refl, refl)

discounted-IsFresh :
    (coupon : Option Coupon) (r : PickupRequest) → IsFresh r → IsFresh (discounted coupon r)
unfolding discounted
discounted-IsFresh none r h = h
discounted-IsFresh (some c) r h = h

assigned_at_once-IsFresh :
    (now : ℕ) (partner : Option ℕ) (r : PickupRequest)
    → IsFresh r
    → IsFresh (assigned_at_once now partner r)
unfolding assigned_at_once
assigned_at_once-IsFresh now none r h = h
assigned_at_once-IsFresh now (some p) r (o, v, c, d, l) = (refl, v, c, d, l)

claim_requested-Keeps : (id : ℕ) → Keeps (claim_requested id)
unfolding claim_quote
claim_requested-Keeps id w = ground arith

write_booking-Keeps :
    (id : ℕ) (recipient : _) (items : _) → Keeps (write_booking id recipient items)
write_booking-Keeps id recipient items w = ground arith

check_bookable-Keeps :
    (clock : Clock) (dto : CreatePickupRequest) (customer : ℕ)
    → Keeps (check_bookable clock dto customer)
unfolding check_bookable find_one_or_throw
check_bookable-Keeps clock dto customer w = ground arith

coupon_of-Keeps : (now : ℕ) (code : _) → Keeps (coupon_of now code)
unfolding coupon_of validate check
coupon_of-Keeps now none w = refl
coupon_of-Keeps now (some String.[]) w = refl
coupon_of-Keeps now (some (String.◌∷◌ c s)) w = ground arith

announce_booking-Keeps :
    (customer : ℕ) (dto : CreatePickupRequest) (r : PickupRequest)
    → Keeps (announce_booking customer dto r)
unfolding announce_booking find_one
announce_booking-Keeps customer dto r w = ground arith

claim_for_booking-Keeps : (b : Booking) → Keeps (claim_for_booking b)
unfolding claim_quote
claim_for_booking-Keeps b w = ground arith

module _ (t : Table PickupRequest) where
  same : (u : Table PickupRequest) → Evolves t u → Evolves t u
  same u h = h

  after_claim :
      {A : Type 0} (m : M A) (make : ℕ → PickupRequest)
      → Keeps m
      → ((id : ℕ) → IsFresh (make id))
      → Evolving t (m >> insert_request make)
  after_claim m make k fresh =
      keep (Evolves t) (Evolves t) (λ _. Evolves t) m (λ _. insert_request make) same k
        (λ _. insert_request-Evolving t make fresh)

  claim_and_create-Evolving :
      (q : Quote) (dto : CreatePickupRequest) (customer : ℕ) (coupon : Option Coupon)
      → Evolving t (claim_and_create q dto customer coupon)
  unfolding claim_and_create
  claim_and_create-Evolving q dto customer coupon =
      let make : ℕ → PickupRequest = λ id. discounted coupon (
        new_request q customer q.shipment_type (pricing_of (selected_option q) q) dto.logistics
          id) in
      let rest : M PickupRequest =
        write_booking q.id dto.recipient dto.items >> insert_request make in
      in_transaction (Evolves t) (Evolves t) (λ _. Evolves t) (claim_requested q.id >> rest) same
        (keep (Evolves t) (Evolves t) (λ _. Evolves t) (claim_requested q.id) (λ _. rest) same
          (claim_requested-Keeps q.id)
          (λ _.
            after_claim (write_booking q.id dto.recipient dto.items) make
              (write_booking-Keeps q.id dto.recipient dto.items)
              (λ id.
                discounted-IsFresh coupon
                  (new_request q customer q.shipment_type (pricing_of (selected_option q) q)
                    dto.logistics id)
                  (new_request-IsFresh q customer q.shipment_type (pricing_of (selected_option q) q)
                    dto.logistics id))))

  pub create-Evolving :
      (now : ℕ) (clock : Clock) (dto : CreatePickupRequest) (customer : ℕ)
      → Evolving t (create now clock dto customer)
  unfolding create
  create-Evolving now clock dto customer =
      let book : Quote → Option Coupon → M PickupRequest =
        λ q coupon. claim_and_create q dto customer coupon >>= announce_booking customer dto in
      let rest : Quote → M PickupRequest = λ q. coupon_of now dto.coupon_code >>= book q in
      keep (Evolves t) (Evolves t) (λ _. Evolves t) (check_bookable clock dto customer) rest same
        (check_bookable-Keeps clock dto customer)
        (λ q.
          keep (Evolves t) (Evolves t) (λ _. Evolves t) (coupon_of now dto.coupon_code) (book q)
            same (coupon_of-Keeps now dto.coupon_code)
            (λ coupon.
              bind (Evolves t) (Evolves t) (λ _. Evolves t) (λ _. Evolves t)
                (claim_and_create q dto customer coupon) (announce_booking customer dto)
                (claim_and_create-Evolving q dto customer coupon)
                (λ r.
                  Keeps-Evolving t r.id (announce_booking customer dto r)
                    (announce_booking-Keeps customer dto r))))

  pub commit_booking-Evolving : (now : ℕ) (b : Booking) → Evolving t (commit_booking now b)
  unfolding commit_booking
  commit_booking-Evolving now b =
      let row : ℕ → PickupRequest =
        new_request b.quote b.customer_id b.shipment_type b.pricing b.logistics in
      let make : ℕ → PickupRequest = λ id. assigned_at_once now b.partner_id (row id) in
      in_transaction (Evolves t) (Evolves t) (λ _. Evolves t)
        (claim_for_booking b >> insert_request make) same
        (after_claim (claim_for_booking b) make (claim_for_booking-Keeps b) (λ id.
          assigned_at_once-IsFresh now b.partner_id (row id)
            (new_request-IsFresh b.quote b.customer_id b.shipment_type b.pricing b.logistics id)))
