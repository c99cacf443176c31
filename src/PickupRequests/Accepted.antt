-- ===== src/PickupRequests/Accepted.antt =====
-- Accepting a paid parcel goes through: it makes the order and closes the request.
use text.Mathlib.Text.{◌==◌ as str_eq}
use nation_wide.Common.{
  ℕ, ◌+◌, ◌≡◌, subst, true, false, none, some, arith, find, ◌-◌, Option, or_default, Bool-cases,
  leb, inl, inr, refl,
}
use nation_wide.Money.{ℤ, pos, negsuc, minus, round2_whole}
use nation_wide.Store.{
  World, Result, ok, PickupRequest, Checklist, Order, Quote, Customer, ShippingProvider,
  PaymentStatus, PickupRequestStatus, QuoteStatus,
}
use nation_wide.Orders.{new_order, default_provider_code}
use nation_wide.PickupRequests.Access.{is_open, is_none, is_id}
use nation_wide.PickupRequests.Collection.{payable_for, is_settled}
use nation_wide.PickupRequests.Outcome.{
  complete_row, accept_quote_row, link_row, order_payment, accept_parcel,
}
use nation_wide.PickupRequests.Linked.{accept_parcel-Linked}

-- What the customer pays: the price at the door, or the estimate, less the discount.
abbrev pub price_of : PickupRequest → ℕ
price_of r = or_default r.verified_price r.estimated_price - or_default r.discount_amount 0

-- The difference between the price and what was collected, which is negative where too much was.
abbrev pub IsRemainder : ℕ → ℕ → ℤ → Type 0
IsRemainder price collected (pos d) = d + collected ≡ price
IsRemainder price collected (negsuc d) = price + d + 1 ≡ collected

abbrev pub IsOwing : ℕ → Option ℕ → Option ℤ → Type 0
IsOwing price collected none = ⊥
IsOwing price collected (some due) = IsRemainder price (or_default collected 0) due

-- The order's payment, by what the request says of a deferral and of an approved due: all of the
-- price is owing, or what is left of it, or it is paid.
abbrev pub PaidBy : Option ℕ → Option ℕ → PickupRequest → Order → Type 0
PaidBy (some deferred) approver r o =
    (o.payment_status ≡ PaymentStatus.pending)
    × (o.due_amount ≡ some (pos (price_of r)))
    × (o.due_approved_by ≡ approver)
    × (o.paid_amount ≡ none)
    × (o.paid_at ≡ none)
PaidBy none (some approver) r o =
    (o.payment_status ≡ PaymentStatus.pending)
    × IsOwing (price_of r) r.collected_amount o.due_amount
    × (o.due_approved_by ≡ some approver)
    × (o.paid_amount ≡ r.collected_amount)
    × (o.paid_at ≡ r.payment_collected_at)
    × (o.payment_method ≡ r.payment_method)
PaidBy none none r o =
    (o.payment_status ≡ PaymentStatus.paid)
    × (o.due_amount ≡ none)
    × (o.paid_amount ≡ some (or_default r.collected_amount (price_of r)))
    × (o.paid_at ≡ r.payment_collected_at)
    × (o.payment_method ≡ r.payment_method)

-- The new order is the customer's, with the coupon and the payment of the request.
abbrev pub IsOrderOf : ℕ → ℕ → PickupRequest → Order → Type 0
IsOrderOf order_id partner r o =
    (o.id ≡ order_id)
    × (o.customer_id ≡ r.customer_id)
    × (o.coupon_id ≡ r.coupon_id)
    × (o.discount_amount ≡ r.discount_amount)
    × (o.payment_marked_by ≡ some partner)
    × PaidBy r.payment_deferred_at r.due_approved_by r o

-- The request is completed and its quote accepted, both with the order that was made.
abbrev pub Accepted : ℕ → Checklist → ℕ → PickupRequest → ℕ → Result PickupRequest × World → Type 0
Accepted id list partner r order_id res =
    ((a : PickupRequest) × (res.0 ≡ ok a)
      × (res.1.requests id ≡ some a)
      × (a.status ≡ PickupRequestStatus.completed)
      × (a.order_id ≡ some order_id)
      × (a.checklist ≡ some list))
    × ((q : Quote) × (res.1.quotes r.quote_id ≡ some q)
        × (q.status ≡ QuoteStatus.accepted)
        × (q.order_id ≡ some order_id))
    × ((o : Order) × (res.1.orders order_id ≡ some o) × IsOrderOf order_id partner r o)

payable_for-price_of : (r : PickupRequest) → payable_for r ≡ price_of r
unfolding payable_for
payable_for-price_of r = round2_whole (price_of r)

minus-IsRemainder : (price collected : ℕ) → IsRemainder price collected (minus price collected)
unfolding minus
minus-IsRemainder price collected = elim (Bool-cases (leb collected price)) [
  | inl e ↦ rw e (ground arith)
  | inr e ↦ rw e (ground arith)
]

order_payment-IsOrderOf :
    (partner id : ℕ) (r : PickupRequest)
    → IsOrderOf id partner r (order_payment (price_of r) partner r (new_order id r.customer_id))
unfolding order_payment
order_payment-IsOrderOf partner id r = by_payment r.payment_deferred_at r.due_approved_by refl refl
  where
    by_payment :
        (deferred approver : Option ℕ)
        → r.payment_deferred_at ≡ deferred
        → r.due_approved_by ≡ approver
        → IsOrderOf id partner r (order_payment (price_of r) partner r (new_order id r.customer_id))
    by_payment (some t) approver e f =
        rw (e, f) (refl, refl, refl, refl, refl, (refl, refl, refl, refl, refl))
    by_payment none (some a) e f =
        rw (e, f)
          (
            refl,
            refl,
            refl,
            refl,
            refl,
            (
              refl,
              minus-IsRemainder (price_of r) (or_default r.collected_amount 0),
              refl,
              refl,
              refl,
              refl,
            ),
          )
    by_payment none none e f =
        rw (e, f) (refl, refl, refl, refl, refl, (refl, refl, refl, refl, refl))

-- Accepting an open, verified and settled request of the partner succeeds, where its quote, its
-- customer and the default provider exist. The request is completed and its quote accepted, with
-- the order that is made, which has the customer, the coupon and the payment of the request: a
-- deferred one owes the whole price, less the discount; one with an approver for a remainder owes
-- what is left after the amount collected; any other is paid and owes nothing.
pub accept_parcel-Accepted :
    (now id : ℕ) (list : Checklist) (partner : ℕ) (r : PickupRequest) (q : Quote) (c : Customer)
    (p : ShippingProvider) (w : World)
    → w.requests id ≡ some r
    → is_id r.assigned_partner_id partner ≡ true
    → is_open r.status ≡ true
    → is_none r.verified_at ≡ false
    → is_settled r ≡ true
    → w.quotes r.quote_id ≡ some q
    → w.customers r.customer_id ≡ some c
    → find (λ p. str_eq p.code default_provider_code) w.providers ≡ some p
    → Accepted id list partner r w.next_id (accept_parcel now id list partner false w)
accept_parcel-Accepted now id list partner r q c p w e mine o v s k cu pr =
    let l = accept_parcel-Linked now id list partner r q c p w e mine o v s k cu pr in
    let made = new_order w.next_id r.customer_id in
    (
      (link_row w.next_id list (complete_row r), l.0, l.1, refl, refl, refl),
      (accept_quote_row w.next_id q, l.2, refl, refl),
      (
        order_payment (price_of r) partner r made,
        subst
            (λ x.
              (accept_parcel now id list partner false w).1.orders w.next_id
              ≡ some (order_payment x partner r made))
            (payable_for-price_of r) l.3,
        order_payment-IsOrderOf partner w.next_id r,
      ),
    )
