-- ===== src/Orders/Settled.antt =====
-- What an update of a payment leaves on the order.
use nation_wide.Common.{ℕ, ◌≡◌, ◌≢◌, Option, none, some}
use nation_wide.Store.{World, Result, ok, err, Order, PaymentStatus, Coupon}

-- The columns of a payment are empty.
abbrev IsUnpaid : Order → Type 0
IsUnpaid o =
    (o.paid_amount ≡ none)
    × (o.paid_at ≡ none)
    × (o.payer_name ≡ none)
    × (o.payment_note ≡ none)
    × (o.coupon_id ≡ none)
    × (o.discount_amount ≡ none)

-- The columns of a refund are empty.
abbrev IsNotRefunded : Order → Type 0
IsNotRefunded o = (o.refunded_amount ≡ none) × (o.refunded_at ≡ none) × (o.refund_note ≡ none)

-- The columns that go with each payment status: a refund only on REFUNDED, a payment and a coupon
-- only on PAID, with a time each, and nothing owing on a paid order.
abbrev pub IsConsistent : Order → Type 0
IsConsistent o = elim o.payment_status [
  | PaymentStatus.pending ↦ IsUnpaid o × IsNotRefunded o
  | PaymentStatus.failed ↦ IsUnpaid o × IsNotRefunded o
  | PaymentStatus.paid ↦ (o.due_amount ≡ none) × (o.paid_at ≢ none) × IsNotRefunded o
  | PaymentStatus.refunded ↦ IsUnpaid o × (o.refunded_at ≢ none)
]

-- A refused payment changes nothing, and no payment touches an order before its own write.
abbrev Claimed : World → Result (Option Coupon) × World → Type 0
Claimed w (ok c, w') = w'.orders ≡ w.orders
Claimed w (err e, w') = w' ≡ w

abbrev pub Settled : ℕ → PaymentStatus → Order → World → Result Order × World → Type 0
Settled id s o w (ok p, w') =
    IsConsistent p
    × (p.payment_status ≡ s)
    × (p.status ≡ o.status)
    × (p.cancellation_fee ≡ o.cancellation_fee)
    × (w'.orders id ≡ some p)
Settled id s o w (err e, w') = w' ≡ w

abbrev Recorded : ℕ → Order → Result Order × World → Type 0
Recorded id p (r, w) = (r ≡ ok p) × (w.orders id ≡ some p)
