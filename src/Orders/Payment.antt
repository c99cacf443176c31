-- ===== src/Orders/Payment.antt =====
-- `OrdersService.updatePayment`, over the columns of `Order` that describe a payment.
use nation_wide.Common.{ℕ, Bool, true, false, not, Option, none, some, String}
use nation_wide.Store.{
  M, pure, ◌>>=◌, ◌>>◌, modify, log, emit, Action, invoice_asked, receipt_asked, Order,
  PaymentStatus, PaymentMethod, Coupon,
}
use nation_wide.Orders.Defs.{find_one, put_order}
use nation_wide.Coupons.{redeem}

pub record UpdateOrderPayment : Type 0 where
  pub payment_status : PaymentStatus
  pub payment_method : Option PaymentMethod
  pub paid_amount : Option ℕ
  pub coupon_code : Option String
  pub payer_name : Option String
  pub payment_note : Option String
  pub refunded_amount : Option ℕ
  pub refund_note : Option String

abbrev pub is_paid : PaymentStatus → Bool
is_paid PaymentStatus.pending = false
is_paid PaymentStatus.paid = true
is_paid PaymentStatus.failed = false
is_paid PaymentStatus.refunded = false

abbrev pub is_refunded : PaymentStatus → Bool
is_refunded PaymentStatus.pending = false
is_refunded PaymentStatus.paid = false
is_refunded PaymentStatus.failed = false
is_refunded PaymentStatus.refunded = true

-- `test ? value : null`.
abbrev pub when : {A : Type 0} → Bool → Option A → Option A
when true v = v
when false v = none

-- A column that is left as it is when the new value is `undefined`.
abbrev pub or_kept : {A : Type 0} → Option A → Option A → Option A
or_kept none old = old
or_kept (some a) old = some a

-- `coupon ? value : PAID ? undefined : null`.
abbrev pub coupon_column : Option ℕ → Bool → Option ℕ → Option ℕ
coupon_column (some v) paid old = some v
coupon_column none true old = old
coupon_column none false old = none

abbrev coupon_id_of : Option Coupon → Option ℕ
coupon_id_of none = none
coupon_id_of (some c) = some c.id

abbrev discount_of : Option Coupon → Option ℕ
discount_of none = none
discount_of (some c) = some c.discount_amount

-- The `data` of the one `order.update`.
unfoldable pub with_payment : ℕ → UpdateOrderPayment → ℕ → Option Coupon → Order → Order
with_payment now dto actor coupon o =
    let paid = is_paid dto.payment_status in
    let refunded = is_refunded dto.payment_status in
    record o {
      payment_status = dto.payment_status;
      payment_method = or_kept dto.payment_method o.payment_method;
      paid_amount = when paid dto.paid_amount;
      paid_at = when paid (some now);
      payment_marked_by = some actor;
      payer_name = when paid dto.payer_name;
      payment_note = when paid dto.payment_note;
      refunded_amount = when refunded dto.refunded_amount;
      refunded_at = when refunded (some now);
      refund_note = when refunded dto.refund_note;
      coupon_id = coupon_column (coupon_id_of coupon) paid o.coupon_id;
      discount_amount = coupon_column (discount_of coupon) paid o.discount_amount;
      due_amount = when (not paid) o.due_amount;
    }

-- The coupon is claimed before the payment is written, and only on the way to PAID.
unfoldable pub claim_coupon : ℕ → PaymentStatus → Option String → M (Option Coupon)
claim_coupon now PaymentStatus.pending code = pure none
claim_coupon now PaymentStatus.failed code = pure none
claim_coupon now PaymentStatus.refunded code = pure none
claim_coupon now PaymentStatus.paid none = pure none
claim_coupon now PaymentStatus.paid (some code) = do c ← redeem now code; pure (some c)

-- The invoice and the receipt that a recorded payment asks for.
unfoldable pub ask_documents : Bool → ℕ → M (Unit {0})
ask_documents false id = pure tt
ask_documents true id = emit (invoice_asked id) >> emit (receipt_asked id)

-- The writes of `updatePayment`, once the order is read and the coupon is claimed.
unfoldable pub record_payment : ℕ → ℕ → UpdateOrderPayment → ℕ → Order → Option Coupon → M Order
unfolding find_one with_payment ask_documents
record_payment now id dto actor o coupon = do
  modify (put_order (with_payment now dto actor coupon o))
  log actor Action.order_payment_updated id
  ask_documents (is_paid dto.payment_status) id
  find_one id

unfoldable pub update_payment : ℕ → ℕ → UpdateOrderPayment → ℕ → M Order
unfolding find_one claim_coupon record_payment
update_payment now id dto actor = do
  o ← find_one id
  coupon ← claim_coupon now dto.payment_status dto.coupon_code
  record_payment now id dto actor o coupon
