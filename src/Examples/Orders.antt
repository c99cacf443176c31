-- ===== src/Examples/Orders.antt =====
-- Payments, cancellations and coupons on the sample state.
use nation_wide.Common.{ℕ, refl, Option, none, some, arith}
use nation_wide.Store.{PaymentStatus, PaymentMethod}
use nation_wide.Coupons.{Redeemed, redeem_claim, redeem_claim-IsWithin}
use nation_wide.Orders.Payment.{UpdateOrderPayment}
use nation_wide.Orders.Settled.{Settled}
use nation_wide.Orders.Cancel.{CancellationFees, Distance}
use nation_wide.Examples.Rows.{flat_code, sample}

abbrev in_cash : UpdateOrderPayment
in_cash = record {
  payment_status = PaymentStatus.paid;
  payment_method = some PaymentMethod.cash;
  paid_amount = some 140_000;
  coupon_code = some "SAVE";
  payer_name = none;
  payment_note = none;
  refunded_amount = none;
  refund_note = none;
}

abbrev fees : CancellationFees
fees = record { base_fee = 5_000; per_km_fee = 1_250 }

abbrev by_road : ℕ → Option Distance
by_road id = some (record { tenths = 123; source = "road" })

redeem_claim-IsWithin_example : Redeemed sample (redeem_claim flat_code sample)
redeem_claim-IsWithin_example =
    redeem_claim-IsWithin flat_code sample (omega arith, tt) (λ e. refl, tt)
