-- ===== src/Orders/Cancellation.antt =====
-- When an order can be cancelled, and what that costs.
use nation_wide.Common.{
  ℕ, ◌+◌, ◌*◌, ◌≤◌, ◌<◌, ◌≡◌, ◌≢◌, ◌⊎◌, refl, sym, subst, false, Option, none, some, In, arith,
  String,
}
use nation_wide.Money.{round2_bounds}
use nation_wide.Store.{World, Result, ok, err, Order, OrderStatus, Shipment}
use nation_wide.Orders.Defs.{find_one}
use nation_wide.Orders.Cancel.{
  CancellationFees, Distance, fee_settings, tenths_of, total_fee, quote_cancellation, cancel,
  with_cancellation, cancellation_blocked_reason, is_other, ask_charge,
}

-- The fee is within half a paisa of the base fee plus the rate for the distance.
total_fee_bounds :
    (fees : CancellationFees) (d : Option Distance)
    → (10 * total_fee fees d ≤ 10 * fees.base_fee + fees.per_km_fee * tenths_of d + 5)
      × (10 * fees.base_fee + fees.per_km_fee * tenths_of d < 10 * total_fee fees d + 5)
unfolding total_fee
total_fee_bounds fees d =
    let b = round2_bounds (10 * fees.base_fee + fees.per_km_fee * tenths_of d) 10 (omega arith) in
    (omega (arith, b.0), omega (arith, b.1))

-- No settings mean no fee, and no distance the base fee alone. Else the rate for the distance is
-- added, and the sum rounded to the paisa.
abbrev pub IsFee : Option CancellationFees → Option Distance → ℕ → Type 0
IsFee none d fee = fee ≡ 0
IsFee (some s) none fee = fee ≡ s.base_fee
IsFee (some s) (some d) fee =
    (10 * fee ≤ 10 * s.base_fee + s.per_km_fee * d.tenths + 5)
    × (10 * s.base_fee + s.per_km_fee * d.tenths < 10 * fee + 5)

total_fee-IsFee :
    (settings : Option CancellationFees) (d : Option Distance)
    → IsFee settings d (total_fee (fee_settings settings) d)
total_fee-IsFee none d = let b = total_fee_bounds (fee_settings none) d in omega (arith, b.0, b.1)
total_fee-IsFee (some s) none = let b = total_fee_bounds s none in omega (arith, b.0, b.1)
total_fee-IsFee (some s) (some d) = total_fee_bounds s (some d)

-- The order is cancelled at its fee, and its payment is as it was.
abbrev pub Cancelled :
    Option CancellationFees → Option Distance → Order → Result Order × World → Type 0
Cancelled settings d o (ok c, w) =
    (c.status ≡ OrderStatus.cancelled)
    × ((fee : ℕ) × (c.cancellation_fee ≡ some fee) × IsFee settings d fee)
    × (c.payment_status ≡ o.payment_status)
    × (c.paid_amount ≡ o.paid_amount)
    × (w.orders o.id ≡ some c)
Cancelled settings d o (err e, w) = ⊥

-- The caller is a customer, and the order is not theirs.
abbrev pub IsForeign : Option ℕ → Order → Type 0
IsForeign none o = ⊥
IsForeign (some c) o = o.customer_id ≢ c

-- The order is over, or a carrier has a tracking number for one of its shipments.
abbrev pub IsBlocked : Order → World → Type 0
IsBlocked o w =
    (o.status ≡ OrderStatus.cancelled)
    ⊎ (o.status ≡ OrderStatus.completed)
    ⊎ ((s : Shipment) × In s w.shipments × (s.order_id ≡ o.id) × (0 < s.awb_count))

module _ (settings : Option CancellationFees) (distance_km : ℕ → Option Distance) (now id : ℕ)
    (reason : Option String) (actor : ℕ) (customer : Option ℕ) (w : World) (o : Order) where
  -- The row that is written.
  abbrev row : Order
  row =
      with_cancellation now reason
        (record {
          is_blocked = false;
          base_fee = (fee_settings settings).base_fee;
          per_km_fee = (fee_settings settings).per_km_fee;
          distance = distance_km id;
          total_fee = total_fee (fee_settings settings) (distance_km id);
        })
        o

  writes :
      w.orders id ≡ some o
      → o.id ≡ id
      → is_other customer o.customer_id ≡ false
      → cancellation_blocked_reason o w ≡ false
      → ((cancel settings distance_km now id reason actor customer w).0 ≡ ok row)
        × ((cancel settings distance_km now id reason actor customer w).1.orders o.id ≡ some row)
  unfolding cancel find_one quote_cancellation with_cancellation ask_charge
  writes e i mine free = ground arith

  cancelled :
      w.orders id ≡ some o
      → o.id ≡ id
      → is_other customer o.customer_id ≡ false
      → cancellation_blocked_reason o w ≡ false
      → Cancelled settings
          (distance_km id)
          o
          (cancel settings distance_km now id reason actor customer w)
  unfolding with_cancellation
  cancelled e i mine free =
      let k = writes e i mine free in
      let v = (cancel settings distance_km now id reason actor customer w).1 in
      subst (λ res. Cancelled settings (distance_km id) o (res, v)) (sym k.0)
        (
          refl,
          (
            total_fee (fee_settings settings) (distance_km id),
            refl,
            total_fee-IsFee settings (distance_km id),
          ),
          refl,
          refl,
          k.1,
        )
