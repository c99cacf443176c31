-- ===== src/Quotes/Window.antt =====
-- The checks of `create` on the pickup window of a quote.
use nation_wide.Common.{
  ℕ, ◌+◌, ◌-◌, ◌*◌, ◌%◌, ◌++◌, Bool, true, false, ◌||◌, Option, none, some, List, [], ◌∷◌, ltb,
  String,
}
use nation_wide.Parcel.{ShipmentType, Package}
use nation_wide.Store.{
  M, err, bad_request, window_missing, window_not_allowed, bad_date, bad_window, raise_if,
  FulfillmentMethod, PickupTimeSlot, Recipient, ShipmentItem,
}
use nation_wide.Invoices.Numbering.{Text, codes}

pub record CreateQuote : Type 0 where
  pub shipment_type : ShipmentType
  pub weight : ℕ
  pub packages : Option (List Package)
  pub items : Option (List ShipmentItem)
  pub recipient : Recipient
  pub country : String
  pub fulfillment_method : Option FulfillmentMethod
  pub pickup_date : Option Text
  pub time_slot : Option PickupTimeSlot
  pub submission_key : String

abbrev day_length : ℕ
day_length = 24 * 60 * 60 * 1_000

abbrev pickup_window_days : ℕ
pickup_window_days = 7

-- Midnight by the clocks of UTC.
abbrev pub midnight : ℕ → ℕ
midnight now = now - now % day_length

abbrev outside : ℕ → ℕ → Bool
outside today requested =
    ltb requested today || ltb (today + pickup_window_days * day_length) requested

abbrev check_day : ℕ → Option ℕ → M (Unit {0})
check_day now none w = (err (bad_request bad_date), w)
check_day now (some requested) w =
    raise_if (outside (midnight now) requested) (bad_request bad_window) w

-- `assertValidPickupWindow`; the window itself is one of the three by its type.
unfoldable pub assert_valid_pickup_window : ℕ → Option Text → Option PickupTimeSlot → M (Unit {0})
assert_valid_pickup_window now none s w = (err (bad_request window_missing), w)
assert_valid_pickup_window now (some []) s w = (err (bad_request window_missing), w)
assert_valid_pickup_window now (some (c ∷ cs)) none w = (err (bad_request window_missing), w)
assert_valid_pickup_window now (some (c ∷ cs)) (some s) w =
    check_day now (w.texts.parse_date ((c ∷ cs) ++ codes "T00:00:00.000Z")) w

abbrev has_window : Option Text → Option PickupTimeSlot → Bool
has_window none none = false
has_window (some []) none = false
has_window (some (c ∷ cs)) none = true
has_window d (some s) = true

unfoldable pub check_window : ℕ → CreateQuote → M (Unit {0})
unfolding assert_valid_pickup_window
check_window now dto = elim dto.fulfillment_method [
  | none ↦ raise_if (has_window dto.pickup_date dto.time_slot) (bad_request window_not_allowed)
  | some m ↦ elim m [
    | FulfillmentMethod.pickup ↦ assert_valid_pickup_window now dto.pickup_date dto.time_slot
    | FulfillmentMethod.warehouse_drop_off ↦
        raise_if (has_window dto.pickup_date dto.time_slot) (bad_request window_not_allowed)
  ]
]
