-- ===== src/PickupRequests/Slots.antt =====
-- `localDateIso`, `isPickupSlotOpen` and `firstOpenPickupSlot` of packages/shared-types/src/quote.ts.
use nation_wide.Common.{
  ℕ, ◌+◌, ◌*◌, ◌≤◌, ◌≡◌, ◌↔◌, ◌⊎◌, Bool, true, false, Option, none, some, List, [], ◌∷◌, ◌++◌,
  arith, ltb, ◌==◌, if◌then◌else◌, find,
}
use nation_wide.Store.{PickupTimeSlot, from_9_to_12, from_12_to_15, from_15_to_18}
use nation_wide.Invoices.Numbering.{Text, decimal, pad_start}

-- The getters of a `Date`, in the time zone of the server.
pub record Clock : Type 0 where
  pub year : ℕ
  pub month : ℕ
  pub day : ℕ
  pub hours : ℕ
  pub minutes : ℕ

unfoldable pub local_date_iso : Clock → Text
local_date_iso c =
    decimal c.year
    ++ (b'-' ∷ (pad_start 2 (decimal c.month) ++ (b'-' ∷ pad_start 2 (decimal c.day))))

-- `a < b` on strings.
abbrev pub text_before : Text → Text → Bool
text_before a [] = false
text_before [] (d ∷ ds) = true
text_before (c ∷ cs) (d ∷ ds) =
    let rest = text_before cs ds in if ltb c d then true else if c == d then rest else false

-- The minute of the day at which a window ends.
abbrev pub slot_end : PickupTimeSlot → ℕ
slot_end from_9_to_12 = 12 * 60 + 0
slot_end from_12_to_15 = 15 * 60 + 0
slot_end from_15_to_18 = 18 * 60 + 0

unfoldable pub is_pickup_slot_open : PickupTimeSlot → Text → Clock → Bool
is_pickup_slot_open slot date now =
    if text_before (local_date_iso now) date
    then true
    else if text_before date (local_date_iso now)
    then false
    else ltb (now.hours * 60 + now.minutes) (slot_end slot)

abbrev pub pickup_time_slots : List PickupTimeSlot
pickup_time_slots = from_9_to_12 ∷ from_12_to_15 ∷ from_15_to_18 ∷ []

unfoldable pub first_open_pickup_slot : Text → Clock → Option PickupTimeSlot
unfolding is_pickup_slot_open
first_open_pickup_slot date now = find (λ slot. is_pickup_slot_open slot date now) pickup_time_slots

-- A day offers no window exactly when it is before today, or is today and six in the evening is
-- reached.
pub first_open_pickup_slot_iff :
    (date : Text) (now : Clock)
    → (first_open_pickup_slot date now ≡ none) ↔ (
        (text_before (local_date_iso now) date ≡ false)
        × ((text_before date (local_date_iso now) ≡ true)
            ⊎ (18 * 60 ≤ now.hours * 60 + now.minutes)))
unfolding first_open_pickup_slot is_pickup_slot_open
first_open_pickup_slot_iff date now = (λ h. ground arith, λ h. ground arith)

-- The window that is offered first is open, and it ends no later than any other open one.
pub first_open_pickup_slot-IsFirst :
    (date : Text) (now : Clock) (first slot : PickupTimeSlot)
    → first_open_pickup_slot date now ≡ some first
    → is_pickup_slot_open slot date now ≡ true
    → (is_pickup_slot_open first date now ≡ true) × (slot_end first ≤ slot_end slot)
unfolding first_open_pickup_slot is_pickup_slot_open
first_open_pickup_slot-IsFirst date now first slot e h = ground arith
