-- ===== src/PickupRequests/Places.antt =====
-- Where and when a parcel is picked up: `pickupLogisticsData`, and the checks of `create` on the window.
use nation_wide.Common.{
  ℕ, zero, suc, Bool, true, false, not, ◌&&◌, Option, none, some, [], ◌∷◌, ◌==◌, String, or_default,
}
use nation_wide.Store.{PickupTimeSlot, Logistics}
use nation_wide.Invoices.Numbering.{Text}
use nation_wide.PickupRequests.Slots.{Clock, local_date_iso, is_pickup_slot_open}

pub record PickupLogistics : Type 0 where
  pub drop_at_warehouse : Bool
  pub contact_name : String
  pub contact_phone : String
  pub address_line1 : Option String
  pub address_line2 : Option String
  pub city : Option String
  pub state : Option String
  pub postal_code : Option String
  pub latitude : Option ℕ
  pub longitude : Option ℕ
  pub maps_url : Option String
  pub pickup_date : Option Text
  pub time_slot : Option PickupTimeSlot
  pub instructions : Option String

-- `pickup ? x : null`.
abbrev only_if {ℓ} : {A : Type ℓ} → Bool → Option A → Option A
only_if true o = o
only_if false o = none

-- An empty text is falsy.
abbrev pub given : Option Text → Option Text
given none = none
given (some []) = none
given (some (c ∷ cs)) = some (c ∷ cs)

unfoldable pub pickup_logistics_data : PickupLogistics → Logistics
pickup_logistics_data dto =
    let pickup = not dto.drop_at_warehouse in
    record {
      drop_at_warehouse = dto.drop_at_warehouse;
      contact_name = dto.contact_name;
      contact_phone = dto.contact_phone;
      address_line1 = or_default (only_if pickup dto.address_line1) "";
      address_line2 = only_if pickup dto.address_line2;
      city = or_default (only_if pickup dto.city) "";
      state = or_default (only_if pickup dto.state) "";
      postal_code = or_default (only_if pickup dto.postal_code) "";
      latitude = only_if pickup dto.latitude;
      longitude = only_if pickup dto.longitude;
      maps_url = only_if pickup dto.maps_url;
      pickup_date = only_if pickup (given dto.pickup_date);
      time_slot = only_if pickup dto.time_slot;
      instructions = dto.instructions;
    }

-- `!dto.dropAtWarehouse && (!dto.pickupDate || !dto.pickupTimeSlot)`.
abbrev pub lacks_window : PickupLogistics → Bool
lacks_window p = not p.drop_at_warehouse && lacks (given p.pickup_date) p.time_slot
  where
    lacks : Option Text → Option PickupTimeSlot → Bool
    lacks none s = true
    lacks (some d) none = true
    lacks (some d) (some s) = false

-- `date.slice(0, 10)`.
abbrev pub first_chars : ℕ → Text → Text
first_chars zero d = []
first_chars (suc n) [] = []
first_chars (suc n) (c ∷ cs) = c ∷ first_chars n cs

abbrev pub same_text : Text → Text → Bool
same_text [] [] = true
same_text [] (d ∷ ds) = false
same_text (c ∷ cs) [] = false
same_text (c ∷ cs) (d ∷ ds) = (c == d) && same_text cs ds

-- The window is on today and is over.
abbrev slot_passed : Clock → Option Text → Option PickupTimeSlot → Bool
slot_passed now none s = false
slot_passed now (some d) none = false
slot_passed now (some d) (some slot) =
    same_text (first_chars 10 d) (local_date_iso now)
    && not (is_pickup_slot_open slot (first_chars 10 d) now)

unfoldable pub slot_is_over : Clock → PickupLogistics → Bool
slot_is_over now p = not p.drop_at_warehouse && slot_passed now p.pickup_date p.time_slot
