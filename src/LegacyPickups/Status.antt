-- ===== src/LegacyPickups/Status.antt =====
-- `updateStatus`, with the transitions of a pickup and of a warehouse drop-off.
use nation_wide.Common.{
  ℕ, Bool, true, false, ◌||◌, Option, none, some, List, [], ◌∷◌, ◌==◌, if◌then◌else◌, any, String,
}
use nation_wide.Store.{
  Table, put, Result, ok, err, not_found, bad_request, wrong_status, FulfillmentMethod,
}
use nation_wide.Orders.Payment.{or_kept}

pub data PickupStatus : Type 0 where
  scheduled pending assigned pickup_in_progress picked_up dropped_off cancelled : PickupStatus
  pickup_failed : PickupStatus

abbrev pub code : PickupStatus → ℕ
code scheduled = 0
code pending = 1
code assigned = 2
code pickup_in_progress = 3
code picked_up = 4
code dropped_off = 5
code cancelled = 6
code pickup_failed = 7

abbrev pub is_status : PickupStatus → PickupStatus → Bool
is_status a b = code a == code b

unfoldable pub pickup_transitions : PickupStatus → List PickupStatus
pickup_transitions scheduled = pending ∷ cancelled ∷ []
pickup_transitions pending = assigned ∷ cancelled ∷ pickup_failed ∷ []
pickup_transitions assigned = pickup_in_progress ∷ cancelled ∷ pickup_failed ∷ []
pickup_transitions pickup_in_progress = picked_up ∷ pickup_failed ∷ []
pickup_transitions picked_up = []
pickup_transitions cancelled = []
pickup_transitions pickup_failed = []
pickup_transitions dropped_off = []

unfoldable pub drop_off_transitions : PickupStatus → List PickupStatus
drop_off_transitions scheduled = dropped_off ∷ cancelled ∷ []
drop_off_transitions dropped_off = []
drop_off_transitions cancelled = []
drop_off_transitions pending = []
drop_off_transitions assigned = []
drop_off_transitions pickup_in_progress = []
drop_off_transitions picked_up = []
drop_off_transitions pickup_failed = []

unfoldable pub allowed : FulfillmentMethod → PickupStatus → List PickupStatus
unfolding pickup_transitions drop_off_transitions
allowed FulfillmentMethod.pickup s = pickup_transitions s
allowed FulfillmentMethod.warehouse_drop_off s = drop_off_transitions s

abbrev pub is_terminal : PickupStatus → Bool
is_terminal s = is_status s picked_up || is_status s dropped_off

pub record LegacyPickup : Type 0 where
  pub customer_id : ℕ
  pub method : FulfillmentMethod
  pub status : PickupStatus
  pub weight_verified : Option ℕ
  pub notes : Option String
  pub confirmed_by : Option ℕ
  pub confirmed_at : Option ℕ

pub record UpdatePickupStatus : Type 0 where
  pub status : PickupStatus
  pub weight_verified : Option ℕ
  pub notes : Option String

pub data PickupAction : Type 0 where
  marked_picked_up drop_off_confirmed status_changed : PickupAction

pub record StatusEntry : Type 0 where
  pub actor : ℕ
  pub action : PickupAction
  pub entity_id : ℕ
  pub before : PickupStatus
  pub after : PickupStatus

-- The rows, the audit log and the customers who were told that their parcel is in.
pub record Desk : Type 0 where
  pub pickups : Table LegacyPickup
  pub audit : List StatusEntry
  pub confirmed : List ℕ

abbrev action_of : PickupStatus → PickupAction
action_of s =
    if is_status s picked_up
    then marked_picked_up
    else if is_status s dropped_off
    then drop_off_confirmed
    else status_changed

abbrev confirmed_row : ℕ → ℕ → Bool → LegacyPickup → LegacyPickup
confirmed_row now actor true p = record p { confirmed_by = some actor; confirmed_at = some now }
confirmed_row now actor false p = p

abbrev pub updated_row : ℕ → ℕ → UpdatePickupStatus → LegacyPickup → LegacyPickup
updated_row now actor dto p = confirmed_row now actor (is_terminal dto.status) (record p {
  status = dto.status;
  weight_verified = or_kept dto.weight_verified p.weight_verified;
  notes = or_kept dto.notes p.notes;
})

abbrev told : Bool → ℕ → List ℕ → List ℕ
told true customer l = customer ∷ l
told false customer l = l

abbrev written : ℕ → ℕ → UpdatePickupStatus → ℕ → LegacyPickup → Desk → Desk
written now id dto actor p d = record {
  pickups = put d.pickups id (updated_row now actor dto p);
  audit =
      record {
        actor = actor;
        action = action_of dto.status;
        entity_id = id;
        before = p.status;
        after = dto.status;
      }
      ∷ d.audit;
  confirmed = told (is_terminal dto.status) p.customer_id d.confirmed;
}

abbrev may_become : UpdatePickupStatus → LegacyPickup → Bool
may_become dto p = any (is_status dto.status) (allowed p.method p.status)

abbrev update_found :
    ℕ → ℕ → UpdatePickupStatus → ℕ → Option LegacyPickup → Desk → Result LegacyPickup × Desk
update_found now id dto actor none d = (err not_found, d)
update_found now id dto actor (some p) d =
    if may_become dto p
    then (ok (updated_row now actor dto p), written now id dto actor p d)
    else (err (bad_request wrong_status), d)

unfoldable pub update_status : ℕ → ℕ → UpdatePickupStatus → ℕ → Desk → Result LegacyPickup × Desk
unfolding allowed
update_status now id dto actor d = update_found now id dto actor (d.pickups id) d
