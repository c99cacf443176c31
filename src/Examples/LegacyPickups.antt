-- ===== src/Examples/LegacyPickups.antt =====
-- The life of one pickup and of one drop-off.
use nation_wide.Common.{◌≡◌, ◌≤◌, refl, none, some, List, [], ◌∷◌, ◌==◌, if◌then◌else◌}
use nation_wide.Store.{FulfillmentMethod}
use nation_wide.LegacyPickups.Status.{
  PickupStatus, scheduled, pending, assigned, pickup_in_progress, picked_up, dropped_off,
  LegacyPickup, UpdatePickupStatus, Desk,
}
use nation_wide.LegacyPickups.Life.{Update, times_moved, times_moved_bound}

abbrev fresh : LegacyPickup
fresh = record {
  customer_id = 1;
  method = FulfillmentMethod.pickup;
  status = scheduled;
  weight_verified = none;
  notes = none;
  confirmed_by = none;
  confirmed_at = none;
}

abbrev desk : Desk
desk = record {
  pickups = λ id.
      if id == 1
      then some fresh
      else if id == 2
      then some (record fresh { method = FulfillmentMethod.warehouse_drop_off })
      else none;
  audit = [];
  confirmed = [];
}

abbrev move : PickupStatus → UpdatePickupStatus
move s = record { status = s; weight_verified = some 2_000; notes = none }

abbrev updates : List Update
updates =
    record { now = 1; id = 1; dto = move pending; actor = 9 }
    ∷ record { now = 2; id = 1; dto = move assigned; actor = 9 }
    ∷ record { now = 3; id = 2; dto = move dropped_off; actor = 9 }
    ∷ record { now = 4; id = 1; dto = move pickup_in_progress; actor = 9 }
    ∷ record { now = 5; id = 1; dto = move picked_up; actor = 9 }
    ∷ record { now = 6; id = 1; dto = move pending; actor = 9 }
    ∷ []

-- The bound is reached.
four_times : times_moved 1 updates desk ≡ 4
unfolding times_moved
four_times = refl

times_moved_bound_example : times_moved 1 updates desk ≤ 4
times_moved_bound_example = times_moved_bound 1 updates desk
