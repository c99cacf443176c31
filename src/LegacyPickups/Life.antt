-- ===== src/LegacyPickups/Life.antt =====
-- The life of such a pickup ends.
use nation_wide.Common.{
  ℕ, ◌+◌, ◌≤◌, ◌≡◌, inl, inr, Bool, true, false, ◌&&◌, Bool-cases, Option, none, some, List, [],
  ◌∷◌, ◌==◌, if◌then◌else◌, arith,
}
use nation_wide.Store.{Result, ok, err}
use nation_wide.LegacyPickups.Status.{
  PickupStatus, LegacyPickup, UpdatePickupStatus, Desk, update_status, allowed, pickup_transitions,
  drop_off_transitions, scheduled, pending, assigned, pickup_in_progress, picked_up, dropped_off,
  cancelled, pickup_failed,
}

pub record Update : Type 0 where
  pub now : ℕ
  pub id : ℕ
  pub dto : UpdatePickupStatus
  pub actor : ℕ

abbrev pub update : Update → Desk → Result LegacyPickup × Desk
update u d = update_status u.now u.id u.dto u.actor d

pub run : List Update → Desk → Desk
run [] d = d
run (u ∷ us) d = run us (update u d).1

abbrev accepts : Result LegacyPickup × Desk → Bool
accepts (ok p, d) = true
accepts (err e, d) = false

-- How many updates of the pickup are accepted.
unfoldable pub times_moved : ℕ → List Update → Desk → ℕ
unfolding update_status
times_moved id [] d = 0
times_moved id (u ∷ us) d =
    let later = times_moved id us (update u d).1 in
    if (u.id == id) && accepts (update u d) then later + 1 else later

-- The longest way to an end.
steps_left : PickupStatus → ℕ
steps_left scheduled = 4
steps_left pending = 3
steps_left assigned = 2
steps_left pickup_in_progress = 1
steps_left picked_up = 0
steps_left dropped_off = 0
steps_left cancelled = 0
steps_left pickup_failed = 0

row_left : Option LegacyPickup → ℕ
unfolding steps_left
row_left none = 0
row_left (some p) = steps_left p.status

moves_on :
    (id : ℕ) (u : Update) (d : Desk)
    → ((u.id == id) && accepts (update u d)) ≡ true
    → row_left ((update u d).1.pickups id) + 1 ≤ row_left (d.pickups id)
unfolding update_status allowed pickup_transitions drop_off_transitions row_left steps_left
moves_on id u d h = ground arith

stays_put :
    (id : ℕ) (u : Update) (d : Desk)
    → ((u.id == id) && accepts (update u d)) ≡ false
    → row_left ((update u d).1.pickups id) ≤ row_left (d.pickups id)
unfolding update_status row_left
stays_put id u d h = ground arith

times_moved_left :
    (id : ℕ) (us : List Update) (d : Desk) → times_moved id us d ≤ row_left (d.pickups id)
unfolding times_moved
times_moved_left id [] d = ground arith
times_moved_left id (u ∷ us) d =
    let later = times_moved_left id us (update u d).1 in
    elim (Bool-cases ((u.id == id) && accepts (update u d))) [
      | inl y ↦ rw y (step (moves_on id u d y) later)
      | inr n ↦ rw n (wait (stays_put id u d n) later)
    ]
  where
    step : {a b c : ℕ} → b + 1 ≤ c → a ≤ b → a + 1 ≤ c
    step h k = omega arith

    wait : {a b c : ℕ} → b ≤ c → a ≤ b → a ≤ c
    wait h k = omega arith

row_left_bound : (o : Option LegacyPickup) → row_left o ≤ 4
unfolding row_left steps_left
row_left_bound o = ground arith

-- Every pickup comes to its end: of any sequence of updates, in any state, at most four of one
-- pickup are accepted.
pub times_moved_bound : (id : ℕ) (us : List Update) (d : Desk) → times_moved id us d ≤ 4
times_moved_bound id us d = both (times_moved_left id us d) (row_left_bound (d.pickups id))
  where
    both : {a b : ℕ} → a ≤ b → b ≤ 4 → a ≤ 4
    both h k = omega arith
