-- ===== src/Tracking/Calls.antt =====
-- The calls of the routes of tracking, shipments and reviews, in any order.
use nation_wide.Common.{ℕ, Bool, Option, List, [], ◌∷◌, String}
use nation_wide.Accounts.Rows.{Crypto}
use nation_wide.Tracking.Rows.{NormalizedTrackingEvent, TrackingDb, Texts, TrackingConfig}
use nation_wide.Tracking.Reviews.{SubmitReview, submit, set_approved}
use nation_wide.Tracking.Shipments.{
  StatusOverride, map_external_tracking_number, override_tracking_status,
}
use nation_wide.Tracking.Status.{get_status}

-- `ask` comes with the answer that the carrier gives to it, if any.
pub data Call : Type 0 where
  ask : (now : ℕ) (reference : String) (answer : Option (List NormalizedTrackingEvent)) → Call
  map_number : (internal : String) (provider : ℕ) (number : String) (actor : ℕ) → Call
  correct : (now : ℕ) (internal : String) (input : StatusOverride) (actor : ℕ) → Call
  review : (now : ℕ) (token : String) (dto : SubmitReview) → Call
  approve : (now id : ℕ) (approved : Bool) (admin : ℕ) → Call

module _ (t : Texts) (c : Crypto) (config : TrackingConfig) where
  unfoldable pub call : Call → TrackingDb → TrackingDb
  call (ask now reference answer) d = (get_status t c config now reference answer d).1
  call (map_number internal provider number actor) d =
      (map_external_tracking_number internal provider number actor d).1
  call (correct now internal input actor) d =
      (override_tracking_status c now internal input actor d).1
  call (review now token dto) d = (submit c now t token dto d).1
  call (approve now id approved admin) d = (set_approved now id approved admin d).1

  unfoldable pub run : List Call → TrackingDb → TrackingDb
  run [] d = d
  run (k ∷ ks) d = run ks (call k d)
