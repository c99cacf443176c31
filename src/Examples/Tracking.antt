-- ===== src/Examples/Tracking.antt =====
-- Two shipments of one customer, on their way with one carrier.
use text.Mathlib.Text.{◌==◌ as str_eq}
use nation_wide.Common.{◌≡◌, refl, true, none, some, List, [], ◌∷◌, here, there, arith}
use nation_wide.Accounts.Rows.{Crypto}
use nation_wide.Tracking.Rows.{
  Shipment, ExternalTrackingNumber, NormalizedTrackingEvent, TrackingDb, in_transit, delivered,
  Texts, TrackingConfig, ok,
}
use nation_wide.Tracking.Reviews.{request_feedback}
use nation_wide.Tracking.Events.{persist_new_events}
use nation_wide.Tracking.Shipments.{StatusOverride, override_tracking_status}
use nation_wide.Tracking.Status.{get_status}
use nation_wide.Tracking.Shown.{shown_status, override_tracking_status-shown}
use nation_wide.Tracking.Calls.{Call, ask, map_number, correct, review, approve, run}
use nation_wide.Tracking.Numbers.{IsUnambiguous, run-IsUnambiguous}
use nation_wide.Tracking.History.{Grows, run-Grows}
use nation_wide.Tracking.Invitations.{IsAskedOnce}
use nation_wide.Tracking.Invited.{run-IsAskedOnce}
use nation_wide.Tracking.Again.{persist_new_events-again}

abbrev texts : Texts
texts = record {
  trim = λ s. s;
  upper = λ s. s;
  same_in_any_case = str_eq;
  encode_uri_component = λ s. s;
}

abbrev crypto : Crypto
crypto = record {
  bcrypt_hash = λ salt s. s;
  bcrypt_compare = str_eq;
  sha256 = λ s. s;
  sign_access = λ p n. "";
  sign_refresh = λ p n. "";
  random_token = λ n. "token";
  normalize = λ s. s;
}

abbrev config : TrackingConfig
config = record { active_ttl = none; terminal_ttl = none }

abbrev parcel : Shipment
parcel = record {
  id = 1;
  order_id = "o1";
  internal_tracking_number = "NW-26-00000001";
  provider_id = 3;
  current_status = none;
  last_synced_at = none;
  customer_id = 9;
  customer_name = "Asha";
  customer_email = some "asha@x.in";
  dest_name = some "Ben";
  dest_phone = none;
  items = none;
}

abbrev sample : TrackingDb
sample = record {
  shipments = parcel ∷ record parcel { id = 2; internal_tracking_number = "NW-26-00000002" } ∷ [];
  providers = record { id = 3; code = "DHL"; name = "DHL" } ∷ [];
  mappings = record { shipment_id = 1; provider_id = 3; external_tracking_number = "AWB1" } ∷ [];
  events = [];
  statuses =
      record { code = in_transit; display_label = "In transit" }
      ∷ record { code = delivered; display_label = "Delivered" }
      ∷ [];
  reviews = [];
  cache = [];
  audit = [];
  logs = [];
  notified = [];
  invited = [];
  next = 1;
}

abbrev report : List NormalizedTrackingEvent
report =
    record { status = in_transit; event_time = 5; location = none; raw_status = "PU" }
    ∷ record { status = delivered; event_time = 8; location = some "Berlin"; raw_status = "OK" }
    ∷ []

abbrev calls : List Call
calls =
    ask 10 "NW-26-00000001" (some report)
    ∷ map_number "NW-26-00000002" 3 "AWB1" 7
    ∷ map_number "NW-26-00000002" 3 "AWB2" 7
    ∷ correct 20 "NW-26-00000001" (record { status = delivered; location = none; note = none }) 7
    ∷ review 30 "token" (record { rating = 5; comment = some "Fast" })
    ∷ approve 40 1 true 7
    ∷ []

-- Only one mapping, so its number cannot name two shipments.
sample-IsUnambiguous : IsUnambiguous sample
sample-IsUnambiguous m n (here e) (here f) p q = rw e (rw f refl)
sample-IsUnambiguous m n (here e) (there j) p q = elim j [ ]
sample-IsUnambiguous m n (there i) j p q = elim i [ ]

run-IsUnambiguous_example : IsUnambiguous (run texts crypto config calls sample)
run-IsUnambiguous_example = run-IsUnambiguous texts crypto config calls sample sample-IsUnambiguous

run-Grows_example : Grows sample.events (run texts crypto config calls sample).events
run-Grows_example = run-Grows crypto texts config calls sample

run-IsAskedOnce_example : IsAskedOnce (run texts crypto config calls sample)
run-IsAskedOnce_example =
    run-IsAskedOnce crypto texts config calls sample (λ id. (omega arith, omega arith))

abbrev synced_once : TrackingDb
synced_once = (persist_new_events crypto 10 parcel report sample).1

persist_new_events-again_example :
    persist_new_events crypto 60 parcel report synced_once ≡ (ok tt, synced_once)
unfolding persist_new_events
persist_new_events-again_example =
    persist_new_events-again crypto 10 parcel report sample 60 {d' = synced_once} refl

abbrev lost : StatusOverride
lost = record { status = in_transit; location = none; note = some "Found again" }

abbrev mapped : ExternalTrackingNumber
mapped = record { shipment_id = 1; provider_id = 3; external_tracking_number = "AWB1" }

abbrev corrected : TrackingDb
corrected = (override_tracking_status crypto 20 "NW-26-00000001" lost 7 synced_once).1

override_tracking_status-shown_example :
    shown_status (get_status texts crypto config 25 "NW-26-00000001" none corrected).0
    ≡ some in_transit
unfolding override_tracking_status persist_new_events request_feedback
override_tracking_status-shown_example =
    override_tracking_status-shown texts crypto config "NW-26-00000001" 20 25 lost 7 none
      synced_once (record parcel { current_status = some delivered; last_synced_at = some 10 })
      {m = mapped} {d' = corrected} (refl, refl, refl) tt refl refl refl refl
