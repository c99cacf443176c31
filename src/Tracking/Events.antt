-- ===== src/Tracking/Events.antt =====
-- tracking/tracking.service.ts: `persistNewEvents`, what is stored of a carrier's report.
use nation_wide.Common.{
  ℕ, max, Bool, true, not, Option, none, some, List, [], ◌∷◌, ◌++◌, ltb, ◌==◌, if◌then◌else◌, any,
  map, filter_by,
}
use nation_wide.Accounts.Rows.{Crypto}
use nation_wide.Tracking.Rows.{
  Shipment, NormalizedTrackingEvent, TrackingEvent, TrackingStatus, same_status, CanonicalStatus,
  TrackingDb, unknown_status, Reply, ok, err,
}
use nation_wide.Tracking.Shipments.{change_shipment, with_status, ask_if_delivered}

-- The latest time of an event of the shipment.
abbrev pub later_of : Option ℕ → ℕ → Option ℕ
later_of none t = some t
later_of (some u) t = some (max u t)

abbrev pub latest_time : ℕ → List TrackingEvent → Option ℕ
latest_time id [] = none
latest_time id (e ∷ es) =
    let rest = latest_time id es in if e.shipment_id == id then later_of rest e.event_time else rest

abbrev pub is_new : Option ℕ → NormalizedTrackingEvent → Bool
is_new none e = true
is_new (some t) e = ltb t e.event_time

abbrev pub event_row : Shipment → NormalizedTrackingEvent → TrackingEvent
event_row s e = record {
  shipment_id = s.id;
  provider_id = s.provider_id;
  raw_status = e.raw_status;
  status = e.status;
  event_time = e.event_time;
  location = e.location;
}

abbrev pub is_known : List CanonicalStatus → NormalizedTrackingEvent → Bool
is_known statuses e = any (λ t. same_status t.code e.status) statuses

abbrev pub last_status : TrackingStatus → List NormalizedTrackingEvent → TrackingStatus
last_status s [] = s
last_status s (e ∷ es) = last_status e.status es

module _ (c : Crypto) where
  abbrev pub store_events :
      ℕ → Shipment → List NormalizedTrackingEvent → TrackingDb → Reply (Unit {0}) × TrackingDb
  store_events now s [] d = (ok tt, d)
  store_events now s (e ∷ es) d =
      let last = last_status e.status es in
      if any (λ n. not (is_known d.statuses n)) (e ∷ es) then (err unknown_status, d) else (
        ok tt,
        ask_if_delivered c now last s.id (record d {
          events = d.events ++ map (event_row s) (e ∷ es);
          shipments = map (change_shipment s.id (with_status last now)) d.shipments;
          notified = (s.customer_id, last, s.internal_tracking_number) ∷ d.notified;
        }),
      )

  -- Only the events that are later than all that are stored.
  unfoldable pub persist_new_events :
      ℕ → Shipment → List NormalizedTrackingEvent → TrackingDb → Reply (Unit {0}) × TrackingDb
  persist_new_events now s events d =
      store_events now s (filter_by (is_new (latest_time s.id d.events)) events) d
