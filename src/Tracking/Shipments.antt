-- ===== src/Tracking/Shipments.antt =====
-- shipments/shipments.service.ts: the mapping of a carrier's number and the correction of a status.
use text.Mathlib.Text.{◌==◌ as str_eq}
use nation_wide.Common.{
  ℕ, Bool, false, not, ◌&&◌, ◌||◌, Option, none, some, List, [], ◌∷◌, ◌++◌, ◌==◌, if◌then◌else◌,
  find, any, map, filter_by, String,
}
use nation_wide.Accounts.Rows.{Crypto}
use nation_wide.Tracking.Rows.{
  Shipment, ExternalTrackingNumber, TrackingEvent, TrackingStatus, is_delivered, same_status,
  CacheEntry, number_mapped, status_overridden, TrackingDb, not_found, conflict, Reply, ok, err,
  has_number, is_current,
}
use nation_wide.Tracking.Reviews.{request_feedback}

abbrev pub change_shipment : ℕ → (Shipment → Shipment) → Shipment → Shipment
change_shipment id f s = if s.id == id then f s else s

-- The same number at the same carrier, on another shipment.
abbrev pub is_conflicting : ℕ → ℕ → String → ExternalTrackingNumber → Bool
is_conflicting shipment provider number m =
    (m.provider_id == provider)
    && str_eq m.external_tracking_number number
    && not (m.shipment_id == shipment)

abbrev pub is_mapping : ℕ → ℕ → ExternalTrackingNumber → Bool
is_mapping shipment provider m = (m.shipment_id == shipment) && (m.provider_id == provider)

abbrev pub renumber : ℕ → ℕ → String → ExternalTrackingNumber → ExternalTrackingNumber
renumber shipment provider number m =
    if is_mapping shipment provider m then record m { external_tracking_number = number } else m

abbrev pub upsert_mapping :
    ℕ → ℕ → String → List ExternalTrackingNumber → List ExternalTrackingNumber
upsert_mapping shipment provider number ms =
    if any (is_mapping shipment provider) ms
    then map (renumber shipment provider number) ms
    else ms
      ++ (record {
        shipment_id = shipment;
        provider_id = provider;
        external_tracking_number = number;
      }
          ∷ [])

abbrev number_of : Option ExternalTrackingNumber → Option String
number_of none = none
number_of (some m) = some m.external_tracking_number

abbrev is_number : String → Option String → Bool
is_number number none = false
is_number number (some n) = str_eq n number

-- Another carrier or another number: what was known of the status no longer holds.
abbrev pub remapped : Bool → ℕ → Shipment → Shipment
remapped changing provider s =
    if changing
    then record s { provider_id = provider; current_status = none; last_synced_at = none }
    else record s { provider_id = provider }

abbrev pub map_checked : ℕ → String → ℕ → Shipment → TrackingDb → Reply (Unit {0}) × TrackingDb
map_checked provider number actor s d =
    let active = number_of (find (is_current s) d.mappings) in
    let changing = not (s.provider_id == provider) || not (is_number number active) in
    if any (is_conflicting s.id provider number) d.mappings then (err conflict, d) else (
      ok tt,
      record d {
        mappings = upsert_mapping s.id provider number d.mappings;
        shipments = map (change_shipment s.id (remapped changing provider)) d.shipments;
        audit = number_mapped actor s.id s.provider_id active provider number ∷ d.audit;
      },
    )

abbrev pub map_found : ℕ → String → ℕ → TrackingDb → Option Shipment → Reply (Unit {0}) × TrackingDb
map_found provider number actor d none = (err not_found, d)
map_found provider number actor d (some s) =
    if any (λ p. p.id == provider) d.providers
    then map_checked provider number actor s d
    else (err not_found, d)

unfoldable pub map_external_tracking_number :
    String → ℕ → String → ℕ → TrackingDb → Reply (Unit {0}) × TrackingDb
map_external_tracking_number internal provider number actor d =
    map_found provider number actor d (find (has_number internal) d.shipments)

pub record StatusOverride : Type 0 where
  pub status : TrackingStatus
  pub location : Option String
  pub note : Option String

abbrev pub override_event : ℕ → StatusOverride → Shipment → TrackingEvent
override_event now input s = record {
  shipment_id = s.id;
  provider_id = s.provider_id;
  raw_status = "MANUAL_OVERRIDE";
  status = input.status;
  event_time = now;
  location = input.location;
}

abbrev pub with_status : TrackingStatus → ℕ → Shipment → Shipment
with_status status now s = record s { current_status = some status; last_synced_at = some now }

abbrev pub other_entry : String → CacheEntry → Bool
other_entry number e = not (str_eq e.number number)

module _ (c : Crypto) where
  -- A review is asked for on delivery.
  abbrev pub ask_if_delivered : ℕ → TrackingStatus → ℕ → TrackingDb → TrackingDb
  ask_if_delivered now status shipment d =
      if is_delivered status then request_feedback c now shipment d else d

  abbrev pub overridden : ℕ → StatusOverride → ℕ → Shipment → TrackingDb → TrackingDb
  overridden now input actor s d = record d {
    events = d.events ++ (override_event now input s ∷ []);
    shipments = map (change_shipment s.id (with_status input.status now)) d.shipments;
    audit = status_overridden actor s.id s.current_status input.status input.note ∷ d.audit;
    cache = filter_by (other_entry s.internal_tracking_number) d.cache;
    notified = (s.customer_id, input.status, s.internal_tracking_number) ∷ d.notified;
  }

  abbrev pub override_found :
      ℕ → StatusOverride → ℕ → TrackingDb → Option Shipment → Reply (Unit {0}) × TrackingDb
  override_found now input actor d none = (err not_found, d)
  override_found now input actor d (some s) =
      if any (λ t. same_status t.code input.status) d.statuses
      then (ok tt, ask_if_delivered now input.status s.id (overridden now input actor s d))
      else (err not_found, d)

  unfoldable pub override_tracking_status :
      ℕ → String → StatusOverride → ℕ → TrackingDb → Reply (Unit {0}) × TrackingDb
  override_tracking_status now internal input actor d =
      override_found now input actor d (find (has_number internal) d.shipments)
