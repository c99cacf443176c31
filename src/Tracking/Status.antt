-- ===== src/Tracking/Status.antt =====
-- tracking/tracking.service.ts: `getStatus`, with its cache and its fallback.
use Prim.Native.String.{◌++◌ as append}
use text.Mathlib.Text.{◌==◌ as str_eq}
use nation_wide.Common.{
  ℕ, ◌+◌, ◌*◌, Bool, false, Option, none, some, List, [], ◌∷◌, ltb, ◌==◌, if◌then◌else◌, find, any,
  map, filter_by, String, or_default, sort_by,
}
use nation_wide.Accounts.Rows.{Crypto}
use nation_wide.Tracking.Rows.{
  Shipment, Provider, ExternalTrackingNumber, NormalizedTrackingEvent, TrackingEvent,
  TrackingStatus, is_delivered, same_status, code_text, CanonicalStatus, CacheEntry,
  TrackingCarrier, TrackingEventDto, TrackingResult, TrackingDb, not_found, unavailable, Reply, ok,
  err, Texts, TrackingConfig, has_id, has_number, is_current,
}
use nation_wide.Tracking.Shipments.{other_entry}
use nation_wide.Tracking.Events.{persist_new_events}

-- `carrierTrackingUrl`, with the code in capitals and the number encoded.
abbrev tracking_page : String → String → Option String
tracking_page code awb =
    if str_eq code "DHL"
    then some (
        append "https://www.dhl.com/in-en/home/tracking/tracking-express.html?submit=1&tracking-id="
          awb)
    else if str_eq code "FEDEX"
    then some (append "https://www.fedex.com/fedextrack/?trknbr=" awb)
    else if str_eq code "UPS"
    then some (append "https://www.ups.com/track?loc=en_IN&tracknum=" awb)
    else if str_eq code "DPD"
    then some (append "https://www.dpd.co.uk/apps/tracking/?reference=" awb)
    else if str_eq code "ARAMEX"
    then some (append "https://www.aramex.com/us/en/track/results?ShipmentNumber=" awb)
    else none

abbrev carrier_tracking_url : Texts → String → String → Option String
carrier_tracking_url t code awb = tracking_page (t.upper code) (t.encode_uri_component awb)

abbrev or_shipment : Option Shipment → Option Shipment → Option Shipment
or_shipment none o = o
or_shipment (some s) o = some s

abbrev carries : Texts → String → TrackingDb → Shipment → Bool
carries t awb d s =
    any
      (λ m.
        if m.shipment_id == s.id then t.same_in_any_case m.external_tracking_number awb else false)
      d.mappings

-- Our own number, then the number of a carrier, then the id of the order.
unfoldable pub find_shipment_by_reference : Texts → String → TrackingDb → Option Shipment
find_shipment_by_reference t reference d =
    let trimmed = t.trim reference in
    if str_eq trimmed ""
    then none
    else or_shipment (find (has_number (t.upper trimmed)) d.shipments) (
        or_shipment (find (carries t trimmed d) d.shipments)
          (find (λ s. str_eq s.order_id trimmed) d.shipments))

abbrev pub cache_get : ℕ → String → TrackingDb → Option CacheEntry
cache_get now number d =
    find (λ e. if str_eq e.number number then ltb now e.expires_at else false) d.cache

abbrev label_of : List CanonicalStatus → TrackingStatus → String
label_of statuses s = elim (find (λ t. same_status t.code s) statuses) [
  | none ↦ code_text s
  | some t ↦ t.display_label
]

abbrev event_dto : List CanonicalStatus → TrackingEvent → TrackingEventDto
event_dto statuses e = record {
  status = e.status;
  display_label = label_of statuses e.status;
  event_time = e.event_time;
  location = e.location;
}

abbrev current_label : Option TrackingStatus → List TrackingEventDto → String
current_label none events = "Tracking not yet available"
current_label (some s) events = elim (find (λ e. same_status e.status s) events) [
  | none ↦ code_text s
  | some e ↦ e.display_label
]

module _ (t : Texts) where
  abbrev carrier_of : Option ExternalTrackingNumber → Option Provider → Option TrackingCarrier
  carrier_of none p = none
  carrier_of (some m) none = none
  carrier_of (some m) (some p) = some (record {
    code = p.code;
    name = p.name;
    tracking_number = m.external_tracking_number;
    tracking_url = carrier_tracking_url t p.code m.external_tracking_number;
  })

  abbrev build_dto :
      Shipment
      → TrackingDb
      → Option TrackingStatus
      → Option ℕ
      → List TrackingEventDto
      → TrackingResult
  build_dto s d status updated events = record {
    internal_tracking_number = s.internal_tracking_number;
    customer_name = s.customer_name;
    consignee_name = s.dest_name;
    consignee_phone = s.dest_phone;
    items = or_default s.items [];
    carrier =
        carrier_of (find (is_current s) d.mappings) (find (λ p. p.id == s.provider_id) d.providers);
    current_status = status;
    current_status_label = current_label status events;
    last_updated = updated;
    events = events;
  }

  -- The shipment is read again, after its events were stored.
  abbrev pub build_dto_from_db : Shipment → TrackingDb → TrackingResult
  build_dto_from_db s d =
      let now_stored = or_default (find (has_id s.id) d.shipments) s in
      let stored = sort_by (λ e. e.event_time) (filter_by (λ e. e.shipment_id == s.id) d.events) in
      build_dto s d now_stored.current_status now_stored.last_synced_at
        (map (event_dto d.statuses) stored)

  abbrev pub fallback : Shipment → TrackingDb → Reply TrackingResult × TrackingDb
  fallback s d =
      if any (λ e. e.shipment_id == s.id) d.events
      then (ok (build_dto_from_db s d), d)
      else (err unavailable, d)

  module _ (c : Crypto) (config : TrackingConfig) where
    abbrev ttl_of : Option TrackingStatus → ℕ
    ttl_of none = or_default config.active_ttl 300
    ttl_of (some s) =
        if is_delivered s
        then or_default config.terminal_ttl 86_400
        else or_default config.active_ttl 300

    abbrev pub cached : ℕ → Shipment → TrackingDb → Reply TrackingResult × TrackingDb
    cached now s d =
        let dto = build_dto_from_db s d in
        let entry : CacheEntry = record {
          number = s.internal_tracking_number;
          result = dto;
          expires_at = now + ttl_of dto.current_status * 1_000;
        } in
        (
          ok dto,
          record d { cache = entry ∷ filter_by (other_entry s.internal_tracking_number) d.cache },
        )

    abbrev pub log_request : Shipment → Option ℕ → TrackingDb → TrackingDb
    log_request s status d = record d { logs = (s.id, status) ∷ d.logs }

    abbrev pub after_storing :
        ℕ → Shipment → Reply (Unit {0}) × TrackingDb → Reply TrackingResult × TrackingDb
    after_storing now s (ok a, d) = cached now s d
    after_storing now s (err e, d) = fallback s (log_request s none d)

    -- The answer of the carrier, or none where it failed or took too long.
    abbrev pub synced :
        ℕ
        → Shipment
        → Option (List NormalizedTrackingEvent)
        → TrackingDb
        → Reply TrackingResult × TrackingDb
    synced now s none d = fallback s (log_request s none d)
    synced now s (some events) d =
        after_storing now s (persist_new_events c now s events (log_request s (some 200) d))

    abbrev pub track :
        ℕ
        → Shipment
        → Option (List NormalizedTrackingEvent)
        → TrackingDb
        → Reply TrackingResult × TrackingDb
    track now s answer d = elim (find (is_current s) d.mappings) [
      | none ↦ (ok (build_dto s d none none []), d)
      | some m ↦ synced now s answer d
    ]

    abbrev pub or_cached :
        ℕ
        → Shipment
        → Option (List NormalizedTrackingEvent)
        → TrackingDb
        → Option CacheEntry
        → Reply TrackingResult × TrackingDb
    or_cached now s answer d none = track now s answer d
    or_cached now s answer d (some e) = (ok e.result, d)

    abbrev pub status_of :
        ℕ
        → Option (List NormalizedTrackingEvent)
        → TrackingDb
        → Option Shipment
        → Reply TrackingResult × TrackingDb
    status_of now answer d none = (err not_found, d)
    status_of now answer d (some s) =
        or_cached now s answer d (cache_get now s.internal_tracking_number d)

    unfoldable pub get_status :
        ℕ
        → String
        → Option (List NormalizedTrackingEvent)
        → TrackingDb
        → Reply TrackingResult × TrackingDb
    get_status now reference answer d =
        status_of now answer d (find_shipment_by_reference t reference d)
