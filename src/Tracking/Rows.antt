-- ===== src/Tracking/Rows.antt =====
-- The rows that tracking reads and writes, and the entries of its cache.
use nation_wide.Common.{ℕ, Bool, true, false, Option, List, String, ◌==◌, ◌&&◌}
use nation_wide.Store.{ShipmentItem}
use text.Mathlib.Text.{◌==◌ as str_eq}

pub data TrackingStatus : Type 0 where
  picked_up in_transit out_for_delivery delivered exception : TrackingStatus

abbrev pub is_delivered : TrackingStatus → Bool
is_delivered picked_up = false
is_delivered in_transit = false
is_delivered out_for_delivery = false
is_delivered delivered = true
is_delivered exception = false

abbrev pub status_number : TrackingStatus → ℕ
status_number picked_up = 0
status_number in_transit = 1
status_number out_for_delivery = 2
status_number delivered = 3
status_number exception = 4

abbrev pub code_text : TrackingStatus → String
code_text picked_up = "PICKED_UP"
code_text in_transit = "IN_TRANSIT"
code_text out_for_delivery = "OUT_FOR_DELIVERY"
code_text delivered = "DELIVERED"
code_text exception = "EXCEPTION"

abbrev pub same_status : TrackingStatus → TrackingStatus → Bool
same_status s t = status_number s == status_number t

-- A shipment with the columns of its order, its customer and its quote that are shown.
pub record Shipment : Type 0 where
  pub id : ℕ
  pub order_id : String
  pub internal_tracking_number : String
  pub provider_id : ℕ
  pub current_status : Option TrackingStatus
  pub last_synced_at : Option ℕ
  pub customer_id : ℕ
  pub customer_name : String
  pub customer_email : Option String
  pub dest_name : Option String
  pub dest_phone : Option String
  pub items : Option (List ShipmentItem)

pub record Provider : Type 0 where
  pub id : ℕ
  pub code : String
  pub name : String

pub record ExternalTrackingNumber : Type 0 where
  pub shipment_id : ℕ
  pub provider_id : ℕ
  pub external_tracking_number : String

-- What an adapter reports; the raw payload is left out.
pub record NormalizedTrackingEvent : Type 0 where
  pub status : TrackingStatus
  pub event_time : ℕ
  pub location : Option String
  pub raw_status : String

pub record TrackingEvent : Type 0 where
  pub shipment_id : ℕ
  pub provider_id : ℕ
  pub raw_status : String
  pub status : TrackingStatus
  pub event_time : ℕ
  pub location : Option String

pub record CanonicalStatus : Type 0 where
  pub code : TrackingStatus
  pub display_label : String

pub record Review : Type 0 where
  pub id : ℕ
  pub shipment_id : ℕ
  pub customer_id : ℕ
  pub token_hash : String
  pub expires_at : ℕ
  pub rating : Option ℕ
  pub comment : Option String
  pub submitted_at : Option ℕ
  pub approved : Bool
  pub approved_by_admin_id : Option ℕ
  pub approved_at : Option ℕ

pub record TrackingCarrier : Type 0 where
  pub code : String
  pub name : String
  pub tracking_number : String
  pub tracking_url : Option String

pub record TrackingEventDto : Type 0 where
  pub status : TrackingStatus
  pub display_label : String
  pub event_time : ℕ
  pub location : Option String

pub record TrackingResult : Type 0 where
  pub internal_tracking_number : String
  pub customer_name : String
  pub consignee_name : Option String
  pub consignee_phone : Option String
  pub items : List ShipmentItem
  pub carrier : Option TrackingCarrier
  pub current_status : Option TrackingStatus
  pub current_status_label : String
  pub last_updated : Option ℕ
  pub events : List TrackingEventDto

pub record CacheEntry : Type 0 where
  pub number : String
  pub result : TrackingResult
  pub expires_at : ℕ

pub data AuditEntry : Type 0 where
  number_mapped :
      (actor shipment from_provider : ℕ) (from_number : Option String) (to_provider : ℕ)
      (to_number : String)
      → AuditEntry
  status_overridden :
      (actor shipment : ℕ) (before : Option TrackingStatus) (after : TrackingStatus)
      (note : Option String)
      → AuditEntry

-- `logs` are the calls of a carrier, with the status of the answer.
pub record TrackingDb : Type 0 where
  pub shipments : List Shipment
  pub providers : List Provider
  pub mappings : List ExternalTrackingNumber
  pub events : List TrackingEvent
  pub statuses : List CanonicalStatus
  pub reviews : List Review
  pub cache : List CacheEntry
  pub audit : List AuditEntry
  pub logs : List (ℕ × Option ℕ)
  pub notified : List (ℕ × TrackingStatus × String)
  pub invited : List (ℕ × String × String)
  pub next : ℕ

pub data TrackingError : Type 0 where
  not_found conflict already_submitted unavailable unknown_status : TrackingError

pub data Reply (A : Type 0) : Type 0 where
  ok : A → Reply A
  err : TrackingError → Reply A

-- The string functions of JavaScript and of the database.
pub record Texts : Type 0 where
  pub trim : String → String
  pub upper : String → String
  pub same_in_any_case : String → String → Bool
  pub encode_uri_component : String → String

pub record TrackingConfig : Type 0 where
  pub active_ttl : Option ℕ
  pub terminal_ttl : Option ℕ

abbrev pub has_id : ℕ → Shipment → Bool
has_id id s = s.id == id

abbrev pub has_number : String → Shipment → Bool
has_number number s = str_eq s.internal_tracking_number number

abbrev pub is_current : Shipment → ExternalTrackingNumber → Bool
is_current s m = (m.shipment_id == s.id) && (m.provider_id == s.provider_id)
