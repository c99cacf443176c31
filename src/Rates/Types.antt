-- ===== src/Rates/Types.antt =====
-- The rows, inputs and errors of the rates service.
use nation_wide.Common.{ℕ, Option, List}
use nation_wide.Parcel.{ShipmentType}
use nation_wide.Pricing.Slabs.{WeightSlab, WeightSlabRange}

pub record CardKey : Type 0 where
  pub id : ℕ
  pub zone_id : ℕ
  pub shipment_type : ShipmentType

pub data RateAction : Type 0 where
  rate_created rate_updated rate_activated rate_deactivated : RateAction

pub record AuditEntry : Type 0 where
  pub actor : ℕ
  pub action : RateAction
  pub entity_id : ℕ
  pub before : Option WeightSlab
  pub after : WeightSlab

-- `next_id` stands for the database's generator of fresh ids.
pub record RatesDb : Type 0 where
  pub cards : List CardKey
  pub slabs : List WeightSlab
  pub next_id : ℕ
  pub audit : List AuditEntry

pub data RateError : Type 0 where
  to_below_from gst_above_100 : RateError
  duplicate_rate : ℕ → RateError
  overlap : WeightSlabRange × WeightSlabRange → RateError
  rate_not_found : ℕ → RateError

pub data Result (A : Type 0) : Type 0 where
  ok : A → Result A
  err : RateError → Result A

pub record CreateRateDto : Type 0 where
  pub zone_id : ℕ
  pub shipment_type : ShipmentType
  pub weight_from : ℕ
  pub weight_to : ℕ
  pub base_rate : ℕ
  pub gst_percent : Option ℕ
  pub nationwide_cut : Option ℕ

pub record UpdateRateDto : Type 0 where
  pub weight_from : Option ℕ
  pub weight_to : Option ℕ
  pub base_rate : Option ℕ
  pub gst_percent : Option ℕ
  pub nationwide_cut : Option ℕ

abbrev pub max_gst_percent : ℕ
max_gst_percent = 10_000
