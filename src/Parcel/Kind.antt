-- ===== src/Parcel/Kind.antt =====
-- (`packaged` is PACKAGE: `package` is a reserved word.)
-- `SHIPMENT_TYPES` of packages/shared-types/src/quote.ts.
use nation_wide.Common.{ℕ, Bool, ◌==◌}

pub data ShipmentType : Type 0 where
  document parcel packaged other : ShipmentType

abbrev pub kind_code : ShipmentType → ℕ
kind_code document = 0
kind_code parcel = 1
kind_code packaged = 2
kind_code other = 3

-- `===` on shipment types.
abbrev pub same_kind : ShipmentType → ShipmentType → Bool
same_kind a b = kind_code a == kind_code b
