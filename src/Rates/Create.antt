-- ===== src/Rates/Create.antt =====
-- `RatesService.create`, its find-or-create of the rate card, and the overlap check.
use nation_wide.Common.{
  ℕ, ◌+◌, Bool, true, not, ◌&&◌, Option, none, some, List, [], ◌∷◌, ◌++◌, map, ltb, ◌==◌,
  if◌then◌else◌, find, filter_by, or_default,
}
use nation_wide.Parcel.{same_kind}
use nation_wide.Pricing.Price.{flat}
use nation_wide.Pricing.Slabs.{WeightSlab, WeightSlabRange, range_of, find_overlapping_slabs}
use nation_wide.Rates.Types.{
  CardKey, rate_created, RatesDb, to_below_from, gst_above_100, duplicate_rate, overlap, Result, ok,
  err, CreateRateDto, max_gst_percent,
}

abbrev pub is_key : CreateRateDto → CardKey → Bool
is_key dto k = k.zone_id == dto.zone_id && same_kind k.shipment_type dto.shipment_type

-- `rateCard.upsert`: find or create.
unfoldable pub upsert_with : CreateRateDto → RatesDb → Option CardKey → ℕ × RatesDb
upsert_with dto db (some k) = (k.id, db)
upsert_with dto db none = (
  db.next_id,
  record db {
    cards =
        record { id = db.next_id; zone_id = dto.zone_id; shipment_type = dto.shipment_type }
        ∷ db.cards;
    next_id = db.next_id + 1;
  },
)

unfoldable pub upsert_card : CreateRateDto → RatesDb → ℕ × RatesDb
upsert_card dto db = upsert_with dto db (find (is_key dto) db.cards)

abbrev pub is_sibling : ℕ → WeightSlab → Bool
is_sibling card s = s.is_active && s.rate_card_id == card

abbrev pub is_other : ℕ → ℕ → WeightSlab → Bool
is_other card id s = is_sibling card s && not (s.id == id)

-- `assertNoOverlapAmong`, as the pair that it would report.
unfoldable pub overlap_among :
    List WeightSlab → WeightSlabRange → Option (WeightSlabRange × WeightSlabRange)
overlap_among siblings candidate =
    find_overlapping_slabs (map range_of siblings ++ (candidate ∷ []))

unfoldable pub insert_rate : CreateRateDto → ℕ → ℕ → RatesDb → Result WeightSlab × RatesDb
insert_rate dto card actor db =
    let slab : WeightSlab = record {
      id = db.next_id;
      rate_card_id = card;
      weight_from = dto.weight_from;
      weight_to = dto.weight_to;
      base_rate = dto.base_rate;
      rate_type = flat;
      gst_percent = or_default dto.gst_percent 0;
      nationwide_cut = or_default dto.nationwide_cut 0;
      is_active = true;
    } in
    (
      ok slab,
      record db {
        slabs = slab ∷ db.slabs;
        next_id = db.next_id + 1;
        audit =
            record {
              actor = actor;
              action = rate_created;
              entity_id = slab.id;
              before = none;
              after = slab;
            }
            ∷ db.audit;
      },
    )

-- What follows the search for an exact duplicate and for an overlap.
unfoldable pub create_unless :
    Option WeightSlab
    → Option (WeightSlabRange × WeightSlabRange)
    → CreateRateDto
    → ℕ
    → ℕ
    → RatesDb
    → Result WeightSlab × RatesDb
create_unless (some s) o dto card actor db = (err (duplicate_rate s.id), db)
create_unless none (some pair) dto card actor db = (err (overlap pair), db)
create_unless none none dto card actor db = insert_rate dto card actor db

abbrev pub is_duplicate : CreateRateDto → WeightSlab → Bool
is_duplicate dto s = s.weight_from == dto.weight_from && s.weight_to == dto.weight_to

unfoldable pub create_on : CreateRateDto → ℕ → ℕ → RatesDb → Result WeightSlab × RatesDb
create_on dto card actor db =
    let siblings = filter_by (is_sibling card) db.slabs in
    create_unless (find (is_duplicate dto) siblings)
      (overlap_among siblings (record { weight_from = dto.weight_from; weight_to = dto.weight_to }))
      dto card actor db

unfoldable pub create : CreateRateDto → ℕ → RatesDb → Result WeightSlab × RatesDb
create dto actor db =
    if ltb dto.weight_to dto.weight_from
    then (err to_below_from, db)
    else if ltb max_gst_percent (or_default dto.gst_percent 0)
    then (err gst_above_100, db)
    else let (card, db') = upsert_card dto db in create_on dto card actor db'
