-- ===== src/Rates/Edit.antt =====
-- `RatesService.update`, `setActive` and `bulkUpdate`.
use nation_wide.Common.{
  ℕ, Bool, true, false, Option, none, some, List, [], ◌∷◌, ltb, ◌==◌, if◌then◌else◌, find, any,
  filter_by, or_default,
}
use nation_wide.Pricing.Slabs.{WeightSlab, WeightSlabRange, range_of}
use nation_wide.Rates.Types.{
  RateAction, rate_updated, rate_activated, rate_deactivated, RatesDb, RateError, to_below_from,
  gst_above_100, overlap, rate_not_found, Result, ok, err, UpdateRateDto, max_gst_percent,
}
use nation_wide.Rates.Create.{is_other, overlap_among}

-- `update({ where: { id }, data })`, the row written anew.
unfoldable pub put_slab : WeightSlab → List WeightSlab → List WeightSlab
put_slab new [] = []
put_slab new (s ∷ ss) = (if s.id == new.id then new else s) ∷ put_slab new ss

unfoldable pub write_slab :
    RateAction → ℕ → WeightSlab → WeightSlab → RatesDb → Result WeightSlab × RatesDb
write_slab action actor old new db = (
  ok new,
  record db {
    slabs = put_slab new db.slabs;
    audit =
        record {
          actor = actor;
          action = action;
          entity_id = old.id;
          before = some old;
          after = new;
        }
        ∷ db.audit;
  },
)

-- An undefined field of the DTO leaves the column alone.
unfoldable pub changed : UpdateRateDto → WeightSlab → WeightSlab
changed dto s = record s {
  weight_from = or_default dto.weight_from s.weight_from;
  weight_to = or_default dto.weight_to s.weight_to;
  base_rate = or_default dto.base_rate s.base_rate;
  gst_percent = or_default dto.gst_percent s.gst_percent;
  nationwide_cut = or_default dto.nationwide_cut s.nationwide_cut;
}

unfoldable pub write_unless :
    Option (WeightSlabRange × WeightSlabRange)
    → RateAction
    → ℕ
    → WeightSlab
    → WeightSlab
    → RatesDb
    → Result WeightSlab × RatesDb
write_unless (some pair) action actor old new db = (err (overlap pair), db)
write_unless none action actor old new db = write_slab action actor old new db

-- The overlap check of a row against the other active rows of its card, and the write.
unfoldable pub write_checked :
    RateAction → ℕ → WeightSlab → WeightSlab → RatesDb → Result WeightSlab × RatesDb
write_checked action actor old new db =
    write_unless
      (overlap_among (filter_by (is_other old.rate_card_id old.id) db.slabs) (range_of new)) action
      actor old new db

unfoldable pub update_found :
    UpdateRateDto → ℕ → ℕ → Option WeightSlab → RatesDb → Result WeightSlab × RatesDb
update_found dto id actor none db = (err (rate_not_found id), db)
update_found dto id actor (some old) db =
    let new = changed dto old in
    if ltb new.weight_to new.weight_from
    then (err to_below_from, db)
    else if ltb max_gst_percent (or_default dto.gst_percent 0)
    then (err gst_above_100, db)
    else write_checked rate_updated actor old new db

abbrev pub has_id : ℕ → WeightSlab → Bool
has_id id s = s.id == id

unfoldable pub update : ℕ → UpdateRateDto → ℕ → RatesDb → Result WeightSlab × RatesDb
update id dto actor db = update_found dto id actor (find (has_id id) db.slabs) db

unfoldable pub set_active_found :
    ℕ → Bool → ℕ → Option WeightSlab → RatesDb → Result WeightSlab × RatesDb
set_active_found id active actor none db = (err (rate_not_found id), db)
set_active_found id true actor (some old) db =
    if old.is_active
    then (ok old, db)
    else write_checked rate_activated actor old (record old { is_active = true }) db
set_active_found id false actor (some old) db =
    if old.is_active
    then write_slab rate_deactivated actor old (record old { is_active = false }) db
    else (ok old, db)

unfoldable pub set_active : ℕ → Bool → ℕ → RatesDb → Result WeightSlab × RatesDb
set_active id active actor db = set_active_found id active actor (find (has_id id) db.slabs) db

pub record BulkUpdateRow : Type 0 where
  pub id : ℕ
  pub base_rate : Option ℕ
  pub gst_percent : Option ℕ
  pub nationwide_cut : Option ℕ

abbrev pub row_dto : BulkUpdateRow → UpdateRateDto
row_dto r = record {
  weight_from = none;
  weight_to = none;
  base_rate = r.base_rate;
  gst_percent = r.gst_percent;
  nationwide_cut = r.nationwide_cut;
}

unfoldable pub write_row : BulkUpdateRow → ℕ → Option WeightSlab → RatesDb → Option RatesDb
write_row r actor none db = none
write_row r actor (some old) db =
    some (write_slab rate_updated actor old (changed (row_dto r) old) db).1

-- The loop inside the transaction, with the id of the row that is missing, if one is.
unfoldable pub write_rows : List BulkUpdateRow → ℕ → RatesDb → Option ℕ × RatesDb
write_rows [] actor db = (none, db)
write_rows (r ∷ rs) actor db = elim (write_row r actor (find (has_id r.id) db.slabs) db) [
  | none ↦ (some r.id, db)
  | some db' ↦ write_rows rs actor db'
]

abbrev pub gst_too_high : BulkUpdateRow → Bool
gst_too_high r = ltb max_gst_percent (or_default r.gst_percent 0)

unfoldable pub commit_rows : RatesDb → Option ℕ × RatesDb → Option RateError × RatesDb
commit_rows before (some id, db) = (some (rate_not_found id), before)
commit_rows before (none, db) = (none, db)

-- A transaction that throws is rolled back, so a missing row leaves the database as it was.
unfoldable pub bulk_update : List BulkUpdateRow → ℕ → RatesDb → Option RateError × RatesDb
bulk_update rows actor db =
    if any gst_too_high rows
    then (some gst_above_100, db)
    else commit_rows db (write_rows rows actor db)
