-- ===== src/Rates.antt =====
-- The admin's rates: backend/src/modules/pricing/rates.service.ts. A rate is a weight slab of a
-- rate card, and a rate card is the pair of a zone and a shipment type.
mod Types
mod Create
mod Edit
mod Pairs
mod Valid
mod Calls
unfoldable pub use Create.{
  upsert_with, create_unless, upsert_card, overlap_among, insert_rate, create_on, create,
}
unfoldable pub use Edit.{
  write_row, write_rows, commit_rows, write_unless, update_found, set_active_found, put_slab,
  write_slab, changed, write_checked, update, set_active, bulk_update,
}
unfoldable pub use Calls.{run_call, run}
pub use Types.*
pub use Create.*
pub use Edit.*
pub use Valid.*
pub use Calls.*
