-- ===== src/Pricing/Slabs.antt =====
-- Weight slabs: pricing/weight-slab-overlap.ts and the engine's `findMatchingSlab`.
mod Defs
mod Overlap
mod Match
unfoldable pub use Defs.{find_overlapping_slabs, first_overlap, find_matching_slab, active_slabs}
pub use Defs.*
pub use Overlap.*
pub use Match.*
