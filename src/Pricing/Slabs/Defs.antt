-- ===== src/Pricing/Slabs/Defs.antt =====
-- A weight slab, `findOverlappingSlabs` and `findMatchingSlab`.
use nation_wide.Common.{
  ℕ, Bool, ◌&&◌, Option, none, some, List, [], ◌∷◌, find, leb, if◌then◌else◌, sort_by, filter_by,
}
use nation_wide.Pricing.Price.{RateType}

pub record WeightSlab : Type 0 where
  pub id : ℕ
  pub rate_card_id : ℕ
  pub weight_from : ℕ
  pub weight_to : ℕ
  pub base_rate : ℕ
  pub rate_type : RateType
  pub gst_percent : ℕ
  pub nationwide_cut : ℕ
  pub is_active : Bool

pub record WeightSlabRange : Type 0 where
  pub weight_from : ℕ
  pub weight_to : ℕ

abbrev pub range_of : WeightSlab → WeightSlabRange
range_of s = record { weight_from = s.weight_from; weight_to = s.weight_to }

-- The loop over adjacent pairs.
unfoldable pub first_overlap : List WeightSlabRange → Option (WeightSlabRange × WeightSlabRange)
first_overlap [] = none
first_overlap (s ∷ []) = none
first_overlap (s ∷ t ∷ rest) =
    if leb t.weight_from s.weight_to then some (s, t) else first_overlap (t ∷ rest)

-- `[...slabs].sort((a, b) => a.weightFromKg - b.weightFromKg)` and the loop over it.
unfoldable pub find_overlapping_slabs :
    List WeightSlabRange → Option (WeightSlabRange × WeightSlabRange)
find_overlapping_slabs slabs = first_overlap (sort_by (λ s. s.weight_from) slabs)

abbrev pub covers_weight : ℕ → WeightSlab → Bool
covers_weight weight s = leb s.weight_from weight && leb weight s.weight_to

unfoldable pub find_matching_slab : List WeightSlab → ℕ → Option WeightSlab
find_matching_slab slabs weight = find (covers_weight weight) slabs

-- The rows that Prisma returns for `where: { isActive: true }, orderBy: { weightFromKg: 'asc' }`.
unfoldable pub active_slabs : List WeightSlab → List WeightSlab
active_slabs ss = sort_by (λ s. s.weight_from) (filter_by (λ s. s.is_active) ss)
