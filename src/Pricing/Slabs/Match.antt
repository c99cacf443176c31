-- ===== src/Pricing/Slabs/Match.antt =====
-- On a rate card whose active slabs lie apart the engine's match is the one slab that covers the
-- weight.
use mathlib.Core.Option.{some-injective}
use nation_wide.Common.{
  ℕ, ◌≡◌, ◌↔◌, inl, inr, true, false, some, List, [], ◌∷◌, map, arith, All, AllPairs, In, here,
  there, filter_by, In-filter_by, All-In, In-sort_by, AllPairs-sort_by, Bool-cases,
}
use nation_wide.Pricing.Slabs.Defs.{
  WeightSlab, range_of, covers_weight, find_matching_slab, active_slabs,
}
use nation_wide.Pricing.Slabs.Overlap.{Apart, Apart-sym, Disjoint}

abbrev pub SlabsApart : WeightSlab → WeightSlab → Type 0
SlabsApart s t = Apart (range_of s) (range_of t)

pub AllPairs-map : (ss : List WeightSlab) → Disjoint (map range_of ss) → AllPairs SlabsApart ss
AllPairs-map [] d = tt
AllPairs-map (s ∷ ss) d = (all ss d.0, AllPairs-map ss d.1)
  where
    all :
        (ts : List WeightSlab) → All (Apart (range_of s)) (map range_of ts) → All (SlabsApart s) ts
    all [] h = tt
    all (t ∷ ts) h = (h.0, all ts h.1)

find_matching_slab_unique :
    (w : ℕ) (s : WeightSlab) (ss : List WeightSlab)
    → AllPairs SlabsApart ss
    → In s ss
    → covers_weight w s ≡ true
    → find_matching_slab ss w ≡ some s
unfolding find_matching_slab
find_matching_slab_unique w s [] d m c = elim m [ ]
find_matching_slab_unique w s (t ∷ ts) d (here e) c = rw (← e) (rw c)
find_matching_slab_unique w s (t ∷ ts) d (there m) c =
    let apart = All-In (SlabsApart t) s ts d.0 m in
    let misses : covers_weight w t ≡ false = ground arith in
    rw misses (find_matching_slab_unique w s ts d.1 m c)

-- The same for the rows in the order of the query.
pub find_matching_slab-active :
    (w : ℕ) (s : WeightSlab) (ss : List WeightSlab)
    → AllPairs SlabsApart (filter_by (λ x. x.is_active) ss)
    → In s ss
    → s.is_active ≡ true
    → covers_weight w s ≡ true
    → find_matching_slab (active_slabs ss) w ≡ some s
unfolding active_slabs
find_matching_slab-active w s ss d m a c =
    let active = filter_by (λ x. x.is_active) ss in
    find_matching_slab_unique w s (active_slabs ss)
      ((AllPairs-sort_by (λ x. x.weight_from) SlabsApart (λ x y. Apart-sym _ _) active).1 d)
      (In-sort_by (λ x. x.weight_from) s active (In-filter_by (λ x. x.is_active) s ss m a)) c

covers_of_find :
    (w : ℕ) (s : WeightSlab) (ss : List WeightSlab)
    → find_matching_slab ss w ≡ some s
    → covers_weight w s ≡ true
unfolding find_matching_slab
covers_of_find w s [] h = cc
covers_of_find w s (t ∷ ts) h = elim (Bool-cases (covers_weight w t)) [
  | inl e ↦ let same : some t ≡ some s = rw e at h in rw (← some-injective _ _ same) e
  | inr e ↦ covers_of_find w s ts (rw e at h)
]

-- Whatever the order in which the slabs of a card are read: if its active slabs lie apart, the
-- engine prices a weight from a given active slab exactly when that slab covers the weight.
pub matching_slab_iff :
    (w : ℕ) (s : WeightSlab) (ss : List WeightSlab)
    → Disjoint (map range_of (filter_by (λ s. s.is_active) ss))
    → In s ss
    → s.is_active ≡ true
    → (find_matching_slab (active_slabs ss) w ≡ some s) ↔ (covers_weight w s ≡ true)
matching_slab_iff w s ss d m a =
    (covers_of_find w s (active_slabs ss), find_matching_slab-active w s ss (AllPairs-map _ d) m a)
